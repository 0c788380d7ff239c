-- ===== src/Persistence/Encryption/Envelope.antt =====
-- The parts of an envelope of src/pinterest_mcp/persistence/encryption.py.
use Prim.Native.Char.{Char, code}
use pinterest_mcp_docker.Common.{
  ◌+◌, ◌≤◌, ◌≡◌, refl, ap, ◌∙◌, String, Bool, true, false, not, List, [], ◌∷◌, ◌==◌, length, nat_eq,
  string_eq, arith,
}
use pinterest_mcp_docker.Persistence.Encryption.Base64.{add_text, all_chars}
use pinterest_mcp_docker.Persistence.Encryption.{dot, envelope, split_dots, put_char}

-- A text with no dot.
abbrev pub is_dotless : String → Bool
is_dotless = all_chars (λ c. not (code c == b'.'))

split-dotless : (s : String) → is_dotless s ≡ true → split_dots s ≡ s ∷ []
unfolding split_dots all_chars
split-dotless String.[] h = refl
split-dotless (String.◌∷◌ c s) h = ground (arith, split-dotless s)

split-add_text :
    (s t : String)
    → is_dotless s ≡ true
    → split_dots (add_text s (String.◌∷◌ dot t)) ≡ s ∷ split_dots t
unfolding split_dots all_chars add_text nat_eq
split-add_text String.[] t h = refl
split-add_text (String.◌∷◌ c s) t h = ground (arith, split-add_text s t)

v1_dotless : is_dotless "v1" ≡ true
unfolding all_chars nat_eq
v1_dotless = refl

-- An envelope whose parts have no dot is split into them.
pub split-envelope :
    (kid nonce sealed : String)
    → is_dotless kid ≡ true
    → is_dotless nonce ≡ true
    → is_dotless sealed ≡ true
    → split_dots (envelope kid nonce sealed) ≡ "v1" ∷ kid ∷ nonce ∷ sealed ∷ []
unfolding envelope
split-envelope kid nonce sealed hk hn hs =
    split-add_text "v1" _ v1_dotless
    ∙ ap (λ r. "v1" ∷ r)
        (split-add_text kid _ hk
          ∙ ap (λ r. kid ∷ r)
              (split-add_text nonce sealed hn ∙ ap (λ r. nonce ∷ r) (split-dotless sealed hs)))

length-put_char : (c : Char) (ps : List String) → 1 ≤ length ps → length (put_char c ps) ≡ length ps
length-put_char c [] h = absurd (omega arith)
length-put_char c (p ∷ ps) h = refl

split-full : (s : String) → 1 ≤ length (split_dots s)
unfolding split_dots
split-full String.[] = omega arith
split-full (String.◌∷◌ c s) = ground (arith, split-full s, length-put_char c (split_dots s))

length-split :
    (s t : String)
    → length (split_dots (add_text s (String.◌∷◌ dot t)))
      ≡ length (split_dots s) + length (split_dots t)
unfolding split_dots add_text nat_eq
length-split String.[] t = omega arith
length-split (String.◌∷◌ c s) t =
    let whole = add_text s (String.◌∷◌ dot t) in
    ground (
      arith,
      length-split s t,
      split-full s,
      split-full whole,
      length-put_char c (split_dots s),
      length-put_char c (split_dots whole),
    )

split-dotted : (s : String) → is_dotless s ≡ false → 2 ≤ length (split_dots s)
unfolding split_dots all_chars
split-dotted String.[] h = cc h
split-dotted (String.◌∷◌ c s) h =
    ground (arith, split-full s, split-dotted s, length-put_char c (split_dots s))

v1_split : length (split_dots "v1") ≡ 1
unfolding split_dots nat_eq
v1_split = refl

-- An envelope whose key id has a dot falls into more than four parts.
pub split-dotted_envelope :
    (kid nonce sealed : String)
    → is_dotless kid ≡ false
    → 5 ≤ length (split_dots (envelope kid nonce sealed))
unfolding envelope
split-dotted_envelope kid nonce sealed h =
    let inner = add_text nonce (String.◌∷◌ dot sealed) in
    let one = length-split "v1" (add_text kid (String.◌∷◌ dot inner)) in
    let two = length-split kid inner in
    let three = length-split nonce sealed in
    let dotted = split-dotted kid h in
    let a = split-full nonce in let b = split-full sealed in omega (arith, v1_split)
