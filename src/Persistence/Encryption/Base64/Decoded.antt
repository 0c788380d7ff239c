-- ===== src/Persistence/Encryption/Base64/Decoded.antt =====
-- Bytes are read back from their Base64 text, for src/pinterest_mcp/persistence/encryption.py.
use Prim.Native.Char.{Char, code}
use pinterest_mcp_docker.Common.{
  ℕ, ◌+◌, ◌*◌, ◌/◌, ◌%◌, ◌<◌, ◌≡◌, refl, ap, ◌∙◌, String, Bool, true, false, not, ◌&&◌, some, List,
  ◌∷◌, [], ◌==◌, nat_eq, string_eq, option_eq, ltb, All, arith, check_below, check_below_sound,
}
use pinterest_mcp_docker.Persistence.Encryption.Base64.{
  digit, urlsafe_b64encode, strip_padding, decode, a2b_base64, value, pad, length_mod, is_ascii,
  repeat_equals, all_chars,
}

reads_back :
    decode (strip_padding (urlsafe_b64encode (0 ∷ 255 ∷ 17 ∷ 200 ∷ [])))
    ≡ some (0 ∷ 255 ∷ 17 ∷ 200 ∷ [])
unfolding decode strip_padding urlsafe_b64encode nat_eq string_eq all_chars value
reads_back = refl

-- What holds of every digit.
abbrev digit_test : ℕ → Bool
digit_test v =
    value (code (digit v)) == some v
    && (not (code (digit v) == b'=') && (not (code (digit v) == b'.') && ltb (code (digit v)) 128))

all_digits : check_below 64 digit_test ≡ true
unfolding check_below value nat_eq option_eq
all_digits = refl

digit_facts :
    (v : ℕ)
    → v < 64
    → (value (code (digit v)) ≡ some v)
      × ((code (digit v) == b'=') ≡ false)
      × ((code (digit v) == b'.') ≡ false)
      × (ltb (code (digit v)) 128 ≡ true)
digit_facts v h =
    let checked : digit_test v ≡ true = check_below_sound 64 digit_test v all_digits h in
    grind arith

-- A byte.
abbrev pub IsByte : ℕ → Type 0
IsByte b = b < 256

-- The text with no padding, group by group.
unfoldable pub body : List ℕ → String
body [] = String.[]
body (a ∷ []) = String.◌∷◌ (digit (a / 4)) (String.◌∷◌ (digit (a % 4 * 16)) String.[])
body (a ∷ b ∷ []) =
    String.◌∷◌ (digit (a / 4))
      (String.◌∷◌ (digit (a % 4 * 16 + b / 16)) (String.◌∷◌ (digit (b % 16 * 4)) String.[]))
body (a ∷ b ∷ c ∷ bytes) = String.◌∷◌ (digit (a / 4)) (
    String.◌∷◌ (digit (a % 4 * 16 + b / 16))
      (String.◌∷◌ (digit (b % 16 * 4 + c / 64)) (String.◌∷◌ (digit (c % 64)) (body bytes))))

digit-strip :
    (v : ℕ) (s t : String)
    → v < 64
    → strip_padding s ≡ t
    → strip_padding (String.◌∷◌ (digit v) s) ≡ String.◌∷◌ (digit v) t
unfolding strip_padding
digit-strip v s t h same = let (_, other, _, _) = digit_facts v h in rw other (rw same refl)

strip_none : strip_padding String.[] ≡ String.[]
unfolding strip_padding
strip_none = refl

strip_one : strip_padding (repeat_equals 1) ≡ String.[]
unfolding strip_padding nat_eq string_eq
strip_one = refl

strip_two : strip_padding (repeat_equals 2) ≡ String.[]
unfolding strip_padding nat_eq string_eq
strip_two = refl

pub strip-encode :
    (bytes : List ℕ) → All IsByte bytes → strip_padding (urlsafe_b64encode bytes) ≡ body bytes
unfolding urlsafe_b64encode body
strip-encode [] h = strip_none
strip-encode (a ∷ []) h =
    digit-strip (a / 4) _ _ (omega arith) (digit-strip (a % 4 * 16) _ _ (omega arith) strip_two)
strip-encode (a ∷ b ∷ []) h = digit-strip (a / 4) _ _ (omega arith) (
    digit-strip (a % 4 * 16 + b / 16) _ _ (omega arith)
      (digit-strip (b % 16 * 4) _ _ (omega arith) strip_one))
strip-encode (a ∷ b ∷ c ∷ bytes) h = digit-strip (a / 4) _ _ (omega arith) (
    digit-strip (a % 4 * 16 + b / 16) _ _ (omega arith) (
      digit-strip (b % 16 * 4 + c / 64) _ _ (omega arith)
        (digit-strip (c % 64) _ _ (omega arith) (strip-encode bytes h.1.1.1))))

-- What the decoder does with a digit, at each place of its group.
module _ (v left pads : ℕ) (s : String) (h : v < 64) where
  a2b-first : a2b_base64 0 left pads (String.◌∷◌ (digit v) s) ≡ a2b_base64 1 v 0 s
  unfolding a2b_base64 nat_eq
  a2b-first = let (known, other, _, _) = digit_facts v h in ground arith

  module _ (bytes : List ℕ) where
    a2b-second :
        a2b_base64 2 (v % 16) 0 s ≡ some bytes
        → a2b_base64 1 left pads (String.◌∷◌ (digit v) s) ≡ some ((left * 4 + v / 16) ∷ bytes)
    unfolding a2b_base64 nat_eq
    a2b-second rest = let (known, other, _, _) = digit_facts v h in ground arith

    a2b-third :
        a2b_base64 3 (v % 4) 0 s ≡ some bytes
        → a2b_base64 2 left pads (String.◌∷◌ (digit v) s) ≡ some ((left * 16 + v / 4) ∷ bytes)
    unfolding a2b_base64 nat_eq
    a2b-third rest = let (known, other, _, _) = digit_facts v h in ground arith

    a2b-fourth :
        a2b_base64 0 0 0 s ≡ some bytes
        → a2b_base64 3 left pads (String.◌∷◌ (digit v) s) ≡ some ((left * 64 + v) ∷ bytes)
    unfolding a2b_base64 nat_eq
    a2b-fourth rest = let (known, other, _, _) = digit_facts v h in ground arith

length_mod-lt : (s : String) → length_mod s < 4
unfolding length_mod
length_mod-lt String.[] = omega arith
length_mod-lt (String.◌∷◌ c s) = omega arith

-- A whole group leaves the padding as it is.
pad-group :
    (c d e f : Char) (s : String)
    → pad (String.◌∷◌ c (String.◌∷◌ d (String.◌∷◌ e (String.◌∷◌ f s))))
      ≡ String.◌∷◌ c (String.◌∷◌ d (String.◌∷◌ e (String.◌∷◌ f (pad s))))
unfolding pad
pad-group c d e f s =
    let small = length_mod-lt s in
    let same : (((length_mod s + 1) % 4 + 1) % 4 + 1) % 4 ≡ (length_mod s + 3) % 4 = omega arith in
    let whole : ((length_mod s + 3) % 4 + 1) % 4 ≡ length_mod s = omega arith in
    rw same (rw whole refl)

ends_two : (left : ℕ) → a2b_base64 2 left 0 (repeat_equals 2) ≡ some []
unfolding a2b_base64 nat_eq
ends_two left = refl

ends_one : (left : ℕ) → a2b_base64 3 left 0 (repeat_equals 1) ≡ some []
unfolding a2b_base64 nat_eq
ends_one left = refl

pad-two :
    (c d : Char)
    → pad (String.◌∷◌ c (String.◌∷◌ d String.[])) ≡ String.◌∷◌ c (String.◌∷◌ d (repeat_equals 2))
unfolding pad
pad-two c d = refl

pad-three :
    (c d e : Char)
    → pad (String.◌∷◌ c (String.◌∷◌ d (String.◌∷◌ e String.[])))
      ≡ String.◌∷◌ c (String.◌∷◌ d (String.◌∷◌ e (repeat_equals 1)))
unfolding pad
pad-three c d e = refl

-- Groups of digits, by the bits that they hold.
a2b-two :
    (u v : ℕ)
    → u < 64
    → v < 64
    → a2b_base64 0 0 0 (pad (String.◌∷◌ (digit u) (String.◌∷◌ (digit v) String.[])))
      ≡ some ((u * 4 + v / 16) ∷ [])
a2b-two u v hu hv =
    rw (pad-two (digit u) (digit v))
      (a2b-first u 0 0 _ hu ∙ a2b-second v u 0 (repeat_equals 2) hv [] (ends_two (v % 16)))

a2b-three :
    (u v w : ℕ)
    → u < 64
    → v < 64
    → w < 64
    → a2b_base64 0 0 0
        (pad (String.◌∷◌ (digit u) (String.◌∷◌ (digit v) (String.◌∷◌ (digit w) String.[]))))
      ≡ some ((u * 4 + v / 16) ∷ (v % 16 * 16 + w / 4) ∷ [])
a2b-three u v w hu hv hw = rw (pad-three (digit u) (digit v) (digit w)) (
    a2b-first u 0 0 _ hu
    ∙ a2b-second v u 0 _ hv _ (a2b-third w (v % 16) 0 (repeat_equals 1) hw [] (ends_one (w % 4))))

a2b-four :
    (u v w x : ℕ) (s : String) (bytes : List ℕ)
    → u < 64
    → v < 64
    → w < 64
    → x < 64
    → a2b_base64 0 0 0 s ≡ some bytes
    → a2b_base64 0 0 0 (
        String.◌∷◌ (digit u) (String.◌∷◌ (digit v) (String.◌∷◌ (digit w) (String.◌∷◌ (digit x) s))))
      ≡ some ((u * 4 + v / 16) ∷ (v % 16 * 16 + w / 4) ∷ (w % 4 * 64 + x) ∷ bytes)
a2b-four u v w x s bytes hu hv hw hx rest =
    a2b-first u 0 0 _ hu
    ∙ a2b-second v u 0 _ hv _
        (a2b-third w (v % 16) 0 _ hw _ (a2b-fourth x (w % 4) 0 s hx bytes rest))

empty_text : a2b_base64 0 0 0 (pad String.[]) ≡ some []
unfolding a2b_base64 pad nat_eq
empty_text = refl

a2b-body : (bytes : List ℕ) → All IsByte bytes → a2b_base64 0 0 0 (pad (body bytes)) ≡ some bytes
unfolding body
a2b-body [] h = empty_text
a2b-body (a ∷ []) h =
    let first : a / 4 * 4 + a % 4 * 16 / 16 ≡ a = omega arith in
    a2b-two (a / 4) (a % 4 * 16) (omega arith) (omega arith) ∙ ap (λ (x : ℕ). some (x ∷ [])) first
a2b-body (a ∷ b ∷ []) h =
    let first : a / 4 * 4 + (a % 4 * 16 + b / 16) / 16 ≡ a = omega arith in
    let second : (a % 4 * 16 + b / 16) % 16 * 16 + b % 16 * 4 / 4 ≡ b = omega arith in
    a2b-three (a / 4) (a % 4 * 16 + b / 16) (b % 16 * 4) (omega arith) (omega arith) (omega arith)
    ∙ (λ i. some (first i ∷ second i ∷ []))
a2b-body (a ∷ b ∷ c ∷ bytes) h =
    let first : a / 4 * 4 + (a % 4 * 16 + b / 16) / 16 ≡ a = omega arith in
    let second : (a % 4 * 16 + b / 16) % 16 * 16 + (b % 16 * 4 + c / 64) / 4 ≡ b = omega arith in
    let third : (b % 16 * 4 + c / 64) % 4 * 64 + c % 64 ≡ c = omega arith in
    ap (a2b_base64 0 0 0) (
      pad-group (digit (a / 4)) (digit (a % 4 * 16 + b / 16)) (digit (b % 16 * 4 + c / 64))
        (digit (c % 64)) (body bytes))
    ∙ a2b-four (a / 4) (a % 4 * 16 + b / 16) (b % 16 * 4 + c / 64) (c % 64) (pad (body bytes)) bytes
        (omega arith) (omega arith) (omega arith) (omega arith) (a2b-body bytes h.1.1.1)
    ∙ (λ i. some (first i ∷ second i ∷ third i ∷ bytes))

-- What holds of every digit holds of the characters of the text.
pub all_chars-body :
    (p : Char → Bool)
    → ((v : ℕ) → v < 64 → p (digit v) ≡ true)
    → (bytes : List ℕ) → All IsByte bytes
    → all_chars p (body bytes) ≡ true
unfolding all_chars body
all_chars-body p each [] h = refl
all_chars-body p each (a ∷ []) h =
    rw (each (a / 4) (omega arith)) (rw (each (a % 4 * 16) (omega arith)) refl)
all_chars-body p each (a ∷ b ∷ []) h =
    rw (each (a / 4) (omega arith))
      (rw (each (a % 4 * 16 + b / 16) (omega arith)) (rw (each (b % 16 * 4) (omega arith)) refl))
all_chars-body p each (a ∷ b ∷ c ∷ bytes) h = rw (each (a / 4) (omega arith)) (
    rw (each (a % 4 * 16 + b / 16) (omega arith)) (
      rw (each (b % 16 * 4 + c / 64) (omega arith))
        (rw (each (c % 64) (omega arith)) (all_chars-body p each bytes h.1.1.1))))

body-is_ascii : (bytes : List ℕ) → All IsByte bytes → is_ascii (body bytes) ≡ true
body-is_ascii bytes h =
    all_chars-body (λ c. ltb (code c) 128)
      (λ v small. let (_, _, _, ascii) = digit_facts v small in ascii) bytes h

-- No dot stands in the text of bytes.
pub encode-dotless :
    (bytes : List ℕ)
    → All IsByte bytes
    → all_chars (λ c. not (code c == b'.')) (strip_padding (urlsafe_b64encode bytes)) ≡ true
encode-dotless bytes h = rw (strip-encode bytes h) (
    all_chars-body (λ c. not (code c == b'.'))
      (λ v small. let (_, _, dotless, _) = digit_facts v small in ap not dotless) bytes h)

-- The text of bytes is read back.
pub decode-encode :
    (bytes : List ℕ)
    → All IsByte bytes
    → decode (strip_padding (urlsafe_b64encode bytes)) ≡ some bytes
unfolding decode
decode-encode bytes h = rw (strip-encode bytes h) (rw (body-is_ascii bytes h) (a2b-body bytes h))
