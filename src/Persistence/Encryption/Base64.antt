-- ===== src/Persistence/Encryption/Base64.antt =====
-- The URL-safe Base64 texts of src/pinterest_mcp/persistence/encryption.py, without their padding,
-- and Python's lenient decoder, which `decrypt` runs on them.
pub mod Decoded
use Prim.Native.Char.{Char, code}
use Prim.Native.String.{char_at}
use mathlib.Core.Option
use pinterest_mcp_docker.Common.{
  ℕ, zero, suc, ◌+◌, ◌-◌, ◌*◌, ◌/◌, ◌%◌, String, Bool, true, false, ◌&&◌, ◌||◌, Option, none, some,
  List, [], ◌∷◌, ◌==◌, ltb, leb, nat_eq, string_eq, if◌then◌else◌,
}

-- The character of six bits.
abbrev pub digit : ℕ → Char
digit v = char_at "ABCDEFGHIJKLMNOPQRSTUVWXYZabcdefghijklmnopqrstuvwxyz0123456789-_" v

abbrev pub equals_sign : Char
equals_sign = char_at "=" 0

-- `base64.urlsafe_b64encode`, on bytes.
unfoldable pub urlsafe_b64encode : List ℕ → String
urlsafe_b64encode [] = String.[]
urlsafe_b64encode (a ∷ []) =
    String.◌∷◌ (digit (a / 4))
      (String.◌∷◌ (digit (a % 4 * 16)) (String.◌∷◌ equals_sign (String.◌∷◌ equals_sign String.[])))
urlsafe_b64encode (a ∷ b ∷ []) = String.◌∷◌ (digit (a / 4)) (
    String.◌∷◌ (digit (a % 4 * 16 + b / 16))
      (String.◌∷◌ (digit (b % 16 * 4)) (String.◌∷◌ equals_sign String.[])))
urlsafe_b64encode (a ∷ b ∷ c ∷ bytes) = String.◌∷◌ (digit (a / 4)) (
    String.◌∷◌ (digit (a % 4 * 16 + b / 16)) (
      String.◌∷◌ (digit (b % 16 * 4 + c / 64))
        (String.◌∷◌ (digit (c % 64)) (urlsafe_b64encode bytes))))

-- `s.rstrip("=")`.
unfoldable pub strip_padding : String → String
strip_padding String.[] = String.[]
strip_padding (String.◌∷◌ c s) =
    let rest = strip_padding s in
    if code c == b'=' && rest == "" then String.[] else String.◌∷◌ c rest

-- The length modulo 4, and the padding that it lacks.
unfoldable pub length_mod : String → ℕ
length_mod String.[] = 0
length_mod (String.◌∷◌ c s) = (length_mod s + 1) % 4

abbrev pub repeat_equals : ℕ → String
repeat_equals zero = String.[]
repeat_equals (suc n) = String.◌∷◌ equals_sign (repeat_equals n)

unfoldable pub add_text : String → String → String
add_text String.[] t = t
add_text (String.◌∷◌ c s) t = String.◌∷◌ c (add_text s t)

-- `s + "=" * (-len(s) % 4)`, and whether it can be encoded in ASCII.
unfoldable pub pad : String → String
unfolding length_mod add_text
pad s = add_text s (repeat_equals ((4 - length_mod s) % 4))

unfoldable pub all_chars : (Char → Bool) → String → Bool
all_chars p String.[] = true
all_chars p (String.◌∷◌ c s) = p c && all_chars p s

abbrev pub is_ascii : String → Bool
is_ascii = all_chars (λ c. ltb (code c) 128)

-- The six bits of a character; `urlsafe_b64decode` takes both alphabets. Others are skipped.
unfoldable pub value : ℕ → Option ℕ
value c =
    if leb b'A' c && leb c b'Z'
    then some (c - 65)
    else if leb b'a' c && leb c b'z'
    then some (c - 71)
    else if leb b'0' c && leb c b'9'
    then some (c + 4)
    else if c == b'-' || c == b'+'
    then some 62
    else if c == b'_' || c == b'/'
    then some 63
    else none

-- `binascii.a2b_base64` in its lenient mode: how many characters of a group were read, the bits
-- that are left over of them, and the padding seen since. A group that is padded to four ends the
-- text; one that is cut off is an error.
unfoldable pub a2b_base64 : ℕ → ℕ → ℕ → String → Option (List ℕ)
a2b_base64 position left pads String.[] = if position == 0 then some [] else none
a2b_base64 position left pads (String.◌∷◌ c s) =
    let padded = a2b_base64 position left (pads + 1) s in
    let wait = a2b_base64 position left pads s in
    let first = λ (v : ℕ). a2b_base64 1 v 0 s in
    let second =
      λ (v : ℕ). Option.map (λ bytes. (left * 4 + v / 16) ∷ bytes) (a2b_base64 2 (v % 16) 0 s) in
    let third =
      λ (v : ℕ). Option.map (λ bytes. (left * 16 + v / 4) ∷ bytes) (a2b_base64 3 (v % 4) 0 s) in
    let fourth = λ (v : ℕ). Option.map (λ bytes. (left * 64 + v) ∷ bytes) (a2b_base64 0 0 0 s) in
    if code c == b'='
    then (if leb 2 position && leb 4 (position + pads + 1)
        then some []
        else (if leb 2 position then padded else wait))
    else elim (value (code c)) [
      | none ↦ wait
      | some v ↦
          if position == 0
          then first v
          else if position == 1
          then second v
          else if position == 2
          then third v
          else fourth v
    ]

-- `base64.urlsafe_b64decode(pad(s))`.
unfoldable pub decode : String → Option (List ℕ)
unfolding pad a2b_base64 all_chars
decode s = if is_ascii s then a2b_base64 0 0 0 (pad s) else none

-- `base64.b64encode`, which has "+" and "/" where the URL-safe text has "-" and "_".
unfoldable pub to_standard : String → String
to_standard String.[] = String.[]
to_standard (String.◌∷◌ c s) =
    String.◌∷◌
      (if code c == b'-' then char_at "+" 0 else if code c == b'_' then char_at "/" 0 else c)
      (to_standard s)

unfoldable pub b64encode : List ℕ → String
unfolding urlsafe_b64encode to_standard
b64encode bytes = to_standard (urlsafe_b64encode bytes)
