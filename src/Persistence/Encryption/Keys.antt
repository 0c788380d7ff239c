-- ===== src/Persistence/Encryption/Keys.antt =====
-- src/pinterest_mcp/persistence/encryption.py: a cipher's keys from the environment. Characters are
-- Unicode scalar values; the JSON parser is a parameter.
pub mod Reloaded
mod Examples
use Prim.Native.Nat.{◌+◌, ◌*◌, ◌-◌, ◌/◌, ◌%◌}
use Prim.Native.Char.{Char, code}
use pinterest_mcp_docker.Common.{
  ℕ, String, Bool, true, false, ◌&&◌, ◌||◌, Option, none, some, List, [], ◌∷◌, ◌++◌, ◌==◌, leb, ltb,
  codes, length, nat_eq, string_eq, if◌then◌else◌,
}
use pinterest_mcp_docker.Persistence.Session.{Result, ok, err, value_error, attribute_error}
use pinterest_mcp_docker.Persistence.Json.{Json, text, dict, Fields, end, field, is_space}
use pinterest_mcp_docker.Persistence.Encryption.Base64.{is_ascii, a2b_base64}
use pinterest_mcp_docker.Persistence.Encryption.{CredentialCipher, create_cipher}

-- `str.strip`.
unfoldable pub lstrip : String → String
lstrip String.[] = String.[]
lstrip (String.◌∷◌ c s) = let rest = lstrip s in if is_space (code c) then rest else String.◌∷◌ c s

unfoldable pub strip_end : String → String
strip_end String.[] = String.[]
strip_end (String.◌∷◌ c s) =
    let rest = strip_end s in
    if is_space (code c) && rest == "" then String.[] else String.◌∷◌ c rest

abbrev pub hex_value : ℕ → Option ℕ
hex_value c =
    if leb b'0' c && leb c b'9'
    then some (c - b'0')
    else if leb b'a' c && leb c b'f'
    then some (c - b'a' + 10)
    else if leb b'A' c && leb c b'F'
    then some (c - b'A' + 10)
    else none

abbrev pub hex_byte : Option ℕ → Option ℕ → Option (List ℕ) → Option (List ℕ)
hex_byte (some high) (some low) (some bytes) = some ((high * 16 + low) ∷ bytes)
hex_byte _ _ _ = none

-- ASCII white space, which `fromhex` skips between the bytes.
abbrev pub is_ascii_space : ℕ → Bool
is_ascii_space c = (leb 9 c && leb c 13) || c == 32

unfoldable pub fromhex : String → Option (List ℕ)
fromhex String.[] = some []
fromhex (String.◌∷◌ c String.[]) = if is_ascii_space (code c) then some [] else none
fromhex (String.◌∷◌ c (String.◌∷◌ d s)) =
    let skip = fromhex (String.◌∷◌ d s) in
    let byte = hex_byte (hex_value (code c)) (hex_value (code d)) (fromhex s) in
    if is_ascii_space (code c) then skip else byte

-- The text without "-" and "_", which the standard alphabet lacks, and the decoder skips.
unfoldable pub standard_only : String → String
standard_only String.[] = String.[]
standard_only (String.◌∷◌ c s) =
    let rest = standard_only s in
    if code c == b'-' || code c == b'_' then rest else String.◌∷◌ c rest

-- `base64.b64decode`, which raises on a text that is not ASCII.
unfoldable pub b64decode : String → Option (List ℕ)
unfolding standard_only a2b_base64
b64decode s = if is_ascii s then a2b_base64 0 0 0 (standard_only s) else none

-- The UTF-8 bytes of a character, and of a text.
abbrev pub utf8_char : ℕ → List ℕ
utf8_char c =
    if ltb c 128
    then c ∷ []
    else if ltb c 2048
    then (192 + c / 64) ∷ (128 + c % 64) ∷ []
    else if ltb c 65536
    then (224 + c / 4096) ∷ (128 + c / 64 % 64) ∷ (128 + c % 64) ∷ []
    else (240 + c / 262144) ∷ (128 + c / 4096 % 64) ∷ (128 + c / 64 % 64) ∷ (128 + c % 64) ∷ []

abbrev pub utf8 : List ℕ → List ℕ
utf8 [] = []
utf8 (c ∷ cs) = utf8_char c ++ utf8 cs

abbrev pub raw_key : String → Result (List ℕ)
raw_key raw = if length (utf8 (codes raw)) == 32 then ok (utf8 (codes raw)) else err value_error

-- What follows once the text is not hexadecimal.
abbrev pub or_raw : String → Option (List ℕ) → Result (List ℕ)
or_raw raw none = raw_key raw
or_raw raw (some decoded) = if length decoded == 32 then ok decoded else raw_key raw

abbrev pub or_base64 : String → Option (List ℕ) → Result (List ℕ)
or_base64 raw none = or_raw raw (b64decode raw)
or_base64 raw (some bytes) = ok bytes

abbrev pub decode_stripped : String → Result (List ℕ)
decode_stripped raw =
    if length (codes raw) == 64 then or_base64 raw (fromhex raw) else or_raw raw (b64decode raw)

-- `_decode_key`.
unfoldable pub decode_key : String → Result (List ℕ)
unfolding lstrip strip_end fromhex b64decode
decode_key raw = decode_stripped (strip_end (lstrip raw))

-- A JSON value in the place of a key, which has no `strip` unless it is a text.
abbrev pub decode_value : Json → Result (List ℕ)
decode_value (text t) = decode_key t
decode_value _ = err attribute_error

abbrev pub Keys : Type 0
Keys = List (String × List ℕ)

abbrev pub add_entry : String → Result (List ℕ) → Result Keys → Result Keys
add_entry kid (err e) rest = err e
add_entry kid (ok key) (err e) = err e
add_entry kid (ok key) (ok rest) = ok ((kid, key) ∷ rest)

-- The loop over the entries of the dict.
unfoldable pub decode_all : Fields → Result Keys
unfolding decode_key
decode_all end = ok []
decode_all (field kid v rest) = add_entry kid (decode_value v) (decode_all rest)

-- `keys[key_id] = …`: a key that is there keeps its place.
unfoldable pub put : String → List ℕ → Keys → Keys
put kid key [] = (kid, key) ∷ []
put kid key ((k, old) ∷ keys) =
    let rest = put kid key keys in if k == kid then (k, key) ∷ keys else (k, old) ∷ rest

abbrev pub Loads : Type 0
Loads = String → Option Json

-- `json.loads(fallback_keys_json).items()`: the parser raises a ValueError.
abbrev pub parsed_keys : Option Json → Result Keys
parsed_keys none = err value_error
parsed_keys (some (dict entries)) = decode_all entries
parsed_keys (some _) = err attribute_error

abbrev pub fallback_keys : Loads → Option String → Result Keys
fallback_keys loads none = ok []
fallback_keys loads (some t) = if t == "" then ok [] else parsed_keys (loads t)

abbrev pub put_decoded : String → Keys → Result (List ℕ) → Result Keys
put_decoded kid keys (err e) = err e
put_decoded kid keys (ok key) = ok (put kid key keys)

abbrev pub add_material : Option String → String → Result Keys → Result Keys
add_material material kid (err e) = err e
add_material none kid (ok keys) = ok keys
add_material (some m) kid (ok keys) =
    if m == "" then ok keys else put_decoded kid keys (decode_key m)

abbrev pub has_id : String → Keys → Bool
has_id kid [] = false
has_id kid ((k, key) ∷ keys) = k == kid || has_id kid keys

abbrev pub create_with : String → Result Keys → Result CredentialCipher
create_with kid (err e) = err e
create_with kid (ok []) = err value_error
create_with kid (ok ((first, key) ∷ keys)) =
    create_cipher ((first, key) ∷ keys) (if has_id kid ((first, key) ∷ keys) then kid else first)

-- `from_env`.
unfoldable pub from_env : Loads → Option String → String → Option String → Result CredentialCipher
unfolding decode_all put create_cipher
from_env loads key_material key_id fallback_keys_json =
    create_with key_id (add_material key_material key_id (fallback_keys loads fallback_keys_json))
