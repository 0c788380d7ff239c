-- ===== src/Persistence/Encryption/Keys/Examples.antt =====
-- Keys of src/pinterest_mcp/persistence/encryption.py from concrete settings.
use pinterest_mcp_docker.Common.{
  true, ℕ, zero, suc, ◌≡◌, refl, String, none, some, List, [], ◌∷◌, nat_eq, string_eq,
}
use pinterest_mcp_docker.Persistence.Session.{ok, err, value_error}
use pinterest_mcp_docker.Persistence.Json.{text, dict, Fields, end, field, get}
use pinterest_mcp_docker.Persistence.Cipher.{uuid}
use pinterest_mcp_docker.Persistence.Encryption.{
  CredentialCipher, key_of, create_cipher, envelope, encode, encrypt, decrypt, build_aad,
}
use pinterest_mcp_docker.Persistence.Encryption.Base64.{all_chars, value}
use pinterest_mcp_docker.Persistence.Encryption.Envelope.{is_dotless}
use pinterest_mcp_docker.Persistence.Encryption.Examples.Toy.{toy, toy-IsSound}
use pinterest_mcp_docker.Persistence.Encryption.Keys.{Loads, decode_key, from_env}
use pinterest_mcp_docker.Persistence.Encryption.Keys.Reloaded.{from_env-decrypt}

abbrev repeat : ℕ → ℕ → List ℕ
repeat zero b = []
repeat (suc n) b = b ∷ repeat n b

abbrev old_material : String
old_material = "11111111111111111111111111111111"

abbrev new_material : String
new_material = " 0202020202020202020202020202020202020202020202020202020202020202\n"

raw_old : decode_key old_material ≡ ok (repeat 32 49)
unfolding decode_key string_eq nat_eq all_chars value
raw_old = refl

hex_new : decode_key new_material ≡ ok (repeat 32 2)
unfolding decode_key string_eq nat_eq all_chars value
hex_new = refl

base64_key : decode_key "AwMDAwMDAwMDAwMDAwMDAwMDAwMDAwMDAwMDAwMDAwM=" ≡ ok (repeat 32 3)
unfolding decode_key string_eq nat_eq all_chars value
base64_key = refl

short_key : decode_key "secret" ≡ err value_error
unfolding decode_key string_eq nat_eq all_chars value
short_key = refl

abbrev entries : Fields
entries = field "primary" (text old_material) end

abbrev loads : Loads
loads t = some (dict entries)

abbrev before : CredentialCipher
before = record { primary_key_id = "primary"; ciphers = ("primary", repeat 32 49) ∷ [] }

abbrev later : CredentialCipher
later = record {
  primary_key_id = "k2";
  ciphers = ("primary", repeat 32 49) ∷ ("k2", repeat 32 2) ∷ [];
}

made : from_env loads (some old_material) "primary" none ≡ ok before
unfolding from_env create_cipher key_of decode_key string_eq nat_eq all_chars value
made = refl

remade : from_env loads (some new_material) "k2" (some "{…}") ≡ ok later
unfolding from_env create_cipher key_of decode_key string_eq nat_eq all_chars value
remade = refl

abbrev sealed : String
sealed = envelope "primary" (encode (toy.token_bytes 7)) (
    encode
      (toy.encrypt (repeat 32 49) (toy.token_bytes 7) "t" (build_aad (uuid 1) "acc" "primary" 1)))

seals : encrypt toy before 7 "t" (uuid 1) "acc" none 1 ≡ ok sealed
unfolding encrypt key_of string_eq
seals = refl

primary_dotless : is_dotless "primary" ≡ true
unfolding all_chars nat_eq
primary_dotless = refl

given : get "primary" entries ≡ text old_material
unfolding get string_eq
given = refl

from_env-decrypt_example : decrypt toy later sealed (uuid 1) "acc" 1 ≡ ok "t"
from_env-decrypt_example =
    from_env-decrypt toy loads old_material "primary" none (some new_material) "k2" "{…}" entries
      before later 7 "t" (uuid 1) "acc" 1 sealed toy-IsSound (λ e. cc e) (λ e. cc e) made seals
      remade refl given (λ e. cc e) primary_dotless
