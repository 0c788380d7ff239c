-- ===== src/Persistence/Encryption/Examples.antt =====
-- The theorems on src/pinterest_mcp/persistence/encryption.py at concrete keys, over a cipher that
-- does what is asked of AES-GCM.
pub mod Toy
use Prim.Native.Char.{code}
use pinterest_mcp_docker.Common.{
  true, false, ℕ, zero, suc, ◌≡◌, ◌≢◌, refl, String, Option, none, some, List, [], ◌∷◌, ◌==◌,
  nat_eq, string_eq,
}
use pinterest_mcp_docker.Persistence.Session.{Result, ok}
use pinterest_mcp_docker.Persistence.Cipher.{OwnerId, uuid, IsLawful}
use pinterest_mcp_docker.Persistence.Encryption.Base64.{all_chars}
use pinterest_mcp_docker.Persistence.Encryption.Envelope.{is_dotless}
use pinterest_mcp_docker.Persistence.Encryption.Opened.{create_cipher-IsReady, reads_back}
use pinterest_mcp_docker.Persistence.Encryption.Sealed.{
  cipher_of-IsLawful, decrypt-other, rotate_key-decrypt, decrypt-dotted,
}
use pinterest_mcp_docker.Persistence.Encryption.{
  CredentialCipher, key_of, create_cipher, envelope, split_dots, encode, encrypt, text_or_error,
  invalid_format, decrypt, rotate_key, cipher_of, invalid_tag, build_aad,
}
use pinterest_mcp_docker.Persistence.Encryption.Examples.Toy.{toy, toy-IsSound}

abbrev repeat : ℕ → ℕ → List ℕ
repeat zero b = []
repeat (suc n) b = b ∷ repeat n b

abbrev keys : List (String × List ℕ)
keys = ("primary", repeat 32 1) ∷ ("k2", repeat 32 2) ∷ ("a.b", repeat 32 3) ∷ []

abbrev cipher : CredentialCipher
cipher = record { primary_key_id = "primary"; ciphers = keys }

made : create_cipher keys "primary" ≡ ok cipher
unfolding create_cipher key_of string_eq nat_eq
made = refl

primary_dotless : is_dotless "primary" ≡ true
unfolding all_chars nat_eq
primary_dotless = refl

cipher_of-IsLawful_example : IsLawful (cipher_of toy cipher)
cipher_of-IsLawful_example =
    cipher_of-IsLawful toy keys "primary" cipher toy-IsSound made primary_dotless

abbrev sealed : String
sealed = envelope "primary" (encode (toy.token_bytes 7)) (
    encode
      (toy.encrypt (repeat 32 1) (toy.token_bytes 7) "t" (build_aad (uuid 1) "acc" "primary" 1)))

seals : encrypt toy cipher 7 "t" (uuid 1) "acc" none 1 ≡ ok sealed
unfolding encrypt key_of string_eq
seals = refl

others : ¬ ((uuid 2 ≡ uuid 1) × (◌≡◌ {A = String} "acc" "acc") × (◌≡◌ {A = ℕ} 1 1))
others (owner, _, _) = cc owner

decrypt-other_example : decrypt toy cipher sealed (uuid 2) "acc" 1 ≡ text_or_error invalid_tag
decrypt-other_example =
    decrypt-other toy keys "primary" cipher 7 "t" (uuid 1) (uuid 2) "acc" "acc" none 1 1 sealed
      toy-IsSound made primary_dotless seals others

primary_held : key_of "primary" cipher.ciphers ≡ some (repeat 32 1)
unfolding key_of string_eq
primary_held = refl

opens_sealed : decrypt toy cipher sealed (uuid 1) "acc" 1 ≡ ok "t"
opens_sealed =
    reads_back toy toy-IsSound cipher (create_cipher-IsReady keys "primary" cipher made) none
      (repeat 32 1) primary_held 7 "t" (uuid 1) "acc" 1 primary_dotless

second_held : key_of "k2" cipher.ciphers ≡ some (repeat 32 2)
unfolding key_of string_eq
second_held = refl

second_dotless : is_dotless "k2" ≡ true
unfolding all_chars nat_eq
second_dotless = refl

dotted_held : key_of "a.b" cipher.ciphers ≡ some (repeat 32 3)
unfolding key_of string_eq
dotted_held = refl

dotted : is_dotless "a.b" ≡ false
unfolding all_chars nat_eq
dotted = refl

rotate_key-decrypt_example :
    (rotated : String) × (rotate_key toy cipher 8 sealed (uuid 1) "acc" "k2" 1 ≡ ok rotated)
    × (decrypt toy cipher rotated (uuid 1) "acc" 1 ≡ ok "t")
    × (nonce : String) × (bytes : String) × (split_dots rotated ≡ "v1" ∷ "k2" ∷ nonce ∷ bytes ∷ [])
rotate_key-decrypt_example =
    rotate_key-decrypt toy keys "primary" cipher 8 "t" sealed (uuid 1) "acc" "k2" (repeat 32 2) 1
      toy-IsSound made opens_sealed second_held (λ e. cc e) second_dotless

decrypt-dotted_example :
    (text : String) × (encrypt toy cipher 7 "t" (uuid 1) "acc" (some "a.b") 1 ≡ ok text)
    × (decrypt toy cipher text (uuid 1) "acc" 1 ≡ invalid_format)
unfolding string_eq
decrypt-dotted_example =
    decrypt-dotted toy cipher cipher 7 "t" (uuid 1) (uuid 1) "acc" "acc" (some "a.b") 1 1
      (repeat 32 3) dotted_held dotted
