-- ===== src/Persistence/Encryption.antt =====
-- src/pinterest_mcp/persistence/encryption.py: `CredentialCipher`, its envelope and its keys. The
-- AES-GCM of the `cryptography` package and the random bytes are parameters; both the UTF-8 coding of
-- the plain text and the JSON text of the authenticated data are left to the former.
pub mod Base64
pub mod Envelope
pub mod Opened
pub mod Sealed
pub mod Keys
mod Examples
use Prim.Native.Char.{Char, code}
use Prim.Native.String.{char_at}
use pinterest_mcp_docker.Common.{
  ℕ, ◌≡◌, ◌≢◌, String, Bool, true, false, not, ◌&&◌, ◌||◌, Option, none, some, List, [], ◌∷◌, ◌==◌,
  all, length, All, nat_eq, string_eq, if◌then◌else◌,
}
use pinterest_mcp_docker.Persistence.Session.{
  Result, ok, err, Error, decryption, key_not_found, value_error,
}
use pinterest_mcp_docker.Persistence.Cipher.{OwnerId, Cipher}
use pinterest_mcp_docker.Persistence.Encryption.Base64.{
  urlsafe_b64encode, strip_padding, decode, add_text,
}
use pinterest_mcp_docker.Persistence.Encryption.Base64.Decoded.{IsByte}

-- `build_aad`: what a ciphertext is bound to.
pub record Aad : Type 0 where
  pub owner_id : OwnerId
  pub provider_account_id : String
  pub key_id : String
  pub version : ℕ

abbrev pub build_aad : OwnerId → String → String → ℕ → Aad
build_aad owner account key_id version = record {
  owner_id = owner;
  provider_account_id = account;
  key_id = key_id;
  version = version;
}

-- What `AESGCM(key).decrypt(nonce, …).decode("utf-8")` does: the plain text, InvalidTag, or the
-- ValueError of a nonce of a wrong length or of bytes that are no text.
pub data Opening : Type 0 where
  opened : String → Opening
  invalid_tag refused : Opening

-- AES-GCM, by key and nonce, and the random bytes of each draw.
pub record AesGcm : Type 0 where
  pub encrypt : List ℕ → List ℕ → String → Aad → List ℕ
  pub decrypt : List ℕ → List ℕ → List ℕ → Aad → Opening
  pub token_bytes : ℕ → List ℕ

-- What is documented: a ciphertext is made of bytes; it opens under its key, its nonce and its
-- data; and under other data the tag is refused.
pub record IsSound (G : AesGcm) : Type 0 where
  pub nonce_bytes : (n : ℕ) → All IsByte (G.token_bytes n)
  pub nonce_length : (n : ℕ) → length (G.token_bytes n) ≡ 12
  pub cipher_bytes :
      (key nonce : List ℕ) (plain : String) (aad : Aad) → All IsByte (G.encrypt key nonce plain aad)
  pub opens :
      (key nonce : List ℕ) (plain : String) (aad : Aad)
      → length key ≡ 32
      → length nonce ≡ 12
      → G.decrypt key nonce (G.encrypt key nonce plain aad) aad ≡ opened plain
  pub rejects :
      (key nonce : List ℕ) (plain : String) (aad other : Aad)
      → length key ≡ 32
      → length nonce ≡ 12
      → other ≢ aad
      → G.decrypt key nonce (G.encrypt key nonce plain aad) other ≡ invalid_tag

pub record CredentialCipher : Type 0 where
  pub primary_key_id : String
  pub ciphers : List (String × List ℕ)

-- `self._ciphers[kid]`, where it is there.
unfoldable pub key_of : String → List (String × List ℕ) → Option (List ℕ)
key_of kid [] = none
key_of kid ((k, key) ∷ keys) = let rest = key_of kid keys in if k == kid then some key else rest

abbrev pub is_none : {A : Type 0} → Option A → Bool
is_none none = true
is_none (some a) = false

-- `__init__`, with a dict's keys; the first entry with an id is the one.
unfoldable pub create_cipher : List (String × List ℕ) → String → Result CredentialCipher
create_cipher [] primary = err value_error
create_cipher (k ∷ keys) primary =
    if is_none (key_of primary (k ∷ keys))
    then err value_error
    else if all (λ (kid, key). length key == 32) (k ∷ keys)
    then ok (record { primary_key_id = primary; ciphers = k ∷ keys })
    else err value_error

abbrev pub dot : Char
dot = char_at "." 0

-- `f"v1.{kid}.{nonce}.{ciphertext}"`.
unfoldable pub envelope : String → String → String → String
unfolding add_text
envelope kid nonce sealed =
    add_text "v1"
      (String.◌∷◌ dot (add_text kid (String.◌∷◌ dot (add_text nonce (String.◌∷◌ dot sealed)))))

abbrev pub put_char : Char → List String → List String
put_char c [] = String.◌∷◌ c String.[] ∷ []
put_char c (piece ∷ pieces) = String.◌∷◌ c piece ∷ pieces

-- `s.split(".")`.
unfoldable pub split_dots : String → List String
split_dots String.[] = String.[] ∷ []
split_dots (String.◌∷◌ c s) =
    let rest = split_dots s in if code c == b'.' then String.[] ∷ rest else put_char c rest

abbrev pub active_key_id : CredentialCipher → Option String → String
active_key_id C none = C.primary_key_id
active_key_id C (some key_id) = if key_id == "" then C.primary_key_id else key_id

-- `urlsafe_b64encode(…).rstrip("=")`.
abbrev pub encode : List ℕ → String
encode bytes = strip_padding (urlsafe_b64encode bytes)

-- `encrypt`; `n` says which random draw its nonce is.
unfoldable pub encrypt :
    AesGcm → CredentialCipher → ℕ → String → OwnerId → String → Option String → ℕ → Result String
encrypt G C n plain owner account key_id version =
    let kid = active_key_id C key_id in
    let nonce = G.token_bytes n in
    elim (key_of kid C.ciphers) [
      | none ↦ err key_not_found
      | some key ↦ ok (
          envelope kid (encode nonce)
            (encode (G.encrypt key nonce plain (build_aad owner account kid version))))
    ]

abbrev pub text_or_error : Opening → Result String
text_or_error (opened plain) = ok plain
text_or_error invalid_tag = err (
    decryption
      "Decryption failed: authentication tag verification failed. Ciphertext may be tampered or Associated Data does not match.")
text_or_error refused = err value_error

abbrev pub malformed : Result String
malformed = err (decryption "Malformed base64 in ciphertext")

abbrev pub invalid_format : Result String
invalid_format = err (decryption "Invalid ciphertext format")

-- What `decrypt` does with the parts.
unfoldable pub decrypt_parts :
    AesGcm → CredentialCipher → List String → OwnerId → String → ℕ → Result String
decrypt_parts G C (v ∷ kid ∷ b64_nonce ∷ b64_cipher ∷ []) owner account version =
    if not (v == "v1") then invalid_format else elim (key_of kid C.ciphers) [
      | none ↦ err key_not_found
      | some key ↦ elim (decode b64_nonce) [
        | none ↦ malformed
        | some nonce ↦ elim (decode b64_cipher) [
          | none ↦ malformed
          | some sealed ↦
              text_or_error (G.decrypt key nonce sealed (build_aad owner account kid version))
        ]
      ]
    ]
decrypt_parts G C _ owner account version = invalid_format

unfoldable pub decrypt : AesGcm → CredentialCipher → String → OwnerId → String → ℕ → Result String
decrypt G C sealed owner account version =
    decrypt_parts G C (split_dots sealed) owner account version

-- `rotate_key`.
unfoldable pub rotate_key :
    AesGcm → CredentialCipher → ℕ → String → OwnerId → String → String → ℕ → Result String
rotate_key G C n sealed owner account new_key_id version =
    elim (decrypt G C sealed owner account version) [
      | err e ↦ err e
      | ok plain ↦ encrypt G C n plain owner account (some new_key_id) version
    ]

-- The cipher that the repositories use: the primary key and the first schema version.
abbrev pub cipher_of : AesGcm → CredentialCipher → Cipher
cipher_of G C = record {
  primary_key_id = C.primary_key_id;
  encrypt = λ n plain owner account. encrypt G C n plain owner account none 1;
  decrypt = λ sealed owner account. decrypt G C sealed owner account 1;
}
