-- ===== src/Persistence/Encryption/Opened.antt =====
-- What `encrypt`, `decrypt` and `rotate_key` of src/pinterest_mcp/persistence/encryption.py are to
-- one another.
use pinterest_mcp_docker.Common.{
  ℕ, ◌≡◌, ◌≢◌, refl, ap, ◌∙◌, String, true, false, Option, none, some, List, [], ◌∷◌, ◌==◌, all,
  length, All, nat_eq, string_eq, arith,
}
use pinterest_mcp_docker.Persistence.Session.{ok}
use pinterest_mcp_docker.Persistence.Cipher.{OwnerId}
use pinterest_mcp_docker.Persistence.Encryption.Base64.{decode}
use pinterest_mcp_docker.Persistence.Encryption.Base64.Decoded.{
  IsByte, decode-encode, encode-dotless,
}
use pinterest_mcp_docker.Persistence.Encryption.Envelope.{is_dotless, split-envelope}
use pinterest_mcp_docker.Persistence.Encryption.{
  Aad, build_aad, invalid_tag, AesGcm, IsSound, CredentialCipher, key_of, create_cipher, envelope,
  split_dots, active_key_id, encode, encrypt, text_or_error, decrypt_parts, decrypt, is_none,
}

-- Every key that is found has 32 bytes.
all-key_of :
    (keys : List (String × List ℕ)) (kid : String) (key : List ℕ)
    → all (λ (k, bytes). length bytes == 32) keys ≡ true
    → key_of kid keys ≡ some key
    → length key ≡ 32
unfolding key_of
all-key_of [] kid key h found = cc found
all-key_of ((k, bytes) ∷ keys) kid key h found = ground (arith, all-key_of keys kid key)

-- A cipher that the constructor made holds its primary key, and keys of 32 bytes only.
pub record IsReady (C : CredentialCipher) : Type 0 where
  pub primary : (key : List ℕ) × (key_of C.primary_key_id C.ciphers ≡ some key)
  pub sizes : (kid : String) (key : List ℕ) → key_of kid C.ciphers ≡ some key → length key ≡ 32

pub created :
    (keys : List (String × List ℕ)) (primary : String) (C : CredentialCipher)
    → create_cipher keys primary ≡ ok C
    → (is_none (key_of primary keys) ≡ false)
      × (all (λ (k, bytes). length bytes == 32) keys ≡ true)
      × (C ≡ record { primary_key_id = primary; ciphers = keys })
unfolding create_cipher
created [] primary C h = cc h
created ((k, bytes) ∷ keys) primary C h = ground arith

there : {A : Type 0} (o : Option A) → is_none o ≡ false → (a : A) × (o ≡ some a)
there none h = cc h
there (some a) h = (a, refl)

pub create_cipher-IsReady :
    (keys : List (String × List ℕ)) (primary : String) (C : CredentialCipher)
    → create_cipher keys primary ≡ ok C
    → IsReady C
create_cipher-IsReady keys primary C h =
    let (found, sizes, same) = created keys primary C h in
    let (key, held) = there (key_of primary keys) found in
    rw same (record { primary = (key, held); sizes = λ kid k f. all-key_of keys kid k sizes f })

module _ (G : AesGcm) (C : CredentialCipher) where
  parts_opened :
      (kid : String) (key nonce sealed : List ℕ) (b64_nonce b64_cipher : String) (owner : OwnerId)
      (account : String) (version : ℕ)
      → key_of kid C.ciphers ≡ some key
      → decode b64_nonce ≡ some nonce
      → decode b64_cipher ≡ some sealed
      → decrypt_parts G C ("v1" ∷ kid ∷ b64_nonce ∷ b64_cipher ∷ []) owner account version
        ≡ text_or_error (G.decrypt key nonce sealed (build_aad owner account kid version))
  unfolding decrypt_parts string_eq
  parts_opened kid key nonce sealed b64_nonce b64_cipher owner account version found n c =
      ground arith

  decrypt-parts :
      (sealed : String) (parts : List String) (owner : OwnerId) (account : String) (version : ℕ)
      → split_dots sealed ≡ parts
      → decrypt G C sealed owner account version ≡ decrypt_parts G C parts owner account version
  unfolding decrypt
  decrypt-parts sealed parts owner account version h =
      ap (λ p. decrypt_parts G C p owner account version) h

  -- What `decrypt` makes of an envelope.
  pub decrypt-envelope :
      (kid : String) (key nonce sealed : List ℕ) (owner : OwnerId) (account : String) (version : ℕ)
      → key_of kid C.ciphers ≡ some key
      → is_dotless kid ≡ true
      → All IsByte nonce
      → All IsByte sealed
      → decrypt G C (envelope kid (encode nonce) (encode sealed)) owner account version
        ≡ text_or_error (G.decrypt key nonce sealed (build_aad owner account kid version))
  decrypt-envelope kid key nonce sealed owner account version found dotless hn hs =
      decrypt-parts _ _ owner account version (
        split-envelope kid (encode nonce) (encode sealed) dotless (encode-dotless nonce hn)
          (encode-dotless sealed hs))
      ∙ parts_opened kid key nonce sealed (encode nonce) (encode sealed) owner account version found
          (decode-encode nonce hn) (decode-encode sealed hs)

different :
    (owner owner' : OwnerId) (account account' kid : String) (version version' : ℕ)
    → ¬ ((owner' ≡ owner) × (account' ≡ account) × (version' ≡ version))
    → build_aad owner' account' kid version' ≢ build_aad owner account kid version
different owner owner' account account' kid version version' other same = other (
  ap (λ (a : Aad). a.owner_id) same,
  ap (λ (a : Aad). a.provider_account_id) same,
  ap (λ (a : Aad). a.version) same,
)

module _ (G : AesGcm) (sound : IsSound G) (C : CredentialCipher) (ready : IsReady C)
    (key_id : Option String) (key : List ℕ)
    (held : key_of (active_key_id C key_id) C.ciphers ≡ some key) where
  module _ (n : ℕ) (plain : String) (owner : OwnerId) (account : String) (version : ℕ) where
    abbrev pub sealed_bytes : List ℕ
    sealed_bytes =
        G.encrypt key (G.token_bytes n) plain
          (build_aad owner account (active_key_id C key_id) version)

    abbrev pub sealed_text : String
    sealed_text = envelope (active_key_id C key_id) (encode (G.token_bytes n)) (encode sealed_bytes)

    pub encrypt-sealed : encrypt G C n plain owner account key_id version ≡ ok sealed_text
    unfolding encrypt
    encrypt-sealed = ground arith

    pub sealed_full : sealed_text ≢ ""
    unfolding envelope
    sealed_full h = cc h

    module _ (dotless : is_dotless (active_key_id C key_id) ≡ true) where
      decrypt-sealed :
          (owner' : OwnerId) (account' : String) (version' : ℕ)
          → decrypt G C sealed_text owner' account' version'
            ≡ text_or_error (
                G.decrypt key
                  (G.token_bytes n)
                  sealed_bytes
                  (build_aad owner' account' (active_key_id C key_id) version'))
      decrypt-sealed owner' account' version' =
          decrypt-envelope G C (active_key_id C key_id) key (G.token_bytes n) sealed_bytes owner'
            account' version' held dotless (sound.nonce_bytes n)
            (sound.cipher_bytes key (G.token_bytes n) plain _)

      pub reads_back : decrypt G C sealed_text owner account version ≡ ok plain
      reads_back =
          decrypt-sealed owner account version
          ∙ ap text_or_error (
              sound.opens key (G.token_bytes n) plain _ (ready.sizes _ key held)
                (sound.nonce_length n))

      pub rejects_other :
          (owner' : OwnerId) (account' : String) (version' : ℕ)
          → ¬ ((owner' ≡ owner) × (account' ≡ account) × (version' ≡ version))
          → decrypt G C sealed_text owner' account' version' ≡ text_or_error invalid_tag
      rejects_other owner' account' version' other =
          decrypt-sealed owner' account' version'
          ∙ ap text_or_error (
              sound.rejects key (G.token_bytes n) plain _ _ (ready.sizes _ key held)
                (sound.nonce_length n)
                (different owner owner' account account' (active_key_id C key_id) version version'
                  other))
