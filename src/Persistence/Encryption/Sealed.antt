-- ===== src/Persistence/Encryption/Sealed.antt =====
-- The promises of the `CredentialCipher` of src/pinterest_mcp/persistence/encryption.py.
use pinterest_mcp_docker.Common.{
  ℕ, ◌≤◌, ◌≡◌, ◌≢◌, refl, ap, sym, ◌∙◌, String, true, false, Option, none, some, List, [], ◌∷◌,
  length, nat_eq, string_eq, arith, Option-cases, inl, inr,
}
use pinterest_mcp_docker.Persistence.Session.{ok}
use pinterest_mcp_docker.Persistence.Cipher.{OwnerId, IsLawful}
use pinterest_mcp_docker.Persistence.Encryption.Base64.Decoded.{encode-dotless}
use pinterest_mcp_docker.Persistence.Encryption.Envelope.{
  is_dotless, split-envelope, split-dotted_envelope,
}
use pinterest_mcp_docker.Persistence.Encryption.Opened.{
  create_cipher-IsReady, encrypt-sealed, sealed_full, reads_back, rejects_other, sealed_bytes,
  sealed_text,
}
use pinterest_mcp_docker.Persistence.Encryption.{
  AesGcm, IsSound, CredentialCipher, key_of, create_cipher, envelope, split_dots, active_key_id,
  encode, encrypt, text_or_error, invalid_format, decrypt_parts, decrypt, rotate_key, cipher_of,
  invalid_tag, build_aad,
}

-- A `CredentialCipher` that its constructor made is what the repositories rely on, if AES-GCM does
-- what is documented and the primary key id has no dot: every text can be encrypted under the
-- primary key, and is read back under the same owner and account.
pub cipher_of-IsLawful :
    (G : AesGcm) (keys : List (String × List ℕ)) (primary : String) (C : CredentialCipher)
    → IsSound G
    → create_cipher keys primary ≡ ok C
    → is_dotless C.primary_key_id ≡ true
    → IsLawful (cipher_of G C)
cipher_of-IsLawful G keys primary C sound made dotless =
    let ready = create_cipher-IsReady keys primary C made in
    let (key, held) = ready.primary in
    record {
      decrypt-encrypt = λ n plain owner account. (
        sealed_text G sound C ready none key held n plain owner account 1,
        encrypt-sealed G sound C ready none key held n plain owner account 1,
        sealed_full G sound C ready none key held n plain owner account 1,
        reads_back G sound C ready none key held n plain owner account 1 dotless,
      );
    }

pub encrypted :
    (G : AesGcm) (C : CredentialCipher) (n : ℕ) (plain : String) (owner : OwnerId)
    (account : String) (key_id : Option String) (version : ℕ) (sealed : String)
    → encrypt G C n plain owner account key_id version ≡ ok sealed
    → (key : List ℕ) × (key_of (active_key_id C key_id) C.ciphers ≡ some key)
unfolding encrypt
encrypted G C n plain owner account key_id version sealed h =
    elim (Option-cases (key_of (active_key_id C key_id) C.ciphers)) [
      | inl missing ↦ ground arith
      | inr found ↦ found
    ]

pub ok-injective : {A : Type 0} {a b : A} → ok a ≡ ok b → a ≡ b
ok-injective h = cc h

-- A credential that is sealed for an owner, an account and a schema version, under a key id without
-- a dot, is refused under any others, if AES-GCM does what is documented: `decrypt` raises the error
-- of a wrong tag.
pub decrypt-other :
    (G : AesGcm) (keys : List (String × List ℕ)) (primary : String) (C : CredentialCipher) (n : ℕ)
    (plain : String) (owner owner' : OwnerId) (account account' : String) (key_id : Option String)
    (version version' : ℕ) (sealed : String)
    → IsSound G
    → create_cipher keys primary ≡ ok C
    → is_dotless (active_key_id C key_id) ≡ true
    → encrypt G C n plain owner account key_id version ≡ ok sealed
    → ¬ ((owner' ≡ owner) × (account' ≡ account) × (version' ≡ version))
    → decrypt G C sealed owner' account' version' ≡ text_or_error invalid_tag
decrypt-other G keys primary C n plain owner owner' account account' key_id version version' sealed
      sound made dotless done other =
    let ready = create_cipher-IsReady keys primary C made in
    let (key, held) = encrypted G C n plain owner account key_id version sealed done in
    let same : sealed_text G sound C ready key_id key held n plain owner account version ≡ sealed =
      ok-injective (
        sym (encrypt-sealed G sound C ready key_id key held n plain owner account version)
        ∙ done) in
    rw (← same) (
      rejects_other G sound C ready key_id key held n plain owner account version dotless owner'
        account' version' other)

active-given : (C : CredentialCipher) (kid : String) → kid ≢ "" → active_key_id C (some kid) ≡ kid
active-given C kid full = ground arith

rotated :
    (G : AesGcm) (C : CredentialCipher) (n : ℕ) (sealed : String) (owner : OwnerId)
    (account new_key_id : String) (version : ℕ) (plain : String)
    → decrypt G C sealed owner account version ≡ ok plain
    → rotate_key G C n sealed owner account new_key_id version
      ≡ encrypt G C n plain owner account (some new_key_id) version
unfolding rotate_key
rotated G C n sealed owner account new_key_id version plain opens = ground arith

-- After a rotation the credential is sealed under the new key and reads as before, if AES-GCM does
-- what is documented and the new key id is one of the cipher's, is not empty and has no dot.
pub rotate_key-decrypt :
    (G : AesGcm) (keys : List (String × List ℕ)) (primary : String) (C : CredentialCipher) (n : ℕ)
    (plain sealed : String) (owner : OwnerId) (account new_key_id : String) (key : List ℕ)
    (version : ℕ)
    → IsSound G
    → create_cipher keys primary ≡ ok C
    → decrypt G C sealed owner account version ≡ ok plain
    → key_of new_key_id C.ciphers ≡ some key
    → new_key_id ≢ ""
    → is_dotless new_key_id ≡ true
    → (rotated : String) × (rotate_key G C n sealed owner account new_key_id version ≡ ok rotated)
      × (decrypt G C rotated owner account version ≡ ok plain)
      × (nonce : String) × (bytes : String) × (split_dots rotated
          ≡ "v1" ∷ new_key_id ∷ nonce ∷ bytes ∷ [])
rotate_key-decrypt G keys primary C n plain sealed owner account new_key_id key version sound made
      opens held full dotless =
    let ready = create_cipher-IsReady keys primary C made in
    let active = active-given C new_key_id full in
    let held' : key_of (active_key_id C (some new_key_id)) C.ciphers ≡ some key = rw active held in
    let dotless' : is_dotless (active_key_id C (some new_key_id)) ≡ true = rw active dotless in
    let bytes =
      sealed_bytes G sound C ready (some new_key_id) key held' n plain owner account version in
    (
      sealed_text G sound C ready (some new_key_id) key held' n plain owner account version,
      rotated G C n sealed owner account new_key_id version plain opens
          ∙ encrypt-sealed G sound C ready (some new_key_id) key held' n plain owner account
              version,
      reads_back G sound C ready (some new_key_id) key held' n plain owner account version dotless',
      encode (G.token_bytes n),
      encode bytes,
      split-envelope (active_key_id C (some new_key_id)) (encode (G.token_bytes n)) (encode bytes)
            dotless' (encode-dotless (G.token_bytes n) (sound.nonce_bytes n))
            (encode-dotless bytes (sound.cipher_bytes key (G.token_bytes n) plain _))
          ∙ ap (λ kid. "v1" ∷ kid ∷ encode (G.token_bytes n) ∷ encode bytes ∷ []) active,
    )

encrypted_as :
    (G : AesGcm) (C : CredentialCipher) (n : ℕ) (plain : String) (owner : OwnerId)
    (account : String) (key_id : Option String) (version : ℕ) (key : List ℕ)
    → key_of (active_key_id C key_id) C.ciphers ≡ some key
    → encrypt G C n plain owner account key_id version
      ≡ ok (
          envelope (active_key_id C key_id) (encode (G.token_bytes n)) (
            encode (
              G.encrypt key
                (G.token_bytes n)
                plain
                (build_aad owner account (active_key_id C key_id) version))))
unfolding encrypt
encrypted_as G C n plain owner account key_id version key held = ground arith

many_parts :
    (G : AesGcm) (D : CredentialCipher) (parts : List String) (owner : OwnerId) (account : String)
    (version : ℕ)
    → 5 ≤ length parts
    → decrypt_parts G D parts owner account version ≡ invalid_format
unfolding decrypt_parts
many_parts G D [] owner account version h = refl
many_parts G D (a ∷ []) owner account version h = refl
many_parts G D (a ∷ b ∷ []) owner account version h = refl
many_parts G D (a ∷ b ∷ c ∷ []) owner account version h = refl
many_parts G D (a ∷ b ∷ c ∷ d ∷ []) owner account version h = absurd (omega arith)
many_parts G D (a ∷ b ∷ c ∷ d ∷ e ∷ parts) owner account version h = refl

decrypt-many :
    (G : AesGcm) (D : CredentialCipher) (sealed : String) (owner : OwnerId) (account : String)
    (version : ℕ)
    → 5 ≤ length (split_dots sealed)
    → decrypt G D sealed owner account version ≡ invalid_format
unfolding decrypt
decrypt-many G D sealed owner account version h =
    many_parts G D (split_dots sealed) owner account version h

-- A key id with a dot can be configured and encrypts, and no cipher decrypts the result: under any
-- owner, account and version `decrypt` raises that the format is invalid.
pub decrypt-dotted :
    (G : AesGcm) (C D : CredentialCipher) (n : ℕ) (plain : String) (owner owner' : OwnerId)
    (account account' : String) (key_id : Option String) (version version' : ℕ) (key : List ℕ)
    → key_of (active_key_id C key_id) C.ciphers ≡ some key
    → is_dotless (active_key_id C key_id) ≡ false
    → (sealed : String) × (encrypt G C n plain owner account key_id version ≡ ok sealed)
      × (decrypt G D sealed owner' account' version' ≡ invalid_format)
decrypt-dotted G C D n plain owner owner' account account' key_id version version' key held dotted =
    let bytes =
      G.encrypt key (G.token_bytes n) plain
        (build_aad owner account (active_key_id C key_id) version) in
    let text = envelope (active_key_id C key_id) (encode (G.token_bytes n)) (encode bytes) in
    (
      text,
      encrypted_as G C n plain owner account key_id version key held,
      decrypt-many G D text owner' account' version' (
          split-dotted_envelope (active_key_id C key_id) (encode (G.token_bytes n)) (encode bytes)
            dotted),
    )
