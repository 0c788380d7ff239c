-- ===== src/Persistence/Encryption/Keys/Reloaded.antt =====
-- What a cipher that is loaded anew by `from_env` of src/pinterest_mcp/persistence/encryption.py reads.
use pinterest_mcp_docker.Common.{
  ℕ, ◌≡◌, ◌≢◌, inl, inr, refl, sym, ap, ◌∙◌, String, true, Option, none, some, List, [], ◌∷◌, ◌==◌,
  nat_eq, string_eq, if◌then◌else◌, arith, Bool-cases,
}
use pinterest_mcp_docker.Persistence.Session.{Result, ok, err, Result-cases}
use pinterest_mcp_docker.Persistence.Json.{text, dict, Fields, end, field, get}
use pinterest_mcp_docker.Persistence.Cipher.{OwnerId}
use pinterest_mcp_docker.Persistence.Encryption.{
  AesGcm, IsSound, text_or_error, CredentialCipher, key_of, create_cipher, encrypt, decrypt,
  active_key_id,
}
use pinterest_mcp_docker.Persistence.Encryption.Envelope.{is_dotless}
use pinterest_mcp_docker.Persistence.Encryption.Opened.{
  created, create_cipher-IsReady, IsReady, decrypt-envelope, encrypt-sealed, sealed_text,
  sealed_bytes,
}
use pinterest_mcp_docker.Persistence.Encryption.Sealed.{ok-injective}
use pinterest_mcp_docker.Persistence.Encryption.Keys.{
  Keys, Loads, decode_key, decode_value, decode_all, add_entry, put, parsed_keys, fallback_keys,
  put_decoded, add_material, has_id, create_with, from_env,
}

key_of-put : (kid : String) (key : List ℕ) (keys : Keys) → key_of kid (put kid key keys) ≡ some key
unfolding key_of put
key_of-put kid key [] = ground arith
key_of-put kid key ((k, old) ∷ keys) = ground (arith, key_of-put kid key keys)

key_of-put_other :
    (kid other : String) (key : List ℕ) (keys : Keys)
    → kid ≢ other
    → key_of kid (put other key keys) ≡ key_of kid keys
unfolding key_of put
key_of-put_other kid other key [] apart = ground arith
key_of-put_other kid other key ((k, old) ∷ keys) apart =
    ground (arith, key_of-put_other kid other key keys apart)

-- An entry that was added stands in front of the rest.
add_entry-inversion :
    (kid : String) (r : Result (List ℕ)) (rest : Result Keys) (keys : Keys)
    → add_entry kid r rest ≡ ok keys
    → (key : List ℕ) × (others : Keys) × (r ≡ ok key)
      × (rest ≡ ok others)
      × (keys ≡ (kid, key) ∷ others)
add_entry-inversion kid (err e) rest keys h = absurd (cc h)
add_entry-inversion kid (ok key) (err e) keys h = absurd (cc h)
add_entry-inversion kid (ok key) (ok others) keys h =
    (key, others, refl, refl, sym (ok-injective h))

-- A key that the dict gives as a text is decoded and held.
decode_all-key_of :
    (entries : Fields) (keys : Keys) (kid m : String)
    → decode_all entries ≡ ok keys
    → get kid entries ≡ text m
    → (key : List ℕ) × (decode_key m ≡ ok key) × (key_of kid keys ≡ some key)
unfolding decode_all get key_of
decode_all-key_of end keys kid m h given = absurd (cc given)
decode_all-key_of (field name v rest) keys kid m h given =
    let (key, others, read, tail, same) =
      add_entry-inversion name (decode_value v) (decode_all rest) keys h in
    elim (Bool-cases (name == kid)) [
      | inl this ↦
          (key, (let e : v ≡ text m = ground arith in sym (ap decode_value e) ∙ read), ground arith)
      | inr other ↦
          let (k, decoded, held) = decode_all-key_of rest others kid m tail (ground arith) in
          (k, decoded, ground arith)
    ]

-- A cipher holds the keys that were collected, and has the configured id as its primary one if
-- there is a key of that id.
create_with-inversion :
    (kid : String) (r : Result Keys) (C : CredentialCipher)
    → create_with kid r ≡ ok C
    → (keys : Keys) × (r ≡ ok keys)
      × (create_cipher keys C.primary_key_id ≡ ok C)
      × (C.ciphers ≡ keys)
      × (has_id kid keys ≡ true → C.primary_key_id ≡ kid)
create_with-inversion kid (err e) C h = absurd (cc h)
create_with-inversion kid (ok []) C h = absurd (cc h)
create_with-inversion kid (ok ((first, key) ∷ keys)) C h =
    let primary = if has_id kid ((first, key) ∷ keys) then kid else first in
    let (found, sizes, same) = created ((first, key) ∷ keys) primary C h in
    let chosen : C.primary_key_id ≡ primary = ap (λ c. c.primary_key_id) same in
    (
      (first, key) ∷ keys,
      refl,
      ap (create_cipher ((first, key) ∷ keys)) chosen ∙ h,
      ap (λ c. c.ciphers) same,
      λ on. chosen ∙ ap (λ b. if b then kid else first) on,
    )

has_id-put : (kid : String) (key : List ℕ) (keys : Keys) → has_id kid (put kid key keys) ≡ true
unfolding put
has_id-put kid key [] = ground arith
has_id-put kid key ((k, old) ∷ keys) = ground (arith, has_id-put kid key keys)

material-put :
    (m kid : String) (r : Result Keys) (keys : Keys)
    → m ≢ ""
    → add_material (some m) kid r ≡ ok keys
    → (key : List ℕ) × (old : Keys) × (r ≡ ok old)
      × (decode_key m ≡ ok key)
      × (keys ≡ put kid key old)
material-put m kid (err e) keys full h = absurd (cc h)
material-put m kid (ok old) keys full h =
    let rest : put_decoded kid old (decode_key m) ≡ ok keys = ground arith in
    elim (Result-cases (decode_key m)) [
      | inl (key, decoded) ↦ (
        key,
        old,
        refl,
        decoded,
        sym (ok-injective (sym (ap (put_decoded kid old) decoded) ∙ rest)),
      )
      | inr (e, failed) ↦ absurd (cc (sym (ap (put_decoded kid old) failed) ∙ rest))
    ]

-- The key material leaves the keys under other ids alone.
material-keeps :
    (material : Option String) (other kid : String) (r : Result Keys) (keys : Keys)
    → kid ≢ other
    → add_material material other r ≡ ok keys
    → (old : Keys) × (r ≡ ok old) × (key_of kid keys ≡ key_of kid old)
material-keeps material other kid (err e) keys apart h = absurd (cc h)
material-keeps none other kid (ok old) keys apart h =
    (old, refl, ap (key_of kid) (sym (ok-injective h)))
material-keeps (some m) other kid (ok old) keys apart h = elim (Bool-cases (m == "")) [
  | inl empty ↦ (old, refl, ap (key_of kid) (let e : keys ≡ old = ground arith in e))
  | inr full ↦
      let unlike : m ≢ "" = ground arith in
      let (key, old', source, decoded, same) = material-put m other (ok old) keys unlike h in
      (old', source, ap (key_of kid) same ∙ key_of-put_other kid other key old' apart)
]

-- A cipher made from key material holds its key under the id, which is the primary one.
from_env-material :
    (loads : Loads) (m kid : String) (fallback : Option String) (C : CredentialCipher)
    → m ≢ ""
    → from_env loads (some m) kid fallback ≡ ok C
    → (key : List ℕ) × (decode_key m ≡ ok key)
      × (key_of kid C.ciphers ≡ some key)
      × (C.primary_key_id ≡ kid)
      × IsReady C
unfolding from_env
from_env-material loads m kid fallback C full h =
    let r = add_material (some m) kid (fallback_keys loads fallback) in
    let (keys, collected, made, held, chosen) = create_with-inversion kid r C h in
    let (key, old, source, decoded, same) =
      material-put m kid (fallback_keys loads fallback) keys full collected in
    (
      key,
      decoded,
      ap (key_of kid) (held ∙ same) ∙ key_of-put kid key old,
      chosen (ap (has_id kid) same ∙ has_id-put kid key old),
      create_cipher-IsReady keys C.primary_key_id C made,
    )

-- A cipher made with fallback keys holds those under other ids than the material's.
from_env-fallback :
    (loads : Loads) (material : Option String) (other t : String) (entries : Fields)
    (kid m : String) (C : CredentialCipher)
    → from_env loads material other (some t) ≡ ok C
    → t ≢ ""
    → loads t ≡ some (dict entries)
    → get kid entries ≡ text m
    → kid ≢ other
    → (key : List ℕ) × (decode_key m ≡ ok key) × (key_of kid C.ciphers ≡ some key)
unfolding from_env
from_env-fallback loads material other t entries kid m C h full parsed given apart =
    let r = add_material material other (fallback_keys loads (some t)) in
    let (keys, collected, made, held, chosen) = create_with-inversion other r C h in
    let (old, fallback, kept) =
      material-keeps material other kid (fallback_keys loads (some t)) keys apart collected in
    let taken : fallback_keys loads (some t) ≡ parsed_keys (loads t) = ground arith in
    let read : decode_all entries ≡ ok old = sym (taken ∙ ap parsed_keys parsed) ∙ fallback in
    let (key, decoded, here) = decode_all-key_of entries old kid m read given in
    (key, decoded, ap (key_of kid) held ∙ kept ∙ here)

-- What was encrypted with key material under an id without a dot is read by a cipher that is
-- configured later with other material, under another id, and with the old material in the fallback
-- keys under the old id, if AES-GCM does what is documented.
pub from_env-decrypt :
    (G : AesGcm) (loads : Loads) (m kid : String) (fallback material : Option String)
    (other t : String) (entries : Fields) (C C' : CredentialCipher) (n : ℕ) (plain : String)
    (owner : OwnerId) (account : String) (version : ℕ) (sealed : String)
    → IsSound G
    → m ≢ ""
    → t ≢ ""
    → from_env loads (some m) kid fallback ≡ ok C
    → encrypt G C n plain owner account none version ≡ ok sealed
    → from_env loads material other (some t) ≡ ok C'
    → loads t ≡ some (dict entries)
    → get kid entries ≡ text m
    → kid ≢ other
    → is_dotless kid ≡ true
    → decrypt G C' sealed owner account version ≡ ok plain
from_env-decrypt G loads m kid fallback material other t entries C C' n plain owner account version
      sealed sound full_m full_t made done made' parsed given apart dotless =
    let (key, decoded, held, primary, ready) =
      from_env-material loads m kid fallback C full_m made in
    let (key', decoded', held') =
      from_env-fallback loads material other t entries kid m C' made' full_t parsed given apart in
    let same : key' ≡ key = ok-injective (sym decoded' ∙ decoded) in
    let active : key_of (active_key_id C none) C.ciphers ≡ some key =
      ap (λ k. key_of k C.ciphers) primary ∙ held in
    let text_ : sealed ≡ sealed_text G sound C ready none key active n plain owner account version =
      ok-injective
        (sym done ∙ encrypt-sealed G sound C ready none key active n plain owner account version) in
    let id = C.primary_key_id in
    let found : key_of id C'.ciphers ≡ some key =
      ap (λ k. key_of k C'.ciphers) primary ∙ held' ∙ ap some same in
    let plain_id : is_dotless id ≡ true = ap is_dotless primary ∙ dotless in
    let bytes = sealed_bytes G sound C ready none key active n plain owner account version in
    ap (λ s. decrypt G C' s owner account version) text_
    ∙ decrypt-envelope G C' id key (G.token_bytes n) bytes owner account version found plain_id
        (sound.nonce_bytes n) (sound.cipher_bytes key (G.token_bytes n) plain _)
    ∙ ap text_or_error (
        sound.opens key (G.token_bytes n) plain _ (ready.sizes id key active)
          (sound.nonce_length n))
