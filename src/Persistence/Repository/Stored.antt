-- ===== src/Persistence/Repository/Stored.antt =====
-- ConnectionRepository (src/pinterest_mcp/persistence/repository.py): what is stored is what is
-- read back, and what a disconnect leaves.
use pinterest_mcp_docker.Common.{
  ℕ, suc, ◌≡◌, refl, sym, ap, ◌∙◌, ◌≢◌, inl, inr, String, true, Option, none, some, ◌==◌, string_eq,
  nat_eq, ==_self, if◌then◌else◌, arith, Option-cases, Bool-cases,
}
use pinterest_mcp_docker.Common.Rows.{
  select, modify_row, select-modify_row_self, select-append, select_sound,
}
use pinterest_mcp_docker.Persistence.Models.{
  PinterestConnection, ConnectionStatus, Store, connection_status_eq,
}
use pinterest_mcp_docker.Persistence.Cipher.{Cipher, IsLawful, uuid}
use pinterest_mcp_docker.Persistence.Session.{
  ok, err, continue-eq-ok, pure, inactive_connection, foreign_account, owned_by, add_connection,
}
use pinterest_mcp_docker.Persistence.Session.Inserts.{add_connection-eq-ok}
use pinterest_mcp_docker.Persistence.Repository.{
  Credentials, Account, reconnected, initial, revoked, encrypt_some, encrypt_pair, decrypt_some,
  get_decrypted_tokens, reconnect_connection, save_initial_connection, disconnect_connection,
}

-- An empty refresh token is stored as none.
abbrev pub kept : Option String → Option String
kept none = none
kept (some t) = if t == "" then none else some t

module _ (C : Cipher) (L : IsLawful C) where
  pub encrypt_some_lem :
      (token : Option String) (owner : ℕ) (account : String) (s : Store)
      → (sealed : Option String) × (n : ℕ) × (encrypt_some C token (uuid owner) account s
          ≡ (ok sealed, record s { draws = n }))
        × ((s' : Store) → decrypt_some C sealed (uuid owner) account s' ≡ (ok (kept token), s'))
  unfolding encrypt_some decrypt_some
  encrypt_some_lem none owner account s = (none, s.draws, refl, λ s'. refl)
  encrypt_some_lem (some token) owner account s = elim (Bool-cases (token == "")) [
    | inl e ↦ (none, s.draws, ground arith, λ s'. ground arith)
    | inr d ↦
        let (sealed, enc, full, dec) = L.decrypt-encrypt s.draws token (uuid owner) account in
        (some sealed, suc s.draws, ground arith, λ s'. ground arith)
  ]

  pub encrypt_pair_lem :
      (t : Credentials) (owner : ℕ) (account : String) (s : Store)
      → (access : String) × (refresh : Option String) × (n : ℕ) × (encrypt_pair C t owner account s
          ≡ (ok (access, refresh), record s { draws = n }))
        × (C.decrypt access (uuid owner) account ≡ ok t.access_token)
        × ((s' : Store)
            → decrypt_some C refresh (uuid owner) account s' ≡ (ok (kept t.refresh_token), s'))
  unfolding encrypt_pair
  encrypt_pair_lem t owner account s =
      let (access, enc, full, dec) =
        L.decrypt-encrypt s.draws t.access_token (uuid owner) account in
      let s1 : Store = record s { draws = suc s.draws } in
      let (refresh, n, enc', dec') = encrypt_some_lem t.refresh_token owner account s1 in
      (access, refresh, n, rw enc (rw enc' refl), dec, dec')

  -- An active connection whose tokens were sealed by `encrypt_pair` gives them back.
  pub get_decrypted_tokens_lem :
      (owner : ℕ) (c : PinterestConnection) (s : Store) (access : String) (refresh : Option String)
      → select (owned_by owner) s.connections ≡ some c
      → c.status ≡ ConnectionStatus.active
      → C.decrypt c.encrypted_access_token (uuid owner) c.provider_account_id ≡ ok access
      → decrypt_some C c.encrypted_refresh_token (uuid owner) c.provider_account_id s
        ≡ (ok refresh, s)
      → get_decrypted_tokens C owner s ≡ (ok (access, refresh), s)
  unfolding get_decrypted_tokens connection_status_eq
  get_decrypted_tokens_lem owner c s access refresh found live opens opens' =
      rw found (rw live (rw opens (rw opens' refl)))

  -- The access and refresh ciphertexts that a reconnect of `c` stores.
  reconnect_connection_lem :
      (owner : ℕ) (account : String) (t : Credentials) (a : Account) (c : PinterestConnection)
      (s : Store)
      → select (owned_by owner) s.connections ≡ some c
      → c.provider_account_id ≡ account
      → (access : String) × (refresh : Option String) × (n : ℕ) × (reconnect_connection C owner
            account t a s
          ≡ (
            ok (reconnected c access refresh t a),
            record s {
              connections =
                  modify_row (owned_by owner) (λ d. reconnected d access refresh t a) s.connections;
              draws = n;
            },
          ))
        × (C.decrypt access (uuid owner) account ≡ ok t.access_token)
        × ((s' : Store)
            → decrypt_some C refresh (uuid owner) account s' ≡ (ok (kept t.refresh_token), s'))
  unfolding reconnect_connection
  reconnect_connection_lem owner account t a c s found same =
      let (access, refresh, n, enc, dec, dec') = encrypt_pair_lem t owner account s in
      (access, refresh, n, rw found (rw same (rw ==_self (rw enc refl))), dec, dec')

  -- After a reconnect of an owner's own account, the owner's tokens are the new ones, whatever the
  -- status was before. An empty refresh token is read back as none.
  pub get_decrypted_tokens-reconnect :
      (owner : ℕ) (account : String) (t : Credentials) (a : Account) (c : PinterestConnection)
      (s : Store)
      → select (owned_by owner) s.connections ≡ some c
      → c.provider_account_id ≡ account
      → let s' = (reconnect_connection C owner account t a s).1 in
        get_decrypted_tokens C owner s' ≡ (ok (t.access_token, kept t.refresh_token), s')
  get_decrypted_tokens-reconnect owner account t a c s found same =
      let (access, refresh, n, run, dec, dec') =
        reconnect_connection_lem owner account t a c s found same in
      let owned : (c.owner_id == owner) ≡ true =
        select_sound (owned_by owner) s.connections c found in
      rw run (
        get_decrypted_tokens_lem owner (reconnected c access refresh t a) _ t.access_token
          (kept t.refresh_token)
          (select-modify_row_self (owned_by owner) _ s.connections c found owned) refl (rw same dec)
          (rw same (dec' _)))

  pub save-existing :
      (uuid4 : ℕ → ℕ) (owner : ℕ) (account : String) (t : Credentials) (a : Account)
      (c : PinterestConnection) (s : Store)
      → select (owned_by owner) s.connections ≡ some c
      → c.provider_account_id ≡ account
      → save_initial_connection C uuid4 owner account t a s
        ≡ reconnect_connection C owner account t a s
  unfolding save_initial_connection
  save-existing uuid4 owner account t a c s found same = rw found (rw same (rw ==_self refl))

  pub save-foreign :
      (uuid4 : ℕ → ℕ) (owner : ℕ) (account : String) (t : Credentials) (a : Account)
      (c : PinterestConnection) (s : Store)
      → select (owned_by owner) s.connections ≡ some c
      → c.provider_account_id ≢ account
      → save_initial_connection C uuid4 owner account t a s ≡ (err foreign_account, s)
  unfolding save_initial_connection
  save-foreign uuid4 owner account t a c s found other = ground arith

  -- A new connection of an owner that has none.
  new_connection :
      (uuid4 : ℕ → ℕ) (owner : ℕ) (account : String) (t : Credentials) (a : Account) (s s' : Store)
      (conn : PinterestConnection)
      → select (owned_by owner) s.connections ≡ none
      → save_initial_connection C uuid4 owner account t a s ≡ (ok conn, s')
      → get_decrypted_tokens C owner s' ≡ (ok (t.access_token, kept t.refresh_token), s')
  unfolding save_initial_connection
  new_connection uuid4 owner account t a s s' conn absent ran =
      let (access, refresh, n, enc, dec, dec') = encrypt_pair_lem t owner account s in
      let c : PinterestConnection =
        initial uuid4 C.primary_key_id n owner account access refresh t a in
      let s1 : Store = record s { draws = suc n } in
      let ran' = rw (enc) at (rw (absent, save_initial_connection) at ran) in
      let (_, t1, added, last) = continue-eq-ok (add_connection c s1) (λ _. pure c) conn s' ran' in
      let stored = (add_connection-eq-ok c s1 t1 added).0 in
      rw (← ap (λ r. r.1) last) (
        get_decrypted_tokens_lem owner c t1 t.access_token (kept t.refresh_token)
          (rw stored (rw select-append (rw absent (rw ==_self refl)))) refl dec (dec' t1))

  -- After a save that returns, whether it created the connection or reconnected it, the owner's
  -- tokens are the saved ones. An empty refresh token is read back as none.
  pub get_decrypted_tokens-save :
      (uuid4 : ℕ → ℕ) (owner : ℕ) (account : String) (t : Credentials) (a : Account) (s s' : Store)
      (conn : PinterestConnection)
      → save_initial_connection C uuid4 owner account t a s ≡ (ok conn, s')
      → get_decrypted_tokens C owner s' ≡ (ok (t.access_token, kept t.refresh_token), s')
  get_decrypted_tokens-save uuid4 owner account t a s s' conn ran =
      elim (Option-cases (select (owned_by owner) s.connections)) [
        | inl absent ↦ new_connection uuid4 owner account t a s s' conn absent ran
        | inr (c, found) ↦ elim (string_eq.dec c.provider_account_id account) [
          | yes same ↦
              rw (ap (λ r. r.1) (sym (save-existing uuid4 owner account t a c s found same) ∙ ran))
                at (get_decrypted_tokens-reconnect owner account t a c s found same)
          | no other ↦ cc (save-foreign uuid4 owner account t a c s found other)
        ]
      ]

  -- After the disconnection of an owner that has a connection, reading the owner's tokens raises.
  pub get_decrypted_tokens-disconnect :
      (owner : ℕ) (c : PinterestConnection) (s : Store)
      → select (owned_by owner) s.connections ≡ some c
      → let s' = (disconnect_connection owner s).1 in
        get_decrypted_tokens C owner s' ≡ (err (inactive_connection "Connection is not active"), s')
  unfolding disconnect_connection get_decrypted_tokens connection_status_eq
  get_decrypted_tokens-disconnect owner c s found =
      let owned : (c.owner_id == owner) ≡ true =
        select_sound (owned_by owner) s.connections c found in
      let there : select (owned_by owner) (modify_row (owned_by owner) revoked s.connections)
          ≡ some (revoked c) =
        select-modify_row_self (owned_by owner) revoked s.connections c found owned in
      rw found (rw there refl)
