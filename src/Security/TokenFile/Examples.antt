-- ===== src/Security/TokenFile/Examples.antt =====
-- Runs of `save_atomic_token_file` of src/pinterest_mcp/security.py.
use pinterest_mcp_docker.Common.{
  ◌≡◌, refl, true, false, none, some, [], ◌∷◌, ◌==◌, All, codes, string_eq, if◌then◌else◌,
}
use pinterest_mcp_docker.Security.TokenFile.{File, Files, Io, tmp_path, save_atomic_token_file}
use pinterest_mcp_docker.Persistence.Encryption.Base64.{add_text}
use pinterest_mcp_docker.Security.TokenFile.Atomic.{
  IsOldOrNew, Ended, save_atomic_token_file-IsOldOrNew,
}

abbrev old_file : File
old_file = record { content = codes "old"; mode = 384 }

abbrev disk : Files
disk path = if path == "/t/token.json" then some old_file else none

abbrev smooth : Io
smooth = record {
  makes_parent = true;
  opens = true;
  chunks = codes "{" ∷ codes "new" ∷ codes "}" ∷ [];
  fails = false;
  unlinks = true;
  replaces = true;
}

temporary_name : tmp_path "/t/" "token.json" "7" ≡ "/t/.token.json.tmp.7"
unfolding tmp_path
temporary_name = refl

saves :
    (save_atomic_token_file smooth "/t/token.json" "/t/.token.json.tmp.7" disk).final
      "/t/token.json"
    ≡ some (record { content = codes "{new}"; mode = 384 })
unfolding save_atomic_token_file string_eq
saves = refl

abbrev broken : Io
broken = record smooth { fails = true }

keeps :
    (save_atomic_token_file broken "/t/token.json" "/t/.token.json.tmp.7" disk).final
      "/t/token.json"
    ≡ some old_file
unfolding save_atomic_token_file string_eq
keeps = refl

save_atomic_token_file-IsOldOrNew_example :
    (let token = add_text "/t/" "token.json" in
      let tmp = tmp_path "/t/" "token.json" "7" in
      let run = save_atomic_token_file smooth token tmp disk in
      All (IsOldOrNew smooth token tmp disk) run.states × Ended smooth token tmp disk run)
save_atomic_token_file-IsOldOrNew_example =
    save_atomic_token_file-IsOldOrNew smooth "/t/" "token.json" "7" disk
