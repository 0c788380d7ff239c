-- ===== src/Security/Local/Inside.antt =====
-- Which local images pass the check of src/pinterest_mcp/security.py.
use pinterest_mcp_docker.Common.{
  ℕ, ◌≤◌, ◌≡◌, refl, String, true, some, List, [], ◌∷◌, ◌++◌, string_eq, arith, Option-cases,
  Bool-cases, inl, inr,
}
use pinterest_mcp_docker.Security.{sniff_image_format}
use pinterest_mcp_docker.Security.Local.{
  Files, is_relative_to, allowed_dir_resolved, check_file, resolve_local_image_path,
}

is_relative_to-append :
    (path dir : List String)
    → is_relative_to path dir ≡ true
    → (rest : List String) × (path ≡ dir ++ rest)
unfolding is_relative_to
is_relative_to-append path [] h = (path, refl)
is_relative_to-append [] (d ∷ ds) h = cc h
is_relative_to-append (p ∷ ps) (d ∷ ds) h = elim (Bool-cases (is_relative_to ps ds)) [
  | inl below ↦ let (rest, same) = is_relative_to-append ps ds below in (rest, ground arith)
  | inr outside ↦ ground arith
]

-- A file that passed: how long it was, and what it begins with.
pub record IsImageFile (F : Files) (max_bytes : ℕ) (path : List String) (mime : String)
    : Type 0 where
  pub st_size : ℕ
  pub measured : F.stat_size path ≡ some st_size
  pub fits : st_size ≤ max_bytes
  pub header : List ℕ
  pub read : F.header path ≡ some header
  pub format : sniff_image_format header ≡ some mime

check_file-IsImageFile :
    (F : Files) (found path : List String) (max_bytes : ℕ) (mime : String)
    → check_file F found max_bytes ≡ some (path, mime)
    → (found ≡ path) × IsImageFile F max_bytes path mime
unfolding check_file
check_file-IsImageFile F found path max_bytes mime h = elim (Option-cases (F.stat_size found)) [
  | inl unknown ↦ ground arith
  | inr (st_size, measured) ↦ elim (Option-cases (F.header found)) [
    | inl unread ↦ ground arith
    | inr (header, read) ↦ elim (Option-cases (sniff_image_format header)) [
      | inl unsniffed ↦ ground arith
      | inr (format, sniffed) ↦
          let same : found ≡ path = ground arith in
          (
            same,
            record {
              st_size = st_size;
              measured = rw (← same) measured;
              fits = ground arith;
              header = header;
              read = rw (← same) read;
              format = ground arith;
            },
          )
    ]
  ]
]

-- A local image: what its path resolves to, links followed, lies in the allowed directory.
pub record IsLocalImage (F : Files) (path_str allowed_dir : String) (max_bytes : ℕ)
    (path : List String) (mime : String) : Type 0 where
  pub resolved : F.resolve_strict path_str ≡ some path
  pub rest : List String
  pub inside : path ≡ allowed_dir_resolved F allowed_dir ++ rest
  pub file : IsImageFile F max_bytes path mime

-- A path that `resolve_local_image_path` returns is what the given one resolves to, links followed;
-- it lies in the allowed directory, as that resolves; its size was within the limit, and its first
-- bytes are the signature of the format that is returned.
pub resolve_local_image_path-IsLocalImage :
    (F : Files) (path_str allowed_dir : String) (max_bytes : ℕ) (path : List String) (mime : String)
    → resolve_local_image_path F path_str allowed_dir max_bytes ≡ some (path, mime)
    → IsLocalImage F path_str allowed_dir max_bytes path mime
unfolding resolve_local_image_path
resolve_local_image_path-IsLocalImage F path_str allowed_dir max_bytes path mime h =
    elim (Option-cases (F.resolve_strict path_str)) [
      | inl missing ↦ ground arith
      | inr (found, resolved) ↦
          elim (Bool-cases (is_relative_to found (allowed_dir_resolved F allowed_dir))) [
            | inr outside ↦ ground arith
            | inl below ↦
                let (rest, inside) =
                  is_relative_to-append found (allowed_dir_resolved F allowed_dir) below in
                let (same, file) =
                  check_file-IsImageFile F found path max_bytes mime (ground arith) in
                record {
                  resolved = rw (← same) resolved;
                  rest = rest;
                  inside = rw (← same) inside;
                  file = file;
                }
          ]
    ]
