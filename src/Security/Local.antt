-- ===== src/Security/Local.antt =====
-- src/pinterest_mcp/security.py: the check of a local image. The file system is a parameter; a
-- resolved path is the list of its parts. None is a SecurityError.
pub mod Inside
use pinterest_mcp_docker.Common.{
  ℕ, String, Bool, true, false, ◌&&◌, Option, none, some, List, [], ◌∷◌, ◌==◌, ltb, string_eq,
  if◌then◌else◌,
}
use pinterest_mcp_docker.Security.{sniff_image_format}

pub record Files : Type 0 where
  -- `Path.resolve(strict=True)`, which fails on a path that is not there, and `Path.resolve()`.
  pub resolve_strict : String → Option (List String)
  pub resolve : String → List String
  pub stat_size : List String → Option ℕ
  -- The first sixteen bytes, and all of them.
  pub header : List String → Option (List ℕ)
  pub read_bytes : List String → Option (List ℕ)

-- `Path.relative_to`, as a test: the parts of the one begin with those of the other.
unfoldable pub is_relative_to : List String → List String → Bool
is_relative_to path [] = true
is_relative_to [] (d ∷ ds) = false
is_relative_to (p ∷ ps) (d ∷ ds) = p == d && is_relative_to ps ds

-- The directory, resolved as far as it exists.
abbrev pub allowed_dir_resolved : Files → String → List String
allowed_dir_resolved F dir = elim (F.resolve_strict dir) [
  | none ↦ F.resolve dir
  | some parts ↦ parts
]

-- The size and the format of a resolved path.
unfoldable pub check_file : Files → List String → ℕ → Option (List String × String)
check_file F path max_bytes = elim (F.stat_size path) [
  | none ↦ none
  | some st_size ↦ if ltb max_bytes st_size then none else elim (F.header path) [
    | none ↦ none
    | some header ↦ elim (sniff_image_format header) [
      | none ↦ none
      | some mime_type ↦ some (path, mime_type)
    ]
  ]
]

unfoldable pub resolve_local_image_path :
    Files → String → String → ℕ → Option (List String × String)
unfolding is_relative_to check_file
resolve_local_image_path F path_str allowed_dir max_bytes = elim (F.resolve_strict path_str) [
  | none ↦ none
  | some path ↦
      if is_relative_to path (allowed_dir_resolved F allowed_dir)
      then check_file F path max_bytes
      else none
]
