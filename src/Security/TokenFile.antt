-- ===== src/Security/TokenFile.antt =====
-- src/pinterest_mcp/security.py: `save_atomic_token_file` over the files of a disk, step by step. The
-- text that the JSON printer writes comes in chunks, and each call of the system may fail.
pub mod Atomic
mod Examples
use Prim.Native.String.{char_at}
use pinterest_mcp_docker.Common.{
  ℕ, String, Bool, true, false, not, Option, none, some, List, [], ◌∷◌, ◌++◌, ◌==◌, string_eq,
  if◌then◌else◌,
}
use pinterest_mcp_docker.Persistence.Encryption.Base64.{add_text}

pub record File : Type 0 where
  pub content : List ℕ
  pub mode : ℕ

abbrev pub Files : Type 0
Files = String → Option File

-- What the system and the printer do: whether the directory is there or can be made, whether the
-- temporary file opens, what is written, whether printing or writing raises after that, whether
-- the file can then be removed, and whether it can be put in its place.
pub record Io : Type 0 where
  pub makes_parent : Bool
  pub opens : Bool
  pub chunks : List (List ℕ)
  pub fails : Bool
  pub unlinks : Bool
  pub replaces : Bool

abbrev pub set : String → Option File → Files → Files
set path f fs p = if p == path then f else fs p

-- `token_path.with_name(f".{token_path.name}.tmp.{os.getpid()}")`, for a directory's text.
unfoldable pub tmp_path : String → String → String → String
unfolding add_text
tmp_path parent name pid =
    add_text parent (String.◌∷◌ (char_at "." 0) (add_text name (add_text ".tmp." pid)))

-- `os.open(…, O_WRONLY | O_CREAT | O_TRUNC, 0o600)`: a file that is there keeps its mode.
abbrev pub opened : Option File → File
opened none = record { content = []; mode = 384 }
opened (some f) = record { content = []; mode = f.mode }

abbrev pub append : List ℕ → Option File → Option File
append chunk none = none
append chunk (some f) = some (record { content = f.content ++ chunk; mode = f.mode })

abbrev pub write : String → List ℕ → Files → Files
write tmp chunk fs = set tmp (append chunk (fs tmp)) fs

-- The disk after each chunk, and at the end.
unfoldable pub writes : String → List (List ℕ) → Files → List Files
writes tmp [] fs = []
writes tmp (c ∷ cs) fs = write tmp c fs ∷ writes tmp cs (write tmp c fs)

unfoldable pub written : String → List (List ℕ) → Files → Files
written tmp [] fs = fs
written tmp (c ∷ cs) fs = written tmp cs (write tmp c fs)

-- `os.replace`.
abbrev pub replace : String → String → Files → Files
replace tmp token fs = set tmp none (set token (fs tmp) fs)

-- A run: the disk after each step, at the end, and whether the function returned.
pub record Run : Type 0 where
  pub states : List Files
  pub final : Files
  pub returned : Bool

abbrev pub untouched : Files → Run
untouched fs = record { states = []; final = fs; returned = false }

abbrev pub ended : List Files → Files → Bool → Run
ended steps fs returned = record { states = steps ++ fs ∷ []; final = fs; returned = returned }

-- What follows the opening, on the disk with the empty file.
abbrev pub fill : Io → String → String → Files → Run
fill io token tmp fs =
    let steps = fs ∷ writes tmp io.chunks fs in
    let full = written tmp io.chunks fs in
    if io.fails
    then (if io.unlinks then ended steps (set tmp none full) false else ended steps full false)
    else if io.replaces
    then ended steps (replace tmp token full) true
    else ended steps full false

unfoldable pub save_atomic_token_file : Io → String → String → Files → Run
unfolding writes written
save_atomic_token_file io token tmp fs =
    if not io.makes_parent
    then untouched fs
    else if not io.opens
    then untouched fs
    else fill io token tmp (set tmp (some (opened (fs tmp))) fs)
