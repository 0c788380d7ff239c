-- ===== src/Config/Paths.antt =====
-- src/pinterest_mcp/config.py: the validators of the URL paths.
use Prim.Native.Char.{code}
use Prim.Native.String.{String}
use pinterest_mcp_docker.Common.{
  Bool, true, false, ◌&&◌, Option, none, some, ◌==◌, ◌≡◌, ◌≢◌, refl, nat_eq, string_eq,
  if◌then◌else◌, arith,
}

abbrev pub starts_with_slash : String → Bool
starts_with_slash String.[] = false
starts_with_slash (String.◌∷◌ c s) = code c == b'/'

-- `v.rstrip("/")`.
unfoldable pub rstrip : String → String
rstrip String.[] = String.[]
rstrip (String.◌∷◌ c s) =
    let rest = rstrip s in if code c == b'/' && rest == "" then String.[] else String.◌∷◌ c rest

-- `v.rstrip("/") or "/"`.
abbrev pub or_root : String → String
or_root v = if v == "" then "/" else v

unfoldable pub path_must_be_absolute : String → Option String
unfolding rstrip
path_must_be_absolute v = if starts_with_slash v then some (or_root (rstrip v)) else none

unfoldable pub message_path_must_be_absolute : String → Option String
message_path_must_be_absolute v = if starts_with_slash v then some v else none

rstrip-rstrip : (v : String) → rstrip (rstrip v) ≡ rstrip v
unfolding rstrip
rstrip-rstrip String.[] = refl
rstrip-rstrip (String.◌∷◌ c s) = ground (arith, rstrip-rstrip s)

starts-rstrip : (v : String) → rstrip v ≢ "" → starts_with_slash (rstrip v) ≡ starts_with_slash v
unfolding rstrip
starts-rstrip String.[] d = absurd (d refl)
starts-rstrip (String.◌∷◌ c s) d = ground arith

accepted-root : path_must_be_absolute "/" ≡ some "/"
unfolding path_must_be_absolute nat_eq string_eq
accepted-root = refl

accepted-path :
    (v : String)
    → starts_with_slash v ≡ true
    → rstrip v ≢ ""
    → (starts_with_slash (rstrip v) ≡ true) × (path_must_be_absolute (rstrip v) ≡ some (rstrip v))
unfolding path_must_be_absolute
accepted-path v slash full = ground (arith, starts-rstrip v full, rstrip-rstrip v)

path-or_root :
    (v w : String)
    → path_must_be_absolute v ≡ some w
    → (starts_with_slash v ≡ true) × (w ≡ or_root (rstrip v))
unfolding path_must_be_absolute
path-or_root v w h = ground arith

-- An accepted path is absolute, and validating it again changes nothing.
pub path_must_be_absolute-normal :
    (v w : String)
    → path_must_be_absolute v ≡ some w
    → (starts_with_slash w ≡ true) × (path_must_be_absolute w ≡ some w)
unfolding string_eq nat_eq
path_must_be_absolute-normal v w h =
    let (slash, e) = path-or_root v w h in
    elim (string_eq.dec (rstrip v) "") [
      | yes empty ↦ rw e (rw empty (refl, accepted-root))
      | no full ↦
          let same : or_root (rstrip v) ≡ rstrip v = ground arith in
          rw e (rw same (accepted-path v slash full))
    ]
