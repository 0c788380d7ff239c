-- ===== src/Persistence/Json.antt =====
-- The values of a parsed JSON body, and the checks of src/pinterest_mcp/persistence/pending.py on
-- them. A float is given in millionths; `non_finite` stands for the NaN and the infinities that
-- Python's `json` reads. Fields are those of a dict: the first one with a name is the one.
use pinterest_mcp_docker.Common.{
  ℕ, String, Bool, true, false, not, ◌&&◌, ◌||◌, List, [], ◌∷◌, ◌++◌, ◌==◌, string_eq, nat_eq,
  if◌then◌else◌, leb,
}
use pinterest_mcp_docker.Common.Int.{ℤ, pos, negsuc}

mutual
  pub data Json : Type 0 where
    null non_finite : Json
    bool : Bool → Json
    int : ℤ → Json
    float : ℤ → Json
    text : String → Json
    arr : Items → Json
    dict : Fields → Json

  pub data Items : Type 0 where
    nil : Items
    cons : Json → Items → Items

  pub data Fields : Type 0 where
    end : Fields
    field : String → Json → Fields → Fields

-- `d.get(key)`, which is `None` for a missing key, like a JSON null.
unfoldable pub get : String → Fields → Json
get key end = null
get key (field name v rest) = if name == key then v else get key rest

-- `d.get(key, default)`, and whether the key is there.
unfoldable pub get_or : String → Fields → Json → Json
get_or key end d = d
get_or key (field name v rest) d = if name == key then v else get_or key rest d

-- `str.isspace` of a code point, which is also the class `\s` of a pattern.
abbrev pub is_space : ℕ → Bool
is_space c =
    (leb 9 c && leb c 13)
    || (leb 28 c && leb c 32)
    || c == 133
    || c == 160
    || c == 5760
    || (leb 8192 c && leb c 8202)
    || c == 8232
    || c == 8233
    || c == 8239
    || c == 8287
    || c == 12288

-- `re.split` on runs of separators: the pieces between them. The flag is set after a separator.
unfoldable pub split_runs : (ℕ → Bool) → Bool → List ℕ → List ℕ → List (List ℕ)
split_runs sep after piece [] = piece ∷ []
split_runs sep after piece (c ∷ cs) =
    let skip = split_runs sep true [] cs in
    let cut = piece ∷ split_runs sep true [] cs in
    let grow = split_runs sep false (piece ++ c ∷ []) cs in
    if sep c then (if after then skip else cut) else grow

abbrev pub is_zero : ℤ → Bool
is_zero (pos n) = n == 0
is_zero (negsuc n) = false

-- Python's truth of a JSON value.
abbrev pub truthy : Json → Bool
truthy null = false
truthy non_finite = true
truthy (bool b) = b
truthy (int n) = not (is_zero n)
truthy (float x) = not (is_zero x)
truthy (text t) = not (t == "")
truthy (arr nil) = false
truthy (arr _) = true
truthy (dict end) = false
truthy (dict _) = true
