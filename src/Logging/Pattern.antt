-- ===== src/Logging/Pattern.antt =====
-- The regular expressions that src/pinterest_mcp/logging_setup.py uses of Python's `re`: a pattern's
-- ways to match at a place, in the order that backtracking tries them, and the substitution.
use pinterest_mcp_docker.Common.{
  ℕ, zero, suc, ◌+◌, Bool, true, false, not, ◌&&◌, ◌||◌, Option, none, some, List, [], ◌∷◌, ◌++◌,
  ◌==◌, leb, ltb, nat_eq, if◌then◌else◌,
}
use Prim.Native.Nat.{◌-◌}

-- The text is the code points that are left; `kept` is the group that the replacement names.
pub record Place : Type 0 where
  pub before : Option ℕ
  pub kept : List ℕ
  pub taken : ℕ
  pub rest : List ℕ

-- A character of a class; between so many and so many of them, or at least so many, as many as
-- possible; a word boundary; one after the other; the first or else the second; and the group.
pub data Regex : Type 0 where
  one : (ℕ → Bool) → Regex
  at_least : ℕ → (ℕ → Bool) → Regex
  at_most : ℕ → (ℕ → Bool) → Regex
  boundary : Regex
  seq : Regex → Regex → Regex
  alt : Regex → Regex → Regex
  group : Regex → Regex

-- The word characters; those beyond ASCII are for the Unicode tables to say.
abbrev pub is_word : (ℕ → Bool) → ℕ → Bool
is_word alnum c =
    if ltb c 128
    then (leb b'0' c && leb c b'9')
      || (leb b'A' c && leb c b'Z')
      || (leb b'a' c && leb c b'z')
      || c == b'_'
    else alnum c

abbrev pub word_before : (ℕ → Bool) → Option ℕ → Bool
word_before alnum none = false
word_before alnum (some c) = is_word alnum c

abbrev pub word_after : (ℕ → Bool) → List ℕ → Bool
word_after alnum [] = false
word_after alnum (c ∷ cs) = is_word alnum c

abbrev pub differ : Bool → Bool → Bool
differ true b = not b
differ false b = b

abbrev pub next : (ℕ → Bool) → Place → List ℕ → List Place
next p s [] = []
next p s (c ∷ cs) =
    if p c
    then record { before = some c; kept = s.kept; taken = s.taken + 1; rest = cs } ∷ []
    else []

-- The places after a run of a class, the longest run first.
unfoldable pub runs : (ℕ → Bool) → Option ℕ → List ℕ → ℕ → List ℕ → List Place
runs p before kept taken [] = record { before = before; kept = kept; taken = taken; rest = [] } ∷ []
runs p before kept taken (c ∷ cs) =
    let longer = runs p (some c) kept (taken + 1) cs in
    let here = record { before = before; kept = kept; taken = taken; rest = c ∷ cs } ∷ [] in
    if p c then longer ++ here else here

abbrev pub select_places : (Place → Bool) → List Place → List Place
select_places p [] = []
select_places p (s ∷ ss) = let rest = select_places p ss in if p s then s ∷ rest else rest

abbrev pub take_codes : ℕ → List ℕ → List ℕ
take_codes zero cs = []
take_codes (suc n) [] = []
take_codes (suc n) (c ∷ cs) = c ∷ take_codes n cs

abbrev pub keep_all : Place → List Place → List Place
keep_all s [] = []
keep_all s (e ∷ es) =
    record {
      before = e.before;
      kept = take_codes (e.taken - s.taken) s.rest;
      taken = e.taken;
      rest = e.rest;
    }
    ∷ keep_all s es

abbrev pub each : (Place → List Place) → List Place → List Place
each f [] = []
each f (s ∷ ss) = f s ++ each f ss

unfoldable pub places : (ℕ → Bool) → Regex → Place → List Place
unfolding runs
places alnum (one p) s = next p s s.rest
places alnum (at_least n p) s =
    select_places (λ e. leb (s.taken + n) e.taken) (runs p s.before s.kept s.taken s.rest)
places alnum (at_most n p) s =
    select_places (λ e. leb e.taken (s.taken + n)) (runs p s.before s.kept s.taken s.rest)
places alnum boundary s =
    if differ (word_before alnum s.before) (word_after alnum s.rest) then s ∷ [] else []
places alnum (seq r q) s = each (places alnum q) (places alnum r s)
places alnum (alt r q) s = places alnum r s ++ places alnum q s
places alnum (group r) s = keep_all s (places alnum r s)

abbrev pub start : Option ℕ → List ℕ → Place
start before text = record { before = before; kept = []; taken = 0; rest = text }

abbrev pub first_place : List Place → Option Place
first_place [] = none
first_place (s ∷ ss) = some s

-- What the substitution puts, and how many characters it goes on after, counted behind the first.
abbrev pub put_match : (List ℕ → List ℕ) → ℕ → Option Place → List ℕ × ℕ
put_match template c none = (c ∷ [], 0)
put_match template c (some s) = (template s.kept, s.taken - 1)

-- `pattern.sub(template, text)` for a pattern that matches no empty text: the first count is of the
-- characters that a match has taken already.
unfoldable pub sub_from : (ℕ → Bool) → Regex → (List ℕ → List ℕ) → ℕ → Option ℕ → List ℕ → List ℕ
unfolding places
sub_from alnum r template skip before [] = []
sub_from alnum r template (suc skip) before (c ∷ cs) = sub_from alnum r template skip (some c) cs
sub_from alnum r template zero before (c ∷ cs) =
    let put = put_match template c (first_place (places alnum r (start before (c ∷ cs)))) in
    put.0 ++ sub_from alnum r template put.1 (some c) cs
