-- ===== src/Common/Rows.antt =====
-- A database table as its list of rows: select by a test, update in place, and insert.
use mathlib.Core.Path.{◌≡◌, refl}
use mathlib.Core.Bool.{Bool, true, false}
use mathlib.Core.Option.{Option, none, some}
use mathlib.Core.List.{List, [], ◌∷◌, ◌++◌}
use native.Mathlib.Omega.{arith}
use pinterest_mcp_docker.Common.Tests.{if◌then◌else◌}
use pinterest_mcp_docker.Common.Lists.{All}

module _ {ℓ} {A : Type ℓ} where
  -- The first row that passes the test.
  abbrev pub select : (A → Bool) → List A → Option A
  select p [] = none
  select p (x ∷ xs) = if p x then some x else select p xs

  -- `UPDATE … WHERE p`: every row that passes the test is replaced.
  abbrev pub update : (A → Bool) → (A → A) → List A → List A
  update p f [] = []
  update p f (x ∷ xs) = (if p x then f x else x) ∷ update p f xs

  -- A write through the object that the query returned: the row that `select` finds is replaced.
  abbrev pub modify_row : (A → Bool) → (A → A) → List A → List A
  modify_row p f [] = []
  modify_row p f (x ∷ xs) = if p x then f x ∷ xs else x ∷ modify_row p f xs

  pub select-append :
      (p : A → Bool) (xs : List A) (y : A)
      → select p (xs ++ y ∷ [])
        ≡ elim (select p xs) [ none ↦ if p y then some y else none | some x ↦ some x ]
  select-append p [] y = refl
  select-append p (x ∷ xs) y = ground (arith, select-append p xs y)

  pub select-modify_row_self :
      (p : A → Bool) (f : A → A) (xs : List A) (x : A)
      → select p xs ≡ some x
      → p (f x) ≡ true
      → select p (modify_row p f xs) ≡ some (f x)
  select-modify_row_self p f [] x e h = cc
  select-modify_row_self p f (y ∷ xs) x e h = ground (arith, select-modify_row_self p f xs x)

  pub select-modify_row_ne :
      (p q : A → Bool) (f : A → A) (xs : List A)
      → ((x : A) → p x ≡ true → (q x ≡ false) × (q (f x) ≡ false))
      → select q (modify_row p f xs) ≡ select q xs
  select-modify_row_ne p q f [] h = refl
  select-modify_row_ne p q f (y ∷ xs) h = ground (arith, h y, select-modify_row_ne p q f xs h)

  pub select_sound : (p : A → Bool) (xs : List A) (x : A) → select p xs ≡ some x → p x ≡ true
  select_sound p [] x e = cc
  select_sound p (y ∷ xs) x e = ground (arith, select_sound p xs x)

  pub select-update :
      (p q : A → Bool) (f : A → A) (xs : List A)
      → ((x : A) → q (f x) ≡ q x)
      → select q (update p f xs)
        ≡ elim (select q xs) [ none ↦ none | some x ↦ some (if p x then f x else x) ]
  select-update p q f [] h = refl
  select-update p q f (y ∷ xs) h = ground (arith, h y, select-update p q f xs h)

module _ {ℓ κ} {A : Type ℓ} (P : A → Type κ) where
  pub select-All : (p : A → Bool) (xs : List A) (x : A) → select p xs ≡ some x → All P xs → P x
  select-All p [] x e h = cc
  select-All p (y ∷ xs) x e h = ground (arith, select-All p xs x)

  pub All-append : (xs : List A) (y : A) → All P xs → P y → All P (xs ++ y ∷ [])
  All-append [] y h k = (k, tt)
  All-append (x ∷ xs) y h k = (h.0, All-append xs y h.1 k)

  pub All-update :
      (p : A → Bool) (f : A → A) (xs : List A)
      → ((x : A) → p x ≡ true → P x → P (f x))
      → All P xs
      → All P (update p f xs)
  All-update p f [] h k = tt
  All-update p f (x ∷ xs) h k = ground (arith, h x, All-update p f xs h k.1)

  pub All-modify_row :
      (p : A → Bool) (f : A → A) (xs : List A)
      → ((x : A) → p x ≡ true → P x → P (f x))
      → All P xs
      → All P (modify_row p f xs)
  All-modify_row p f [] h k = tt
  All-modify_row p f (x ∷ xs) h k = ground (arith, h x, All-modify_row p f xs h k.1)

pub All-imp {ℓ κ} :
    {A : Type ℓ} (P Q : A → Type κ) (xs : List A) → ((x : A) → P x → Q x) → All P xs → All Q xs
All-imp P Q [] f h = tt
All-imp P Q (x ∷ xs) f (p, h) = (f x p, All-imp P Q xs f h)
