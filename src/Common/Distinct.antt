-- ===== src/Common/Distinct.antt =====
-- Tables whose rows differ pairwise in a key, given as the test that two rows share it.
use mathlib.Core.Path.{◌≡◌, refl}
use mathlib.Core.Bool.{Bool, true, false}
use mathlib.Core.Option.{none, some}
use mathlib.Core.List.{List, [], ◌∷◌, ◌++◌}
use mathlib.Core.Logic.{inl, inr}
use native.Mathlib.Omega.{arith}
use pinterest_mcp_docker.Common.Tests.{Bool-cases}
use pinterest_mcp_docker.Common.Rows.{select, modify_row, update}

module _ {ℓ} {A : Type ℓ} where
  select-none :
      (p q : A → Bool) (xs : List A) (x : A)
      → select q xs ≡ none
      → select p xs ≡ some x
      → q x ≡ false
  select-none p q [] x h k = cc
  select-none p q (y ∷ ys) x h k = ground (arith, select-none p q ys x)

  select-none_ext :
      (p q : A → Bool) (xs : List A)
      → ((x : A) → p x ≡ q x)
      → select q xs ≡ none
      → select p xs ≡ none
  select-none_ext p q [] e h = refl
  select-none_ext p q (y ∷ ys) e h = ground (arith, e y, select-none_ext p q ys e)

  select-none_modify :
      (q p : A → Bool) (f : A → A) (xs : List A)
      → ((x : A) → q (f x) ≡ q x)
      → select q xs ≡ none
      → select q (modify_row p f xs) ≡ none
  select-none_modify q p f [] e h = refl
  select-none_modify q p f (y ∷ ys) e h = ground (arith, e y, select-none_modify q p f ys e)

  select-none-update :
      (q p : A → Bool) (f : A → A) (xs : List A)
      → ((x : A) → q (f x) ≡ q x)
      → select q xs ≡ none
      → select q (update p f xs) ≡ none
  select-none-update q p f [] e h = refl
  select-none-update q p f (y ∷ ys) e h = ground (arith, e y, select-none-update q p f ys e)

  select-none_append :
      (q : A → Bool) (xs : List A) (z : A)
      → select q xs ≡ none
      → q z ≡ false
      → select q (xs ++ z ∷ []) ≡ none
  select-none_append q [] z h k = ground arith
  select-none_append q (y ∷ ys) z h k = ground (arith, select-none_append q ys z)

module _ {ℓ} {A : Type ℓ} (same : A → A → Bool) where
  abbrev pub Distinct : List A → Type ℓ
  Distinct [] = Unit
  Distinct (x ∷ xs) = (select (same x) xs ≡ none) × Distinct xs

  pub Distinct-append :
      ((x y : A) → same x y ≡ same y x)
      → (xs : List A) (z : A) → Distinct xs
      → select (same z) xs ≡ none
      → Distinct (xs ++ z ∷ [])
  Distinct-append s [] z h k = (refl, tt)
  Distinct-append s (x ∷ xs) z (fresh, h) k = (
    select-none_append (same x) xs z fresh (ground (arith, s x z)),
    Distinct-append s xs z h (ground arith),
  )

  pub Distinct-modify_row :
      (p : A → Bool) (f : A → A)
      → ((x y : A) → same (f x) y ≡ same x y)
      → ((x y : A) → same x (f y) ≡ same x y)
      → (xs : List A) → Distinct xs
      → Distinct (modify_row p f xs)
  Distinct-modify_row p f l r [] h = tt
  Distinct-modify_row p f l r (x ∷ xs) (fresh, h) = ground (
    arith,
    select-none_ext (same (f x)) (same x) xs (l x) fresh,
    select-none_modify (same x) p f xs (r x) fresh,
    Distinct-modify_row p f l r xs h,
  )

  pub Distinct-update :
      (p : A → Bool) (f : A → A)
      → ((x y : A) → same (f x) y ≡ same x y)
      → ((x y : A) → same x (f y) ≡ same x y)
      → (xs : List A) → Distinct xs
      → Distinct (update p f xs)
  Distinct-update p f l r [] h = tt
  Distinct-update p f l r (x ∷ xs) (fresh, h) = elim (Bool-cases (p x)) [
    | inl hit ↦ rw hit (
      select-none_ext (same (f x)) (same x) (update p f xs) (l x)
          (select-none-update (same x) p f xs (r x) fresh),
      Distinct-update p f l r xs h,
    )
    | inr miss ↦
        rw miss (select-none-update (same x) p f xs (r x) fresh, Distinct-update p f l r xs h)
  ]

  -- A row that some query finds is the one that its key finds.
  pub select-Distinct :
      ((x y : A) → same x y ≡ same y x)
      → ((x : A) → same x x ≡ true)
      → (p : A → Bool) (xs : List A) (x : A) → Distinct xs
      → select p xs ≡ some x
      → select (same x) xs ≡ some x
  select-Distinct s r p [] x h k = cc
  select-Distinct s r p (y ∷ ys) x (fresh, h) k =
      ground (arith, r x, s x y, select-none p (same y) ys x fresh, select-Distinct s r p ys x h)
