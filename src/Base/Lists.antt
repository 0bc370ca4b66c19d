-- ===== src/Base/Lists.antt =====
-- Lists measured by native numbers, and the loops over lists that the program uses.
use Prim.Native.Nat.{ℕ, zero, suc, ◌+◌, ◌≤◌}
use mathlib.Core.Path.{◌≡◌, refl}
use mathlib.Core.Bool.{Bool, true, false, not, ◌||◌}
use mathlib.Core.List.{List, [], ◌∷◌, ◌++◌, reverse, reverse-cons}
use mathlib.Core.Option.{Option, none, some}
use native.Mathlib.Omega.{arith}
use cpa_stg.Base.Tests.{Keyed, ◌==◌, if◌then◌else◌, ==_iff}

module _ {ℓ} {A : Type ℓ} where
  abbrev pub length : List A → ℕ
  length [] = 0
  length (x ∷ xs) = suc (length xs)

  abbrev pub head? : List A → Option A
  head? [] = none
  head? (x ∷ xs) = some x

  abbrev pub tail : List A → List A
  tail [] = []
  tail (x ∷ xs) = xs

  abbrev pub is_empty : List A → Bool
  is_empty [] = true
  is_empty (x ∷ xs) = false

  abbrev pub take : ℕ → List A → List A
  take n [] = []
  take zero (x ∷ xs) = []
  take (suc n) (x ∷ xs) = x ∷ take n xs

  abbrev pub drop : ℕ → List A → List A
  drop n [] = []
  drop zero (x ∷ xs) = x ∷ xs
  drop (suc n) (x ∷ xs) = drop n xs

  -- `Iterator::filter_map`.
  abbrev pub filter_map {κ} : {B : Type κ} → (A → Option B) → List A → List B
  filter_map f [] = []
  filter_map f (x ∷ xs) =
      let rest = filter_map f xs in elim (f x) [ none ↦ rest | some y ↦ y ∷ rest ]

  -- `Vec::retain` and `VecDeque::retain`.
  pub retain : (A → Bool) → List A → List A
  retain p [] = []
  retain p (x ∷ xs) = if p x then x ∷ retain p xs else retain p xs

  -- `Iterator::any`.
  abbrev pub any : (A → Bool) → List A → Bool
  any p [] = false
  any p (x ∷ xs) = p x || any p xs

  pub retain-nil : (p : A → Bool) → retain p [] ≡ []
  unfolding retain
  retain-nil p = refl

  pub length-append : (xs ys : List A) → length (xs ++ ys) ≡ length xs + length ys
  length-append [] ys = omega arith
  length-append (x ∷ xs) ys = omega (arith, length-append xs ys)

  pub length-retain-le : (p : A → Bool) (xs : List A) → length (retain p xs) ≤ length xs
  unfolding retain
  length-retain-le p [] = omega arith
  length-retain-le p (x ∷ xs) = ground (arith, length-retain-le p xs)

module _ {ℓ} {A : Type ℓ} where
  pub length-reverse : (xs : List A) → length (reverse xs) ≡ length xs
  length-reverse [] = refl
  length-reverse (x ∷ xs) =
      rw (reverse-cons x xs) (omega (arith, length-append (reverse xs) (x ∷ []), length-reverse xs))

abbrev pub sum : List ℕ → ℕ
sum [] = 0
sum (n ∷ ns) = n + sum ns

-- How often a value stands in a list.
module _ {ℓ} {A : Type ℓ} ⦃e : Keyed A⦄ where
  abbrev pub count : A → List A → ℕ
  count a [] = 0
  count a (x ∷ xs) = (if x == a then 1 else 0) + count a xs

  pub count-append : (a : A) (xs ys : List A) → count a (xs ++ ys) ≡ count a xs + count a ys
  count-append a [] ys = omega arith
  count-append a (x ∷ xs) ys = omega (arith, count-append a xs ys)

  -- Dropping every copy of `a`.
  pub count-retain :
      (a b : A) (xs : List A)
      → count b (retain (λ x. not (x == a)) xs) ≡ (if a == b then 0 else count b xs)
  unfolding retain
  count-retain a b [] = ground arith
  count-retain a b (x ∷ xs) =
      ground (arith, ==_iff a b, ==_iff x a, ==_iff x b, count-retain a b xs)

  pub count-reverse : (a : A) (xs : List A) → count a (reverse xs) ≡ count a xs
  count-reverse a [] = refl
  count-reverse a (x ∷ xs) =
      rw (reverse-cons x xs)
        (omega (arith, count-append a (reverse xs) (x ∷ []), count-reverse a xs))

  -- What is put at the end and dropped again was not there before.
  pub retain-concat :
      (a : A) (xs : List A) → count a xs ≡ 0 → retain (λ x. not (x == a)) (xs ++ a ∷ []) ≡ xs
  unfolding retain
  retain-concat a [] h = ground (arith, ==_iff a a)
  retain-concat a (x ∷ xs) h = ground (arith, ==_iff x a, retain-concat a xs)
