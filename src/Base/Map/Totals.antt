-- ===== src/Base/Map/Totals.antt =====
-- Maps with one entry for each key, and sums over their values.
use cpa_stg.Base.Lists.{sum}
use cpa_stg.Base.Tests.{Keyed, ==_iff, if◌then◌else◌}
use Prim.Native.Nat.{ℕ, ◌+◌, ◌≤◌}
use mathlib.Core.Path.{◌≡◌, refl}
use mathlib.Core.Bool.{Bool}
use mathlib.Core.List.{[], ◌∷◌, map}
use mathlib.Core.Option.{Option, none, some}
use native.Mathlib.Omega.{arith}
use cpa_stg.Base.Map.{
  Map, size, values, retain_map, update_all, get, insert, remove, get-insert, get-remove,
  get-update_all,
}

-- The sum of a weight over the values.
abbrev pub total {ℓ κ} : {K : Type ℓ} {V : Type κ} → (V → ℕ) → Map K V → ℕ
total w [] = 0
total w ((k, v) ∷ m) = w v + total w m

abbrev pub weigh {ℓ} : {V : Type ℓ} → (V → ℕ) → Option V → ℕ
weigh w none = 0
weigh w (some v) = w v

module _ {ℓ κ} {K : Type ℓ} {V : Type κ} where
  pub total-values : (w : V → ℕ) (m : Map K V) → sum (map w (values m)) ≡ total w m
  total-values w [] = refl
  total-values w ((k, v) ∷ m) = ground (arith, total-values w m)

  pub size-retain_map-le :
      (f : V → V) (p : V → Bool) (m : Map K V) → size (retain_map f p m) ≤ size m
  unfolding retain_map
  size-retain_map-le f p [] = omega arith
  size-retain_map-le f p ((k, v) ∷ m) = ground (arith, size-retain_map-le f p m)

  pub size-update_all : (f : K → V → V) (m : Map K V) → size (update_all f m) ≡ size m
  unfolding update_all
  size-update_all f [] = refl
  size-update_all f ((k, v) ∷ m) = ground (arith, size-update_all f m)

abbrev pub keep_if {ℓ} : {V : Type ℓ} → (V → V) → (V → Bool) → Option V → Option V
keep_if f p none = none
keep_if f p (some v) = if p (f v) then some (f v) else none

module _ {ℓ κ} {K : Type ℓ} {V : Type κ} ⦃e : Keyed K⦄ where
  abbrev pub Unique : Map K V → Type κ
  Unique [] = Unit
  Unique ((k, v) ∷ m) = (get k m ≡ none) × Unique m

  pub Unique-insert : (k : K) (v : V) (m : Map K V) → Unique m → Unique (insert k v m)
  unfolding insert get
  Unique-insert k v [] u = (refl, tt)
  Unique-insert k v ((j, w) ∷ m) u =
      ground (arith, ==_iff j k, ==_iff k j, get-insert k j v m, Unique-insert k v m u.1)

  pub Unique-remove : (k : K) (m : Map K V) → Unique m → Unique (remove k m)
  unfolding remove
  Unique-remove k [] u = tt
  Unique-remove k ((j, w) ∷ m) u = ground (arith, get-remove k j m, Unique-remove k m u.1)

  pub Unique-update_all : (f : K → V → V) (m : Map K V) → Unique m → Unique (update_all f m)
  unfolding update_all
  Unique-update_all f [] u = tt
  Unique-update_all f ((j, w) ∷ m) u = (rw (get-update_all f j m, u.0), Unique-update_all f m u.1)

  pub get-retain_map :
      (f : V → V) (p : V → Bool) (k : K) (m : Map K V)
      → Unique m
      → get k (retain_map f p m) ≡ keep_if f p (get k m)
  unfolding get retain_map
  get-retain_map f p k [] u = refl
  get-retain_map f p k ((j, w) ∷ m) u = ground (arith, ==_iff j k, get-retain_map f p k m u.1)

  pub Unique-retain_map :
      (f : V → V) (p : V → Bool) (m : Map K V) → Unique m → Unique (retain_map f p m)
  unfolding retain_map
  Unique-retain_map f p [] u = tt
  Unique-retain_map f p ((j, w) ∷ m) u =
      ground (arith, get-retain_map f p j m u.1, Unique-retain_map f p m u.1)

  pub total-insert :
      (w : V → ℕ) (k : K) (v : V) (m : Map K V)
      → total w (insert k v m) + weigh w (get k m) ≡ total w m + w v
  unfolding get insert
  total-insert w k v [] = omega arith
  total-insert w k v ((j, x) ∷ m) = ground (arith, total-insert w k v m)

  total-shrinks : (w : V → ℕ) (k : K) (m : Map K V) → total w (remove k m) ≤ total w m
  unfolding remove
  total-shrinks w k [] = omega arith
  total-shrinks w k ((j, x) ∷ m) = ground (arith, total-shrinks w k m)

  pub total-absent :
      (w : V → ℕ) (k : K) (m : Map K V) → get k m ≡ none → total w (remove k m) ≡ total w m
  unfolding get remove
  total-absent w k [] h = refl
  total-absent w k ((j, x) ∷ m) h = ground (arith, total-absent w k m)

  pub total-remove :
      (w : V → ℕ) (k : K) (m : Map K V)
      → Unique m
      → total w (remove k m) + weigh w (get k m) ≡ total w m
  unfolding get remove
  total-remove w k [] u = omega arith
  total-remove w k ((j, x) ∷ m) u =
      ground (arith, ==_iff j k, total-absent w k m, total-remove w k m u.1)

  pub total-remove-le :
      (w : V → ℕ) (k : K) (m : Map K V) → total w (remove k m) + weigh w (get k m) ≤ total w m
  unfolding get remove
  total-remove-le w k [] = omega arith
  total-remove-le w k ((j, x) ∷ m) = ground (arith, total-remove-le w k m, total-shrinks w k m)

  pub weigh-le-total : (w : V → ℕ) (k : K) (m : Map K V) → weigh w (get k m) ≤ total w m
  unfolding get
  weigh-le-total w k [] = omega arith
  weigh-le-total w k ((j, x) ∷ m) = ground (arith, weigh-le-total w k m)

  pub size-insert-le : (k : K) (v : V) (m : Map K V) → size (insert k v m) ≤ size m + 1
  unfolding insert
  size-insert-le k v [] = omega arith
  size-insert-le k v ((j, x) ∷ m) = ground (arith, size-insert-le k v m)

  -- Writing at a key that is there adds no entry.
  pub size-insert :
      (k : K) (v x : V) (m : Map K V) → get k m ≡ some x → size (insert k v m) ≡ size m
  unfolding get insert
  size-insert k v x [] h = cc
  size-insert k v x ((j, y) ∷ m) h = ground (arith, size-insert k v x m)

  pub size-remove-le : (k : K) (m : Map K V) → size (remove k m) ≤ size m
  unfolding remove
  size-remove-le k [] = omega arith
  size-remove-le k ((j, x) ∷ m) = ground (arith, size-remove-le k m)
