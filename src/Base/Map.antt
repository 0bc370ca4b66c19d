-- ===== src/Base/Map.antt =====
-- A `HashMap` as an association list with one entry for each key.
pub mod Totals
pub mod Every
use Prim.Native.Nat.{ℕ, suc, ◌+◌, ◌≤◌}
use mathlib.Core.Path.{◌≡◌, refl, ◌∙◌, ap}
use mathlib.Core.Logic.{◌↔◌, ◌⊎◌, inl, inr}
use mathlib.Core.Bool.{Bool, true, false, not, ◌&&◌, ◌||◌}
use mathlib.Core.List.{List, [], ◌∷◌, map}
use mathlib.Core.Option.{Option, none, some}
use mathlib.Core.Option
use native.Mathlib.Omega.{arith}
use cpa_stg.Base.Lists.{length}
use cpa_stg.Base.Tests.{Keyed, ◌==◌, ==_iff, ==_refl, if◌then◌else◌, Bool-cases}

abbrev pub Map {ℓ κ} : Type ℓ → Type κ → Type (ℓ ⊔ κ)
Map K V = List (K × V)

module _ {ℓ κ} {K : Type ℓ} {V : Type κ} where
  abbrev pub size : Map K V → ℕ
  size = length

  abbrev pub values : Map K V → List V
  values = map (λ p. p.1)

  -- `HashMap::retain` with a closure that changes the values as it goes.
  unfoldable pub retain_map : (V → V) → (V → Bool) → Map K V → Map K V
  retain_map f p [] = []
  retain_map f p ((k, v) ∷ m) = if p (f v) then (k, f v) ∷ retain_map f p m else retain_map f p m

  -- `for (key, value) in &mut map`.
  unfoldable pub update_all : (K → V → V) → Map K V → Map K V
  update_all f [] = []
  update_all f ((k, v) ∷ m) = (k, f k v) ∷ update_all f m

abbrev pub is_some {ℓ} : {A : Type ℓ} → Option A → Bool
is_some none = false
is_some (some a) = true

module _ {ℓ κ} {K : Type ℓ} {V : Type κ} ⦃e : Keyed K⦄ where
  unfoldable pub get : K → Map K V → Option V
  get k [] = none
  get k ((j, v) ∷ m) = if j == k then some v else get k m

  unfoldable pub insert : K → V → Map K V → Map K V
  insert k v [] = (k, v) ∷ []
  insert k v ((j, w) ∷ m) = if j == k then (j, v) ∷ m else (j, w) ∷ insert k v m

  unfoldable pub remove : K → Map K V → Map K V
  remove k [] = []
  remove k ((j, w) ∷ m) = if j == k then remove k m else (j, w) ∷ remove k m

  abbrev pub contains_key : K → Map K V → Bool
  contains_key k m = is_some (get k m)

  pub get-insert :
      (k j : K) (v : V) (m : Map K V) → get j (insert k v m) ≡ (if k == j then some v else get j m)
  unfolding get insert
  get-insert k j v [] = refl
  get-insert k j v ((i, w) ∷ m) =
      ground (arith, ==_iff k j, ==_iff i k, ==_iff i j, get-insert k j v m)

  pub get-remove : (k j : K) (m : Map K V) → get j (remove k m) ≡ (if k == j then none else get j m)
  unfolding get remove
  get-remove k j [] = ground arith
  get-remove k j ((i, w) ∷ m) = ground (arith, ==_iff k j, ==_iff i k, ==_iff i j, get-remove k j m)

  pub get-update_all :
      (f : K → V → V) (j : K) (m : Map K V) → get j (update_all f m) ≡ Option.map (f j) (get j m)
  unfolding get update_all
  get-update_all f j [] = refl
  get-update_all f j ((i, w) ∷ m) = ground (arith, ==_iff i j, get-update_all f j m)
