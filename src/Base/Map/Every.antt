-- ===== src/Base/Map/Every.antt =====
-- A property of every entry of a map.
use mathlib.Core.Path.{subst}
use cpa_stg.Base.Tests.{Keyed, ◌==◌, ==_iff, Bool-cases, Option-cases}
use mathlib.Core.Path.{◌≡◌}
use mathlib.Core.Logic.{inl, inr}
use mathlib.Core.Bool.{Bool}
use mathlib.Core.Option.{some}
use native.Mathlib.Omega.{arith}
use cpa_stg.Base.Map.{Map, retain_map, update_all, get, insert, get-insert, get-update_all}
use cpa_stg.Base.Map.Totals.{Unique, get-retain_map}

module _ {ℓ κ μ} {K : Type ℓ} {V : Type κ} ⦃e : Keyed K⦄ (P : K → V → Type μ) where
  abbrev pub Every : Map K V → Type (ℓ ⊔ κ ⊔ μ)
  Every m = (k : K) (v : V) → get k m ≡ some v → P k v

  pub Every-insert : (key : K) (x : V) (m : Map K V) → P key x → Every m → Every (insert key x m)
  Every-insert key x m px all k v h = elim (Bool-cases (key == k)) [
    | inl eq ↦
        let here : key ≡ k = (==_iff key k).0 eq in
        let is : x ≡ v = ground (arith, get-insert key k x m) in
        subst (P k) is (subst (λ j. P j x) here px)
    | inr ne ↦ all k v (ground (arith, get-insert key k x m))
  ]

  pub Every-update_all :
      (g : K → V → V) (m : Map K V)
      → ((k : K) (v : V) → P k v → P k (g k v))
      → Every m
      → Every (update_all g m)
  Every-update_all g m keep all k v h = elim (Option-cases (get k m)) [
    | inl gone ↦ absurd (ground (arith, get-update_all g k m))
    | inr (x, found) ↦
        let is : g k x ≡ v = ground (arith, get-update_all g k m) in
        subst (P k) is (keep k x (all k x found))
  ]

  pub Every-retain_map :
      (g : V → V) (p : V → Bool) (m : Map K V)
      → Unique m
      → ((k : K) (v : V) → P k v → P k (g v))
      → Every m
      → Every (retain_map g p m)
  Every-retain_map g p m u keep all k v h = elim (Option-cases (get k m)) [
    | inl gone ↦ absurd (ground (arith, get-retain_map g p k m u))
    | inr (x, found) ↦
        let is : g x ≡ v = ground (arith, get-retain_map g p k m u) in
        subst (P k) is (keep k x (all k x found))
  ]
