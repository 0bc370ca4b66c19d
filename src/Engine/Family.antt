-- ===== src/Engine/Family.antt =====
-- `Engine::complete` of src/engine.rs, one round of its loop, and what is nested below a request.
pub mod Complete
use mathlib.Core.Path.{subst}
use cpa_stg.Base.Map.{Map, get, insert, get-insert, remove, get-remove, values}
use cpa_stg.Base.Map.Totals.{total, total-insert, total-remove-le, total-values, weigh}
use cpa_stg.Base.{
  ℕ, zero, suc, ◌+◌, ◌≤◌, ◌<◌, String, Bool, true, false, not, Option, none, some, List, [], ◌∷◌,
  ◌++◌, map, sum, ◌≡◌, ◌≢◌, refl, sym, ap, ◌==◌, ==_iff, ==_refl, string_eq, if◌then◌else◌, count,
  count-append, count-reverse, count-retain, length, length-append, length-reverse,
  length-retain-le, arith, ◌⊎◌, inl, inr, if_cases, Option-cases, Bool-cases, reverse,
}
use cpa_stg.Engine.Consistent.Detach.{get-detach}
use cpa_stg.Engine.Types.{Phase, idle, active, queued}
use cpa_stg.Engine.{
  Engine, detach, without, leave, update_bucket, drop_child, unlink, forget, end_one, child_count,
  complete_loop, complete, or_nil,
}

drop_child-count :
    (id other parent : String) (o : Option String) (m : Map String (List String))
    → id ≢ other
    → count other (or_nil (get parent (drop_child id o m))) ≡ count other (or_nil (get parent m))
unfolding drop_child
drop_child-count id other parent none m h = refl
drop_child-count id other parent (some p) m h = elim (Option-cases (get p m)) [
  | inl e ↦ rw (e, drop_child) refl
  | inr (xs, e) ↦
      rw (e, drop_child)
        (ground (
          arith,
          get-insert p parent (without id xs) m,
          count-retain id other xs,
          ==_iff id other,
          ==_iff p parent,
        ))
]

drop_child-count-le :
    (id other parent : String) (o : Option String) (m : Map String (List String))
    → count other (or_nil (get parent (drop_child id o m))) ≤ count other (or_nil (get parent m))
unfolding drop_child
drop_child-count-le id other parent none m = omega arith
drop_child-count-le id other parent (some p) m = elim (Option-cases (get p m)) [
  | inl e ↦ rw (e, drop_child) (omega arith)
  | inr (xs, e) ↦
      rw (e, drop_child)
        (ground (
          arith,
          get-insert p parent (without id xs) m,
          count-retain id other xs,
          ==_iff id other,
          ==_iff p parent,
        ))
]

drop_child-total :
    (id : String) (o : Option String) (m : Map String (List String))
    → total length (drop_child id o m) ≤ total length m
unfolding drop_child
drop_child-total id none m = omega arith
drop_child-total id (some p) m = elim (Option-cases (get p m)) [
  | inl e ↦ rw (e, drop_child) (omega arith)
  | inr (xs, e) ↦
      rw (e, drop_child)
        (ground (
          arith,
          total-insert length p (without id xs) m,
          length-retain-le (λ other. not (other == id)) xs,
          e,
        ))
]

module _ {T : Type 0} where
  abbrev pub children_of : Engine T → String → List String
  children_of e id = or_nil (get id e.children)

  abbrev pub IsChild : Engine T → String → String → Type 0
  IsChild e parent id = 0 < count id (children_of e parent)

  -- `id` is one of the roots, or nested below one at any depth.
  pub data Below (e : Engine T) (roots : List String) : String → Type 0 where
    root : {id : String} → 0 < count id roots → Below e roots id
    nested : {parent id : String} → Below e roots parent → IsChild e parent id → Below e roots id

  children-leave :
      (e : Engine T) (id : String) (phase : Phase) → (leave id phase e).children ≡ e.children
  unfolding leave update_bucket
  children-leave e id idle = refl
  children-leave e id (active key) = ground arith
  children-leave e id (queued key d) = ground arith

  children-detach : (e : Engine T) (id : String) → (detach e id).children ≡ e.children
  unfolding detach
  children-detach e id = elim (Option-cases (get id e.requests)) [
    | inl h ↦ rw (h, detach) refl
    | inr (phase, h) ↦ rw (h, detach) (children-leave _ id phase)
  ]

  pub children-end_one :
      (e : Engine T) (id : String)
      → (end_one id e).children ≡ drop_child id (get id e.parents) (remove id e.children)
  unfolding end_one unlink
  children-end_one e id = children-detach (unlink id e) id

  pub edge_kept :
      (e : Engine T) (id parent child : String)
      → id ≢ parent
      → id ≢ child
      → count child (children_of (end_one id e) parent) ≡ count child (children_of e parent)
  edge_kept e id parent child hp hc = ground (
    arith,
    children-end_one e id,
    drop_child-count id child parent (get id e.parents) (remove id e.children),
    get-remove id parent e.children,
    ==_iff id parent,
  )

  pub edge_le :
      (e : Engine T) (id parent child : String)
      → count child (children_of (end_one id e) parent) ≤ count child (children_of e parent)
  edge_le e id parent child = ground (
    arith,
    children-end_one e id,
    drop_child-count-le id child parent (get id e.parents) (remove id e.children),
    get-remove id parent e.children,
    ==_iff id parent,
  )

  pub child_count-end_one :
      (e : Engine T) (id : String)
      → child_count (end_one id e).children + length (children_of e id) ≤ child_count e.children
  child_count-end_one e id = rw (children-end_one e id) (
      ground (
        arith,
        total-values length (drop_child id (get id e.parents) (remove id e.children)),
        total-values length e.children,
        drop_child-total id (get id e.parents) (remove id e.children),
        total-remove-le length id e.children,
      ))

  pub get-end_one :
      (e : Engine T) (id other : String)
      → get other (end_one id e).requests ≡ (if id == other then none else get other e.requests)
  unfolding end_one unlink
  get-end_one e id other = ground (
    arith,
    get-remove id other (detach (unlink id e) id).requests,
    get-detach (unlink id e) id other,
    ==_iff id other,
  )
