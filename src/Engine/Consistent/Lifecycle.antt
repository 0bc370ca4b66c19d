-- ===== src/Engine/Consistent/Lifecycle.antt =====
-- Registration, completion, reconfiguration and stopping in src/engine.rs, and the consistency of
-- the engine.
use mathlib.Core.Path.{subst}
use cpa_stg.Base.Map.{get, insert, get-insert, get-remove, update_all, get-update_all, contains_key}
use cpa_stg.Base.Map.Totals.{
  total-insert, total-remove, Unique-insert, Unique-remove, Unique-update_all,
}
use cpa_stg.Base.Result.{Result, ok, err}
use cpa_stg.Base.{
  ℕ, zero, suc, ◌+◌, String, false, Option, none, some, List, [], ◌∷◌, ◌++◌, ◌≡◌, refl, ==_iff,
  ==_refl, string_eq, arith, inl, inr, ◌⊎◌, if_cases, Option-cases, reverse,
}
use cpa_stg.Config
use cpa_stg.Config.{Config}
use cpa_stg.Engine.Admission.{adopt, replace_config, reconfigure}
use cpa_stg.Engine.Buckets.{refill}
use cpa_stg.Engine.Consistent.Detach.{detach-Inv, get-detach}
use cpa_stg.Engine.Consistent.{Inv, Leaves, active_in}
use cpa_stg.Engine.Types.{scope_eq, Phase, idle, Rejection}
use cpa_stg.Engine.{
  Engine, new, begin, begin_child, begun, link, detach, unlink, forget, end_one, complete_loop,
  complete, child_count, stop, or_nil,
}
use cpa_stg.Float.{F64}

-- A request that holds nothing.
abbrev IsFree : Option Phase → Type 0
IsFree o = (o ≡ none) ⊎ (o ≡ some idle)

module _ {T : Type 0} where
  pub new-Inv : (c : Config) → Inv (new {T = T} c)
  unfolding new get
  new-Inv c = record {
    requests_unique = tt;
    buckets_unique = tt;
    active_count = λ k. refl;
    queue_count = λ k id. refl;
  }

  register-Inv :
      (e : Engine T) (id : String)
      → Inv e
      → contains_key id e.requests ≡ false
      → Inv (record e { requests = insert id idle e.requests })
  register-Inv e id v h = record {
    requests_unique = Unique-insert id idle e.requests v.requests_unique;
    buckets_unique = v.buckets_unique;
    active_count =
        λ k. ground (arith, v.active_count k, total-insert (active_in k) id idle e.requests);
    queue_count = λ k other.
        ground (arith, v.queue_count k other, get-insert id other idle e.requests, ==_iff id other);
  }

  pub begin-Inv : (e : Engine T) (id : String) → Inv e → Inv (begin e id).0
  unfolding begin
  begin-Inv e id v =
      if_cases (Leaves Inv) e.stopping _ _ (λ s. v)
        λ s.
          if_cases (Leaves Inv) (contains_key id e.requests) _ _ (λ old. v)
            λ fresh. if_cases (Leaves Inv) _ _ _ (λ full. v) (λ room. register-Inv e id v fresh)

  link-Inv : (id parent : String) (e : Engine T) → Inv e → Inv (link id parent e)
  unfolding link
  link-Inv id parent e v = record {
    requests_unique = v.requests_unique;
    buckets_unique = v.buckets_unique;
    active_count = v.active_count;
    queue_count = v.queue_count;
  }

  linked-Inv :
      (id parent : String) (e : Engine T) (r : Result Rejection (Unit {0}))
      → Inv e
      → Inv (begun id parent (e, r)).0
  unfolding begun
  linked-Inv id parent e (ok u) v = link-Inv id parent e v
  linked-Inv id parent e (err x) v = v

  pub begin_child-Inv :
      (e : Engine T) (id parent : String) → Inv e → Inv (begin_child e id parent).0
  unfolding begin_child
  begin_child-Inv e id parent v =
      if_cases (Leaves Inv) _ _ _ (λ refused. v)
        λ allowed. linked-Inv id parent (begin e id).0 (begin e id).1 (begin-Inv e id v)

  pub unlink-Inv : (id : String) (e : Engine T) → Inv e → Inv (unlink id e)
  unfolding unlink
  unlink-Inv id e v = record {
    requests_unique = v.requests_unique;
    buckets_unique = v.buckets_unique;
    active_count = v.active_count;
    queue_count = v.queue_count;
  }

  forget-Inv : (e : Engine T) (id : String) → Inv e → IsFree (get id e.requests) → Inv (forget id e)
  forget-Inv e id v free = record {
    requests_unique = Unique-remove id e.requests v.requests_unique;
    buckets_unique = v.buckets_unique;
    active_count = λ k.
        ground
          (arith, v.active_count k, total-remove (active_in k) id e.requests v.requests_unique);
    queue_count = λ k other.
        ground (arith, v.queue_count k other, get-remove id other e.requests, ==_iff id other);
  }

  detach-IsFree : (e : Engine T) (id : String) → IsFree (get id (detach e id).requests)
  detach-IsFree e id = elim (Option-cases (get id e.requests)) [
    | inl h ↦ inl (rw (get-detach e id id, ==_refl id, h) refl)
    | inr (p, h) ↦ inr (rw (get-detach e id id, ==_refl id, h) refl)
  ]

  pub end_one-Inv : (id : String) (e : Engine T) → Inv e → Inv (end_one id e)
  unfolding end_one
  end_one-Inv id e v =
      forget-Inv _ id (detach-Inv _ id (unlink-Inv id e v)) (detach-IsFree (unlink id e) id)

  pub complete_loop-Inv :
      (fuel : ℕ) (pending : List String) (e : Engine T) {e' : Engine T}
      → Inv e
      → complete_loop fuel pending e ≡ some e'
      → Inv e'
  unfolding complete_loop
  complete_loop-Inv zero pending e v h = cc
  complete_loop-Inv (suc fuel) [] e {e'} v h = let same : e ≡ e' = cc in subst Inv same v
  complete_loop-Inv (suc fuel) (id ∷ pending) e v h =
      complete_loop-Inv fuel (reverse (or_nil (get id e.children)) ++ pending) (end_one id e)
        (end_one-Inv id e v) h

  pub complete-Inv :
      (e : Engine T) (id : String) {e' : Engine T} → Inv e → complete e id ≡ some e' → Inv e'
  unfolding complete
  complete-Inv e id v h = complete_loop-Inv (child_count e.children + 2) (id ∷ []) e v h

  pub stop-Inv : (e : Engine T) → Inv e → Inv (stop e)
  unfolding stop
  stop-Inv e v = record {
    requests_unique = v.requests_unique;
    buckets_unique = v.buckets_unique;
    active_count = v.active_count;
    queue_count = v.queue_count;
  }

module _ {T : Type 0} ⦃f : F64 T⦄ where
  adopted-Inv :
      (c : Config) (now : ℕ) (e : Engine T)
      → Inv e
      → Inv (record e { buckets = update_all (adopt c now) e.buckets; config = c })
  unfolding adopt refill
  adopted-Inv c now e v = record {
    requests_unique = v.requests_unique;
    buckets_unique = Unique-update_all (adopt c now) e.buckets v.buckets_unique;
    active_count = λ k. ground (arith, v.active_count k, get-update_all (adopt c now) k e.buckets);
    queue_count =
        λ k id. ground (arith, v.queue_count k id, get-update_all (adopt c now) k e.buckets);
  }

  replace_config-Inv :
      (e : Engine T) (c : Config) (now : ℕ) (r : Result String (Unit {0}))
      → Inv e
      → Inv (replace_config e c now r).0
  unfolding replace_config
  replace_config-Inv e c now (err m) v = v
  replace_config-Inv e c now (ok u) v =
      if_cases (Leaves Inv) e.stopping _ _ (λ s. v) (λ s. adopted-Inv c now e v)

  pub reconfigure-Inv : (e : Engine T) (c : Config) (now : ℕ) → Inv e → Inv (reconfigure e c now).0
  unfolding reconfigure
  reconfigure-Inv e c now v = replace_config-Inv e c now (Config.validate c) v
