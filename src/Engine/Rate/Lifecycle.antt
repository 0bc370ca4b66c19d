-- ===== src/Engine/Rate/Lifecycle.antt =====
-- The calls on the engine of src/engine.rs that begin, complete and stop, and the tokens of one
-- credential, in exact arithmetic.
use mathlib.Core.Path.{subst}
use cpa_stg.Base.Map.{get}
use cpa_stg.Base.Result.{Result, ok, err}
use cpa_stg.Base.{
  ℕ, zero, suc, ◌+◌, String, some, List, [], ◌∷◌, ◌++◌, ◌≡◌, refl, sym, arith, if_cases, reverse,
  string_eq, ℕ_eq,
}
use cpa_stg.Config.{Config}
use cpa_stg.Engine.Rate.Moves.{IsLimited, CoversAt, Room, detach-Room}
use cpa_stg.Engine.Types.{ScopeKey, scope_eq, Rejection}
use cpa_stg.Engine.{
  Engine, begin, begin_child, begun, link, detach, unlink, end_one, complete_loop, complete,
  child_count, or_nil, stop,
}
use cpa_stg.Float.Fixed.{fixed}

module _ (c : Config) (k : ScopeKey) (l : IsLimited c k) (now m n : ℕ) where
  abbrev Ok : Engine ℕ → Type 0
  Ok e = Room c k l now m n e

  same_room : (e e' : Engine ℕ) → e'.config ≡ e.config → e'.buckets ≡ e.buckets → Ok e → Ok e'
  same_room e e' config buckets r = record {
    same_config = rw config r.same_config;
    covers = subst (λ bs. CoversAt c k l now m n (get k bs)) (sym buckets) r.covers;
  }

  pub begin-Room : (e : Engine ℕ) (id : String) → Ok e → Ok (begin e id).0
  unfolding begin
  begin-Room e id r = same_room e _ (ground arith) (ground arith) r

  begun-Room :
      (id parent : String) (e : Engine ℕ) (o : Result Rejection (Unit {0}))
      → Ok e
      → Ok (begun id parent (e, o)).0
  unfolding begun link
  begun-Room id parent e (ok u) r = same_room e _ refl refl r
  begun-Room id parent e (err x) r = r

  pub begin_child-Room : (e : Engine ℕ) (id parent : String) → Ok e → Ok (begin_child e id parent).0
  unfolding begin_child
  begin_child-Room e id parent r =
      if_cases (λ (x : Engine ℕ × Result Rejection (Unit {0})). Ok x.0) _ _ _ (λ refused. r)
        λ allowed. begun-Room id parent (begin e id).0 (begin e id).1 (begin-Room e id r)

  end_one-Room : (id : String) (e : Engine ℕ) → Ok e → Ok (end_one id e)
  unfolding end_one unlink
  end_one-Room id e r =
      same_room (detach (unlink id e) id) _ refl refl
        (detach-Room c k l now m n (unlink id e) id (same_room e _ refl refl r))

  complete_loop-Room :
      (fuel : ℕ) (pending : List String) (e : Engine ℕ) {e' : Engine ℕ}
      → Ok e
      → complete_loop fuel pending e ≡ some e'
      → Ok e'
  unfolding complete_loop
  complete_loop-Room zero pending e r h = cc
  complete_loop-Room (suc fuel) [] e {e'} r h = let same : e ≡ e' = cc in subst Ok same r
  complete_loop-Room (suc fuel) (id ∷ pending) e r h =
      complete_loop-Room fuel (reverse (or_nil (get id e.children)) ++ pending) (end_one id e)
        (end_one-Room id e r) h

  pub complete-Room :
      (e : Engine ℕ) (id : String) {e' : Engine ℕ} → Ok e → complete e id ≡ some e' → Ok e'
  unfolding complete
  complete-Room e id r h = complete_loop-Room (child_count e.children + 2) (id ∷ []) e r h

  pub stop-Room : (e : Engine ℕ) → Ok e → Ok (stop e)
  unfolding stop
  stop-Room e r = same_room e _ refl refl r
