-- ===== src/Engine/System/Consistent.antt =====
-- Sequences of calls on the engine of src/engine.rs, and its consistency.
use cpa_stg.Base.{Option, none, some, List, [], ◌∷◌, ◌≡◌, refl}
use cpa_stg.Config.{Config}
use cpa_stg.Engine.Admission.{Returned}
use cpa_stg.Engine.Consistent.Attempt.{start_attempt-Inv}
use cpa_stg.Engine.Consistent.Lifecycle.{
  new-Inv, begin-Inv, begin_child-Inv, complete-Inv, stop-Inv, reconfigure-Inv,
}
use cpa_stg.Engine.Consistent.Poll.{poll-Inv}
use cpa_stg.Engine.Consistent.{Inv, Returns}
use cpa_stg.Engine.Family.Complete.{complete-total}
use cpa_stg.Engine.System.{
  Call, begins, begins_child, attempts, polls, completes, reconfigures, stops, left, step, run,
}
use cpa_stg.Engine.{Engine, new}
use cpa_stg.Float.{F64}

module _ {T : Type 0} where
  -- There is an engine after the call, and it is consistent.
  abbrev pub Consistent : Option (Engine T) → Type 0
  Consistent o = (e : Engine T) × (o ≡ some e) × Inv e

  left-Consistent : (r : Returned T) → Returns Inv r → Consistent (left r)
  left-Consistent none v = absurd v
  left-Consistent (some (e, d)) v = (e, refl, v)

module _ {T : Type 0} ⦃f : F64 T⦄ where
  pub step-Consistent : (e : Engine T) (c : Call) → Inv e → Consistent (step e c)
  unfolding step
  step-Consistent e (begins id) v = (_, refl, begin-Inv e id v)
  step-Consistent e (begins_child id parent) v = (_, refl, begin_child-Inv e id parent v)
  step-Consistent e (attempts id name now) v = left-Consistent _ (start_attempt-Inv e id name now v)
  step-Consistent e (polls id now) v = left-Consistent _ (poll-Inv e id now v)
  step-Consistent e (completes id) v =
      let (e', done) = complete-total e id in (e', done, complete-Inv e id v done)
  step-Consistent e (reconfigures c now) v = (_, refl, reconfigure-Inv e c now v)
  step-Consistent e stops v = (_, refl, stop-Inv e v)

  pub run-Consistent : (e : Engine T) (cs : List Call) → Inv e → Consistent (run e cs)
  unfolding run
  run-Consistent e [] v = (e, refl, v)
  run-Consistent e (c ∷ cs) v =
      let (e', done, v') = step-Consistent e c v in rw done (run-Consistent e' cs v')

  -- Whatever calls are made on a new engine, in any order and at any times, all of them return,
  -- with no panic, and leave it consistent: for every credential the bucket's active count is the
  -- number of requests in the active phase on it, and its queue holds every request that is
  -- queued on it once, and no other.
  pub run-new-Consistent : (c : Config) (cs : List Call) → Consistent (run (new {T = T} c) cs)
  run-new-Consistent c cs = run-Consistent (new c) cs (new-Inv c)
