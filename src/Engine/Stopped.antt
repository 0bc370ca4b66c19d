-- ===== src/Engine/Stopped.antt =====
-- src/engine.rs once it is stopping.
use mathlib.Core.Path.{subst}
use cpa_stg.Base.Map.{get, contains_key}
use cpa_stg.Base.Partial.{◌>>=◌}
use cpa_stg.Base.Result.{Result, Result-cases, err}
use cpa_stg.Base.{
  if_true, ℕ, zero, suc, String, true, not, ◌||◌, Option, none, some, List, [], ◌∷◌, ◌≡◌, refl, sym,
  ap, ◌∙◌, inl, inr, Option-cases, if_cases, ◌==◌, string_eq,
}
use cpa_stg.Config
use cpa_stg.Config.{Config}
use cpa_stg.Engine.Admission.{poll, start_attempt, reconfigure, replace_config}
use cpa_stg.Engine.System.{
  Call, begins, begins_child, attempts, polls, completes, reconfigures, stops, left, step, run,
}
use cpa_stg.Engine.Buckets.{Bucket}
use cpa_stg.Engine.Types.{
  ScopeKey, scope_eq, Rejection, stopping, reject, Phase, idle, queued, active,
}
use cpa_stg.Engine.{
  drop_active, drop_queued, Engine, begin, begun, begin_child, detach, leave, update_bucket,
  end_one, unlink, complete_loop, complete, stop,
}
use cpa_stg.Float.{F64}

module _ {T : Type 0} where
  -- It is stopping, or there was a panic.
  pub data Stopping : Option (Engine T) → Type 0 where
    panicked : Stopping none
    halted : (e : Engine T) → e.stopping ≡ true → Stopping (some e)

  update_bucket-stopping :
      (key : ScopeKey) (g : Bucket T → Bucket T) (e : Engine T)
      → (update_bucket key g e).stopping ≡ e.stopping
  unfolding update_bucket
  update_bucket-stopping key g e = elim (Option-cases (get key e.buckets)) [
    | inl h ↦ rw (h, update_bucket) refl
    | inr (b, h) ↦ rw (h, update_bucket) refl
  ]

  leave-stopping :
      (id : String) (phase : Phase) (e : Engine T) → (leave id phase e).stopping ≡ e.stopping
  leave-stopping id idle e = unfold leave in refl
  leave-stopping id (active key) e = unfold leave in update_bucket-stopping key drop_active e
  leave-stopping id (queued key deadline) e =
      unfold leave in update_bucket-stopping key (drop_queued id) e

  detach-stopping : (e : Engine T) (id : String) → (detach e id).stopping ≡ e.stopping
  unfolding detach
  detach-stopping e id = elim (Option-cases (get id e.requests)) [
    | inl h ↦ rw (h, detach) refl
    | inr (phase, h) ↦ rw (h, detach) (leave-stopping id phase _)
  ]

  end_one-stopping : (id : String) (e : Engine T) → (end_one id e).stopping ≡ e.stopping
  unfolding end_one unlink
  end_one-stopping id e = detach-stopping (unlink id e) id

  pub complete_loop-Stopping :
      (fuel : ℕ) (pending : List String) (e : Engine T)
      → e.stopping ≡ true
      → Stopping (complete_loop fuel pending e)
  unfolding complete_loop
  complete_loop-Stopping zero pending e h = panicked
  complete_loop-Stopping (suc fuel) [] e h = halted e h
  complete_loop-Stopping (suc fuel) (id ∷ pending) e h =
      complete_loop-Stopping fuel _ (end_one id e) (end_one-stopping id e ∙ h)

  pub begin-stopping :
      (e : Engine T) (id : String) → e.stopping ≡ true → begin e id ≡ (e, err stopping)
  unfolding begin
  begin-stopping e id h = if_true _ _ _ h

  pub begin_child-stopping :
      (e : Engine T) (id parent : String) → e.stopping ≡ true → (begin_child e id parent).0 ≡ e
  unfolding begin_child begun
  begin_child-stopping e id parent h =
      if_cases (λ (r : Engine T × Result Rejection (Unit {0})). r.0 ≡ e)
        (id == parent || not (contains_key parent e.requests) || contains_key id e.requests) _ _
        (λ refused. refl) (λ fine. ap (λ r. (begun id parent r).0) (begin-stopping e id h))

module _ {T : Type 0} ⦃f : F64 T⦄ where
  pub start_attempt-stopping :
      (e : Engine T) (id name : String) (now : ℕ)
      → e.stopping ≡ true
      → start_attempt e id name now ≡ some (e, reject stopping)
  unfolding start_attempt
  start_attempt-stopping e id name now h = if_true _ _ _ h

  pub poll-stopping :
      (e : Engine T) (id : String) (now : ℕ)
      → e.stopping ≡ true
      → poll e id now ≡ some (detach e id, reject stopping)
  unfolding poll
  poll-stopping e id now h = if_true _ _ _ h

  pub reconfigure-stopping :
      (e : Engine T) (c : Config) (now : ℕ) → e.stopping ≡ true → (reconfigure e c now).0 ≡ e
  unfolding reconfigure replace_config
  reconfigure-stopping e c now h = elim (Result-cases (Config.validate c)) [
    | inl (done, k) ↦
        rw (k, replace_config)
          (ap (λ (r : Engine T × Result String (Unit {0})). r.0) (if_true _ _ _ h))
    | inr (message, k) ↦ rw (k, replace_config) refl
  ]

  pub step-Stopping : (e : Engine T) (call : Call) → e.stopping ≡ true → Stopping (step e call)
  unfolding step
  step-Stopping e (begins id) h = halted _ (ap (λ r. r.0.stopping) (begin-stopping e id h) ∙ h)
  step-Stopping e (begins_child id parent) h =
      halted _ (ap (λ x. x.stopping) (begin_child-stopping e id parent h) ∙ h)
  step-Stopping e (attempts id name now) h =
      subst (λ o. Stopping (left o)) (sym (start_attempt-stopping e id name now h)) (halted e h)
  step-Stopping e (polls id now) h =
      subst (λ o. Stopping (left o)) (sym (poll-stopping e id now h))
        (halted (detach e id) (detach-stopping e id ∙ h))
  step-Stopping e (completes id) h = unfold complete in complete_loop-Stopping _ _ e h
  step-Stopping e (reconfigures c now) h =
      halted _ (ap (λ x. x.stopping) (reconfigure-stopping e c now h) ∙ h)
  step-Stopping e stops h = unfold stop in halted _ refl

  pub on_Stopping :
      (k : Engine T → Option (Engine T)) (o : Option (Engine T))
      → ((e : Engine T) → e.stopping ≡ true → Stopping (k e))
      → Stopping o
      → Stopping (o >>= k)
  on_Stopping k none each panicked = panicked
  on_Stopping k (some _) each (halted e h) = each e h

  -- An engine that is stopping is so after any calls.
  pub run-Stopping : (calls : List Call) (e : Engine T) → e.stopping ≡ true → Stopping (run e calls)
  unfolding run
  run-Stopping [] e h = halted e h
  run-Stopping (call ∷ calls) e h =
      on_Stopping (λ e'. run e' calls) (step e call) (λ e' k. run-Stopping calls e' k)
        (step-Stopping e call h)
