-- ===== src/Engine/Tests.antt =====
-- Runs of the engine of src/engine.rs on small inputs, in exact arithmetic, and the theorems about
-- it at such inputs.
use cpa_stg.Base.Map.{get}
use cpa_stg.Base.{ℕ, false, none, some, [], ◌∷◌, ◌≡◌, refl, arith, string_eq}
use cpa_stg.Config.{default_policy, policy}
use cpa_stg.Engine.Admission.{start_attempt, in_use, poll, reconfigure}
use cpa_stg.Engine.Buckets.{new_bucket, refill}
use cpa_stg.Base.Result.{ok}
use cpa_stg.Config.{
  validate, validate_limits, validate_count, validate_overrides, validate_policy, in_range,
}
use cpa_stg.Config.Valid.{validate_policy-ok_iff, IsValid}
use cpa_stg.ErrorMapping
use cpa_stg.Engine.Buckets.{Bucket}
use cpa_stg.Engine.Outcome.Attempt.{AttemptOutcome}
use cpa_stg.Engine.Outcome.Start.{start_attempt-Outcome}
use cpa_stg.Engine.Reconfigure.{Adopted, reconfigure_applies}
use cpa_stg.Engine.Tokens.{RatesFit, dropped_is_new}
use cpa_stg.Base.{◌↔◌, ap, true, ◌==◌, ◌≤◌, ◌≢◌}
use cpa_stg.Base.Map.Totals.{total}
use cpa_stg.Engine.Consistent.{active_in}
use cpa_stg.Engine.Outcome.{Answers, PollOutcome, is_on, poll-Outcome}
use cpa_stg.Engine.Outcome.Queue.{Served, queue_at, poll-Served}
use cpa_stg.Engine.System.Kept.{
  IsSteady, limit, AtBucket, run-active-le, run-Within, run-tokens-InBurst,
}
use cpa_stg.Engine.Limits.{Within}
use cpa_stg.Engine.Tokens.{RatesFit, InBurst}
use cpa_stg.Engine.Types.{scope_eq}
use cpa_stg.Float.Laws.{fixed_laws}
use cpa_stg.Engine.Family.{root, nested, Below}
use cpa_stg.Engine.Family.Complete.{complete_ends_family, complete_keeps_rest}
use cpa_stg.Engine.System.{run}
use cpa_stg.Engine.System.Consistent.{Consistent, run-new-Consistent}
use cpa_stg.Engine.Types.{credential, active, queued}
use cpa_stg.Engine.{Engine, new, complete}
use cpa_stg.Engine.Samples.{
  narrow_config, two_calls, contended, contended-Inv, contended_bucket, charged,
}
use cpa_stg.Float.Fixed.{fixed}

apart : ¬ Below contended ("b" ∷ []) "a"
unfolding get
apart (root h) = omega arith
apart (nested {parent = p} d c) = ground arith

limited : limit narrow_config (credential "one") ≢ 0
unfolding policy get
limited h = omega arith

steady : IsSteady two_calls
steady = (refl, (refl, (refl, (refl, tt))))

other_credential : credential "two" ≢ credential "one"
other_credential h = let t : false ≡ true = ap (λ k. k == credential "one") h in ground arith

run-new-Consistent_example : Consistent (run (new {T = ℕ} narrow_config) two_calls)
run-new-Consistent_example = run-new-Consistent narrow_config two_calls

waits_on : get "b" contended.requests ≡ some (queued (credential "one") 30_000_000_005)
unfolding get
waits_on = refl

complete_ends_family_example :
    (e' : Engine ℕ) × (complete contended "a" ≡ some e') × (get "b" e'.requests ≡ none)
unfolding get
complete_ends_family_example =
    complete_ends_family contended "a" (nested {parent = "a"} (root (omega arith)) (omega arith))

complete_keeps_rest_example :
    (e' : Engine ℕ) × (complete contended "b" ≡ some e')
    × (get "a" e'.requests ≡ get "a" contended.requests)
complete_keeps_rest_example = complete_keeps_rest contended "b" "a" apart

poll-Served_example :
    Answers
      (λ e' r.
        Served "b"
          (is_on (get (credential "one") contended.buckets))
          (queue_at (credential "one") contended)
          (queue_at (credential "one") e')
          r)
      (poll contended "b" 7)
poll-Served_example =
    poll-Served (credential "one") 30_000_000_005 7 "b" contended contended-Inv refl waits_on

poll-Outcome_example :
    Answers
      (λ e' r.
        PollOutcome
          (credential "one")
          30_000_000_005
          7
          (is_on (get (credential "one") contended.buckets))
          (get "b" e'.requests)
          r)
      (poll contended "b" 7)
poll-Outcome_example =
    poll-Outcome (credential "one") 30_000_000_005 7 "b" contended contended-Inv refl waits_on

run-active-le_example :
    (e : Engine ℕ) × (run (new narrow_config) two_calls ≡ some e)
    × (total (active_in (credential "one")) e.requests ≤ limit narrow_config (credential "one"))
run-active-le_example = run-active-le narrow_config two_calls (credential "one") steady limited

run-Within_example :
    (e : Engine ℕ) × (run (new narrow_config) two_calls ≡ some e)
    × AtBucket (Within narrow_config (credential "one")) (get (credential "one") e.buckets)
run-Within_example = run-Within narrow_config two_calls (credential "one") steady

narrow_RatesFit : RatesFit narrow_config
unfolding policy get
narrow_RatesFit name = omega arith

run-tokens-InBurst_example :
    (e : Engine ℕ) × (run (new narrow_config) two_calls ≡ some e)
    × AtBucket (InBurst (credential "one")) (get (credential "one") e.buckets)
run-tokens-InBurst_example =
    run-tokens-InBurst fixed_laws narrow_config two_calls (credential "one") narrow_RatesFit steady

start_attempt-Outcome_example :
    Answers
      (λ e' r.
        AttemptOutcome
          (credential "one")
          "a"
          ("b" ∷ [])
          30_000_000_009
          (get "a" e'.requests)
          (queue_at (credential "one") e')
          r)
      (start_attempt contended "a" "one" 9)
unfolding policy get
start_attempt-Outcome_example =
    start_attempt-Outcome contended "a" "one" 9 (active (credential "one")) contended-Inv refl refl
      refl refl refl

dropped_is_new_example : refill charged 1_000_000_003 ≡ new_bucket default_policy 1_000_000_003
unfolding in_use refill
dropped_is_new_example =
    dropped_is_new fixed_laws (credential "one") charged 1_000_000_003
      (record { nonneg = refl; at_most = refl; rate_fits = omega arith }) (λ h. omega (arith, h))
      refl

narrow_is_valid : validate narrow_config ≡ ok tt
unfolding validate validate_limits validate_count validate_overrides validate_policy in_range
    ErrorMapping.validate
narrow_is_valid = refl

reconfigure_applies_example :
    ((reconfigure contended narrow_config 9).1 ≡ ok tt)
    × ((reconfigure contended narrow_config 9).0.config ≡ narrow_config)
    × ((reconfigure contended narrow_config 9).0.requests ≡ contended.requests)
    × ((b' : Bucket ℕ) × (get (credential "one") (reconfigure contended narrow_config 9).0.buckets
          ≡ some b')
        × Adopted narrow_config (credential "one") contended_bucket b')
unfolding get
reconfigure_applies_example =
    reconfigure_applies contended narrow_config 9 (credential "one") contended_bucket
      narrow_is_valid refl refl

validate_policy-ok_iff_example : (validate_policy default_policy ≡ ok tt) ↔ IsValid default_policy
validate_policy-ok_iff_example = validate_policy-ok_iff default_policy
