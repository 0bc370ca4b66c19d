-- ===== src/Engine/Rate/Tests.antt =====
-- Admissions of the engine of src/engine.rs at concrete calls.
use cpa_stg.Base.{ℕ, ◌+◌, ◌-◌, ◌*◌, ◌≤◌, some, List, [], ◌∷◌, ◌≡◌, refl, arith, string_eq}
use cpa_stg.Base.Map.{get, insert, retain_map}
use cpa_stg.Config.{default_config, policy}
use cpa_stg.Engine.Rate.Moves.{IsLimited, in_force}
use cpa_stg.Engine.Rate.Run.{run-admissions-le}
use cpa_stg.Engine.Rate.Window.{finish, InOrder, admissions, call_admissions}
use cpa_stg.Engine.System.{step, Call, begins, attempts, polls, run}
use cpa_stg.Engine.System.Kept.{IsSteady}
use cpa_stg.Engine.Types.{credential, idle}
use cpa_stg.Engine.Admission.{
  start_attempt, attempt, attempt_room, ensure_bucket, attempt_bucket, enter, in_use, poll,
  poll_bucket, poll_queued,
}
use cpa_stg.Engine.Buckets.{refill, new_bucket, available, charge, wake_at}
use cpa_stg.Engine.{Engine, new, detach, leave, join_queue, update_bucket}
use cpa_stg.Float.Fixed.{fixed}

abbrev begun_calls : List Call
begun_calls = begins "a" ∷ begins "b" ∷ []

-- The second waits for a second.
abbrev paced_calls : List Call
paced_calls = attempts "a" "one" 10 ∷ attempts "b" "one" 20 ∷ polls "b" 1_000_000_010 ∷ []

one_IsLimited : IsLimited default_config (credential "one")
unfolding policy get
one_IsLimited = record { is_on = refl; limits = λ h. omega (arith, h) }

begun_IsSteady : IsSteady begun_calls
begun_IsSteady = (refl, (refl, tt))

paced_IsSteady : IsSteady paced_calls
paced_IsSteady = (refl, (refl, (refl, tt)))

begun_InOrder : InOrder 0 begun_calls
begun_InOrder = (omega arith, (omega arith, tt))

paced_InOrder : InOrder 10 paced_calls
paced_InOrder = (omega arith, (omega arith, (omega arith, tt)))

not_before : finish 0 begun_calls ≤ 10
not_before = omega arith

run-admissions-le_example :
    (e e' : Engine ℕ) × (run (new default_config) begun_calls ≡ some e)
    × (run e paced_calls ≡ some e')
    × (admissions (credential "one") e paced_calls * 60_000_000_000
        ≤ (in_force default_config (credential "one")).burst * 60_000_000_000
          + (finish 10 paced_calls - 10)
            * (in_force default_config (credential "one")).requests_per_minute)
run-admissions-le_example =
    run-admissions-le default_config (credential "one") one_IsLimited begun_calls begun_IsSteady
      begun_InOrder 10 paced_calls not_before paced_IsSteady paced_InOrder

abbrev registered : Engine ℕ
registered = record (new default_config) { requests = ("a", idle) ∷ ("b", idle) ∷ [] }

-- "a" at once, and "b" in its poll after the second.
two_admissions : admissions (credential "one") registered paced_calls ≡ 2
unfolding admissions call_admissions step new start_attempt attempt policy detach leave attempt_room
    ensure_bucket attempt_bucket refill new_bucket get insert retain_map enter in_use poll
    poll_bucket poll_queued available charge wake_at join_queue update_bucket
two_admissions = refl
