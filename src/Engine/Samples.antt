-- ===== src/Engine/Samples.antt =====
-- Small engines, calls and buckets of src/engine.rs, in exact arithmetic.
use cpa_stg.Base.{ℕ, false, List, [], ◌∷◌, Option, some, ◌≡◌, refl, string_eq, sym, ◌∙◌}
use cpa_stg.Config.{Config, Policy, default_config, default_policy, policy}
use cpa_stg.Engine.Buckets.{Bucket, new_bucket, refill, available, charge, wake_at}
use cpa_stg.Engine.System.{Call, begins, begins_child, attempts, step, run}
use cpa_stg.Engine.Types.{credential, idle, active, queued, scope_eq}
use cpa_stg.Engine.{
  Engine, new, begin, begin_child, begun, link, detach, leave, complete, complete_loop, drop_child,
  end_one, join_queue, stop, unlink, update_bucket,
}
use cpa_stg.Base.Map.{get, insert, remove, retain_map, update_all}
use cpa_stg.Engine.Admission.{
  start_attempt, attempt, attempt_room, ensure_bucket, attempt_bucket, adopt, enter, in_use, poll,
  poll_bucket, poll_queued, reconfigure, replace_config,
}
use mathlib.Core.Path.{subst}
use cpa_stg.Engine.Consistent.{Inv}
use cpa_stg.Engine.System.Consistent.{run-new-Consistent}
use cpa_stg.Float.Fixed.{fixed}

-- One request at a time, at any rate.
abbrev narrow : Policy
narrow = record default_policy { requests_per_minute = 0; max_concurrency = 1 }

abbrev pub narrow_config : Config
narrow_config = record default_config { credentials = record { default = narrow; overrides = [] } }

abbrev pub two_calls : List Call
two_calls = begins "a" ∷ begins_child "b" "a" ∷ attempts "a" "one" 0 ∷ attempts "b" "one" 5 ∷ []

abbrev pub contended_bucket : Bucket ℕ
contended_bucket = record {
  policy = narrow;
  tokens = 60_000_000_000;
  updated = 5;
  active = 1;
  queue = "b" ∷ [];
}

-- "a" has the slot of "one", and "b", nested in "a", waits for it.
abbrev pub contended : Engine ℕ
contended = record {
  config = narrow_config;
  requests =
      ("a", active (credential "one")) ∷ ("b", queued (credential "one") 30_000_000_005) ∷ [];
  parents = ("b", "a") ∷ [];
  children = ("a", "b" ∷ []) ∷ [];
  buckets = (credential "one", contended_bucket) ∷ [];
  stopping = false;
}

-- A bucket in debt.
abbrev pub charged : Bucket ℕ
charged = record { policy = default_policy; tokens = 0; updated = 3; active = 0; queue = [] }

-- `run`, with all that it computes through.
simulate : Engine ℕ → List Call → Option (Engine ℕ)
unfolding run step new start_attempt begin_child begin begun link attempt policy detach leave
    attempt_room ensure_bucket attempt_bucket refill new_bucket get insert remove retain_map
    update_all adopt enter in_use poll poll_bucket poll_queued reconfigure replace_config available
    charge wake_at complete complete_loop drop_child end_one join_queue stop unlink update_bucket
simulate = run

simulate-two_calls : simulate (new narrow_config) two_calls ≡ some contended
unfolding simulate
simulate-two_calls = refl

run-two_calls : run (new narrow_config) two_calls ≡ some contended
unfolding simulate
run-two_calls = simulate-two_calls

pub contended-Inv : Inv contended
contended-Inv =
    let (e, done, v) = run-new-Consistent narrow_config two_calls in
    let same : e ≡ contended = let h = sym done ∙ run-two_calls in cc in subst Inv same v

-- One request at a time passes in a second: "a" has taken the token of "one", and "b" comes next.
abbrev lone_calls : List Call
lone_calls = begins "a" ∷ begins "b" ∷ attempts "a" "one" 0 ∷ []

abbrev pub lone : Engine ℕ
lone = record {
  config = default_config;
  requests = ("a", active (credential "one")) ∷ ("b", idle) ∷ [];
  parents = [];
  children = [];
  buckets =
      (
        credential "one",
        record { policy = default_policy; tokens = 0; updated = 0; active = 1; queue = [] },
      )
      ∷ [];
  stopping = false;
}

simulate-lone_calls : simulate (new default_config) lone_calls ≡ some lone
unfolding simulate
simulate-lone_calls = refl

run-lone_calls : run (new default_config) lone_calls ≡ some lone
unfolding simulate
run-lone_calls = simulate-lone_calls

pub lone-Inv : Inv lone
lone-Inv =
    let (e, done, v) = run-new-Consistent default_config lone_calls in
    let same : e ≡ lone = let h = sym done ∙ run-lone_calls in cc in subst Inv same v
