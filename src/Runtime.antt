-- ===== src/Runtime.antt =====
-- src/runtime.rs: `Runtime::acquire`, the wait of one thread for its decision, while other threads
-- call the engine under the mutex whenever this one waits for the condition variable.
pub mod Acquire
pub mod Lock
pub mod Notify
mod Tests
use cpa_stg.Base.Partial.{◌>>=◌}
use cpa_stg.Base.Result.{Result, ok, err}
use cpa_stg.Base.{ℕ, String, Option, none, some, List, [], ◌∷◌}
use cpa_stg.Engine.Admission.{start_attempt, poll}
use cpa_stg.Engine.System.{Call, run}
use cpa_stg.Engine.Types.{Rejection, Decision, admit, wait_until, reject}
use cpa_stg.Engine.{Engine}
use cpa_stg.Float.{F64}

-- One wait: the calls that others make meanwhile, and the time at which the thread is woken, by a
-- notification, by the timeout or for no reason.
abbrev pub Round : Type 0
Round = List Call × ℕ

-- A thread has returned from `acquire`, or it waits until a time.
pub data Acquired : Type 0 where
  returned : Result Rejection (Unit {0}) → Acquired
  waiting : ℕ → Acquired

module _ {T : Type 0} ⦃f : F64 T⦄ where
  -- The loop of `acquire`, over the rounds that there are. `none` is a panic.
  unfoldable pub follow : String → List Round → Engine T × Decision → Option (Engine T × Acquired)
  follow id rounds (e, admit) = some (e, returned (ok tt))
  follow id rounds (e, reject reason) = some (e, returned (err reason))
  follow id [] (e, wait_until deadline) = some (e, waiting deadline)
  follow id ((others, now) ∷ rounds) (e, wait_until deadline) = do
    e' ← run e others
    decision ← poll e' id now
    follow id rounds decision

  unfoldable pub acquire :
      Engine T → String → String → ℕ → List Round → Option (Engine T × Acquired)
  acquire e id credential now rounds = do
    decision ← start_attempt e id credential now
    follow id rounds decision
