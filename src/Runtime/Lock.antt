-- ===== src/Runtime/Lock.antt =====
-- src/runtime.rs: the mutex around the engine. A thread that panics while it holds the lock
-- poisons it.
use cpa_stg.Base.Result.{err}
use cpa_stg.Base.{
  ℕ, String, Bool, true, false, Option, none, some, List, [], ◌∷◌, ◌≡◌, refl, ap, inl, inr,
  if◌then◌else◌, ◌⊎◌, Bool-cases, ◌∙◌,
}
use cpa_stg.Config.{default_config}
use cpa_stg.Engine.Admission.{start_attempt, poll}
use cpa_stg.Engine.Stopped.{
  begin-stopping, begin_child-stopping, start_attempt-stopping, poll-stopping, Stopping, panicked,
  halted, step-Stopping,
}
use cpa_stg.Engine.System.{Call, step}
use cpa_stg.Engine.Types.{stopping, reject}
use cpa_stg.Engine.{Engine, new, begin, begin_child, detach, stop, counts, map_error}
use cpa_stg.ErrorMapping.{RetryableError}
use cpa_stg.Json.{Value}
use cpa_stg.Float.{F64}

pub record Runtime (T : Type 0) : Type 0 where
  pub engine : Engine T
  pub poisoned : Bool

module _ {T : Type 0} where
  abbrev pub default : Runtime T
  default = record { engine = new default_config; poisoned = false }

  -- What a thread that locks the mutex finds.
  unfoldable pub lock : Runtime T → Engine T
  lock r = if r.poisoned then stop r.engine else r.engine

  -- The methods that only read: `counts` and `map_error`.
  abbrev locked_counts : Runtime T → ℕ × ℕ × ℕ
  locked_counts r = counts (lock r)

  abbrev locked_map_error : Runtime T → ℕ → Value → Option RetryableError
  locked_map_error r status failure = map_error (lock r) status failure

  module _ ⦃f : F64 T⦄ where
    -- A method that makes one call of the engine under the lock. A panic leaves some engine behind.
    unfoldable pub perform : Runtime T → Call → Engine T → Runtime T
    perform r call left_by_panic = elim (step (lock r) call) [
      | some e ↦ record { engine = e; poisoned = r.poisoned }
      | none ↦ record { engine = left_by_panic; poisoned = true }
    ]

    -- The calls of any threads, each with the engine that it leaves if it panics.
    unfoldable pub serve : Runtime T → List (Call × Engine T) → Runtime T
    serve r [] = r
    serve r ((call, broken) ∷ calls) = serve (perform r call broken) calls

    -- It takes on no request and admits none.
    pub record Refuses (e : Engine T) : Type 0 where
      pub no_begin : (id : String) → begin e id ≡ (e, err stopping)
      pub no_child : (id parent : String) → (begin_child e id parent).0 ≡ e
      pub no_attempt :
          (id name : String) (now : ℕ) → start_attempt e id name now ≡ some (e, reject stopping)
      pub no_poll : (id : String) (now : ℕ) → poll e id now ≡ some (detach e id, reject stopping)

    lock-poisoned : (r : Runtime T) → r.poisoned ≡ true → (lock r).stopping ≡ true
    unfolding lock stop
    lock-poisoned r h = ap (λ (b : Bool). (if b then stop r.engine else r.engine).stopping) h

    lock-running : (r : Runtime T) → r.poisoned ≡ false → lock r ≡ r.engine
    unfolding lock
    lock-running r h = ap (λ (b : Bool). if b then stop r.engine else r.engine) h

    lock-stopping : (r : Runtime T) → r.engine.stopping ≡ true → (lock r).stopping ≡ true
    lock-stopping r h = elim (Bool-cases r.poisoned) [
      | inl poison ↦ lock-poisoned r poison
      | inr runs ↦ ap (λ (e : Engine T). e.stopping) (lock-running r runs) ∙ h
    ]

    after : Runtime T → Engine T → Option (Engine T) → Runtime T
    after r left_by_panic o = elim o [
      | some e ↦ record { engine = e; poisoned = r.poisoned }
      | none ↦ record { engine = left_by_panic; poisoned = true }
    ]

    after-stopping :
        (r : Runtime T) (broken : Engine T) (o : Option (Engine T))
        → Stopping o
        → (lock (after r broken o)).stopping ≡ true
    unfolding after
    after-stopping r broken none panicked = lock-poisoned _ refl
    after-stopping r broken (some _) (halted e h) = lock-stopping _ h

    perform-stopping :
        (r : Runtime T) (call : Call) (broken : Engine T)
        → (lock r).stopping ≡ true
        → (lock (perform r call broken)).stopping ≡ true
    unfolding perform after
    perform-stopping r call broken h =
        after-stopping r broken (step (lock r) call) (step-Stopping (lock r) call h)

    serve-stopping :
        (calls : List (Call × Engine T)) (r : Runtime T)
        → (lock r).stopping ≡ true
        → (lock (serve r calls)).stopping ≡ true
    unfolding serve
    serve-stopping [] r h = h
    serve-stopping ((call, broken) ∷ calls) r h =
        serve-stopping calls (perform r call broken) (perform-stopping r call broken h)

    stopping-Refuses : (e : Engine T) → e.stopping ≡ true → Refuses e
    stopping-Refuses e h = record {
      no_begin = λ id. begin-stopping e id h;
      no_child = λ id parent. begin_child-stopping e id parent h;
      no_attempt = λ id name now. start_attempt-stopping e id name now h;
      no_poll = λ id now. poll-stopping e id now h;
    }

    -- Let the engine of a runtime be stopping, or the mutex be poisoned. After any further
    -- calls, some that panic among them whatever these leave behind, every thread that locks the
    -- mutex finds an engine that begins no request, nested or not, and admits none, neither at
    -- once nor from a queue.
    pub serve-Refuses :
        (r : Runtime T) (calls : List (Call × Engine T))
        → (r.engine.stopping ≡ true) ⊎ (r.poisoned ≡ true)
        → Refuses (lock (serve r calls))
    serve-Refuses r calls (inl h) = stopping-Refuses _ (serve-stopping calls r (lock-stopping r h))
    serve-Refuses r calls (inr h) = stopping-Refuses _ (serve-stopping calls r (lock-poisoned r h))
