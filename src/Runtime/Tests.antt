-- ===== src/Runtime/Tests.antt =====
-- A panic and two waits of src/runtime.rs on small engines. In the first, "a" gives up its slot,
-- waits behind "b", and is woken when "b" is complete; in the second, "b" waits for a token.
use cpa_stg.Base.{ℕ, true, some, inl, arith, false, ◌≡◌, [], ◌∷◌, refl, List, string_eq}
use cpa_stg.Base.Map.{get}
use cpa_stg.Engine.Samples.{contended, contended-Inv, lone, lone-Inv}
use cpa_stg.Base.Map.{insert}
use cpa_stg.Config.{default_policy, policy}
use cpa_stg.Engine.Buckets.{refill, available, wake_at}
use cpa_stg.Engine.Admission.{
  poll, poll_queued, poll_bucket, start_attempt, attempt, attempt_room, ensure_bucket,
  attempt_bucket,
}
use cpa_stg.Engine.System.{Call, begins, run, step, polls, completes}
use cpa_stg.Engine.Types.{credential, queued, active, wait_until, scope_eq}
use cpa_stg.Engine.{Engine, detach, leave, join_queue, begin}
use cpa_stg.Engine.Rate.Window.{InOrder}
use cpa_stg.Runtime.Notify.{silent, notifies}
use cpa_stg.Runtime.Notify.Told.{silent-waits}
use cpa_stg.Float.Fixed.{fixed}
use cpa_stg.Runtime.Lock.{Runtime, lock, serve, Refuses, serve-Refuses}
use cpa_stg.Runtime.Acquire.{IsDone, AcquireOutcome, acquire-AcquireOutcome}
use cpa_stg.Runtime.{Round, acquire}

abbrev wakes : List Round
wakes = (completes "b" ∷ [], 8) ∷ []

contended-IsDone : IsDone "a" contended
unfolding get
contended-IsDone = refl

acquire-AcquireOutcome_example : AcquireOutcome "a" 8 (acquire contended "a" "one" 6 wakes)
acquire-AcquireOutcome_example =
    acquire-AcquireOutcome "a" contended "one" 6 wakes contended-Inv contended-IsDone

-- Another thread has quiesced the plugin.
abbrev quiesced : Runtime ℕ
quiesced = record { engine = record contended { stopping = true }; poisoned = false }

serve-Refuses_example :
    Refuses (lock (serve quiesced ((polls "a" 7, contended) ∷ (completes "a", contended) ∷ [])))
serve-Refuses_example =
    serve-Refuses quiesced ((polls "a" 7, contended) ∷ (completes "a", contended) ∷ []) (inl refl)

-- "b" waits for a second.
abbrev dozing : Engine ℕ
dozing = record lone {
  requests =
      ("a", active (credential "one")) ∷ ("b", queued (credential "one") 30_000_000_000) ∷ [];
  buckets =
      (
        credential "one",
        record { policy = default_policy; tokens = 0; updated = 0; active = 1; queue = "b" ∷ [] },
      )
      ∷ [];
}

told : start_attempt lone "b" "one" 0 ≡ some (dozing, wait_until 1_000_000_000)
unfolding start_attempt attempt policy detach leave attempt_room ensure_bucket attempt_bucket refill
    get insert join_queue poll poll_queued poll_bucket available wake_at
told = refl

abbrev quiet_calls : List Call
quiet_calls = begins "c" ∷ polls "b" 400 ∷ []

is_silent : silent dozing quiet_calls ≡ true
unfolding silent notifies step begin get insert poll poll_queued poll_bucket refill available
    wake_at
is_silent = refl

quiet_InOrder : InOrder 0 quiet_calls
quiet_InOrder = (omega arith, (omega arith, tt))

silent-waits_example :
    (e2 : Engine ℕ) × (run dozing quiet_calls ≡ some e2)
    × (r : Engine ℕ × ℕ) × (poll e2 "b" 999_999_999 ≡ some (r.0, wait_until r.1))
silent-waits_example =
    silent-waits "b" 0 1_000_000_000 lone dozing lone-Inv (inl ("one", told)) quiet_calls is_silent
      quiet_InOrder 999_999_999 (omega arith) (omega arith)
