-- ===== src/Runtime/Notify/Told.antt =====
-- src/runtime.rs: a thread in `acquire` whose condition variable is not notified, in exact
-- arithmetic.
use mathlib.Core.Path.{subst}
use cpa_stg.Base.Map.{get}
use cpa_stg.Base.{
  ℕ, ◌≤◌, ◌<◌, String, Bool, true, false, not, ◌&&◌, Option, none, some, List, ◌≡◌, inl, inr, ◌⊎◌,
  string_eq, leb, Option-cases, if_cases, is_empty, length,
}
use cpa_stg.Config
use cpa_stg.Config.{Config}
use cpa_stg.Engine.Admission.{
  poll, attempt_bucket, attempt_room, attempt, ensure_bucket, start_attempt,
}
use cpa_stg.Engine.Buckets.{Bucket, refill, available}
use cpa_stg.Engine.Consistent.{Inv, Returns}
use cpa_stg.Engine.Consistent.Attempt.{start_attempt-Inv}
use cpa_stg.Engine.Consistent.Poll.{poll-Inv}
use cpa_stg.Engine.Rate.Window.{finish, InOrder}
use cpa_stg.Engine.System.{Call, run}
use cpa_stg.Engine.System.Consistent.{run-Consistent}
use cpa_stg.Engine.Types.{
  ScopeKey, credential, scope_eq, Decision, admit, wait_until, reject, idle, active, queued,
}
use cpa_stg.Engine.{Engine, detach, join_queue}
use cpa_stg.Float.Fixed.{fixed}
use cpa_stg.Runtime.Notify.{silent, SleptIf, poll-Slept}
use cpa_stg.Runtime.Notify.Asleep.{Asleep, Slept-Asleep}
use cpa_stg.Runtime.Notify.Silent.{onward, run-Asleep, poll-still}

-- What a decision to wait promises.
abbrev SleepsIf : String → ℕ → Option (Engine ℕ × Decision) → Type 0
SleepsIf id now none = Unit
SleepsIf id now (some (e', wait_until w)) = Asleep id w now e'
SleepsIf id now (some (e', admit)) = Unit
SleepsIf id now (some (e', reject reason)) = Unit

module _ (id : String) (now : ℕ) where
  if_slept :
      (e : Engine ℕ) (o : Option (Engine ℕ × Decision)) → SleptIf id now e o → SleepsIf id now o
  if_slept e none z = tt
  if_slept e (some (e', wait_until w)) z = Slept-Asleep id w now e e' z
  if_slept e (some (e', admit)) z = tt
  if_slept e (some (e', reject reason)) z = tt

  poll-SleepsIf : (e : Engine ℕ) → SleepsIf id now (poll e id now)
  poll-SleepsIf e = if_slept e (poll e id now) (poll-Slept id now e)

  attempt_bucket-SleepsIf :
      (key : ScopeKey) (b : Bucket ℕ) (e : Engine ℕ)
      → SleepsIf id now (attempt_bucket key id now b e)
  unfolding attempt_bucket
  attempt_bucket-SleepsIf key b e =
      if_cases (SleepsIf id now) (is_empty b.queue && available b) _ _ (λ room. tt)
        (λ busy.
          if_cases (SleepsIf id now) (leb b.policy.max_queue (length b.queue)) _ _ (λ full. tt)
            (λ space. poll-SleepsIf (join_queue key id now b e)))

  attempt_room-SleepsIf :
      (key : ScopeKey) (e : Engine ℕ) (room : Bool)
      → SleepsIf id now (attempt_room key id now (e, room))
  unfolding attempt_room
  attempt_room-SleepsIf key e false = tt
  attempt_room-SleepsIf key e true = elim (Option-cases (get key e.buckets)) [
    | inl gone ↦ rw gone tt
    | inr (b, found) ↦ rw found (attempt_bucket-SleepsIf key (refill b now) e)
  ]

  attempt-SleepsIf : (e : Engine ℕ) (name : String) → SleepsIf id now (attempt e id name now)
  unfolding attempt
  attempt-SleepsIf e name =
      let e' = detach e id in
      let p = Config.policy e'.config name in
      let key = credential name in
      if_cases (SleepsIf id now) (not p.enabled) _ _ (λ off. tt)
        (λ on.
          attempt_room-SleepsIf key (ensure_bucket key p now e').0 (ensure_bucket key p now e').1)

  start_attempt-SleepsIf :
      (e : Engine ℕ) (name : String) → SleepsIf id now (start_attempt e id name now)
  unfolding start_attempt
  start_attempt-SleepsIf e name =
      if_cases (SleepsIf id now) e.stopping _ _ (λ s. tt)
        (λ s. elim (Option-cases (get id e.requests)) [
          | inl h ↦ rw h tt
          | inr (idle, h) ↦ rw h (attempt-SleepsIf e name)
          | inr (active key, h) ↦ rw h (attempt-SleepsIf e name)
          | inr (queued key d, h) ↦ rw h tt
        ])

-- The thread of a request has been told to wait, when it came or when it looked again.
abbrev pub IsTold : String → ℕ → Engine ℕ → Engine ℕ → ℕ → Type 0
IsTold id now e e' w =
    ((name : String) × (start_attempt e id name now ≡ some (e', wait_until w)))
    ⊎ (poll e id now ≡ some (e', wait_until w))

told-Asleep :
    (id : String) (now w : ℕ) (e e' : Engine ℕ) → IsTold id now e e' w → Asleep id w now e'
told-Asleep id now w e e' (inl (name, h)) =
    subst (SleepsIf id now) h (start_attempt-SleepsIf id now e name)
told-Asleep id now w e e' (inr h) = subst (SleepsIf id now) h (poll-SleepsIf id now e)

told-Inv : (id : String) (now w : ℕ) (e e' : Engine ℕ) → Inv e → IsTold id now e e' w → Inv e'
told-Inv id now w e e' v (inl (name, h)) = subst (Returns Inv) h (start_attempt-Inv e id name now v)
told-Inv id now w e e' v (inr h) = subst (Returns Inv) h (poll-Inv e id now v)

-- In a consistent engine, a thread in `acquire` that is told to wait until `w` misses nothing while
-- nobody notifies it: when only calls have followed that notify nobody, by any threads, at times
-- that do not decrease, then they have all returned, and the request, polled at any time before
-- `w`, is told to wait again. In exact arithmetic.
pub silent-waits :
    (id : String) (now w : ℕ) (e e1 : Engine ℕ)
    → Inv e
    → IsTold id now e e1 w
    → (cs : List Call) → silent e1 cs ≡ true
    → InOrder now cs
    → (t : ℕ) → finish now cs ≤ t
    → t < w
    → (e2 : Engine ℕ) × (run e1 cs ≡ some e2)
      × (r : Engine ℕ × ℕ) × (poll e2 id t ≡ some (r.0, wait_until r.1))
silent-waits id now w e e1 v told cs quiet o t later early =
    let (e2, done, v2) = run-Consistent e1 cs (told-Inv id now w e e1 v told) in
    let asleep = run-Asleep id w now e1 cs quiet o done (told-Asleep id now w e e1 told) in
    let (r, again) = poll-still id w t e2 early (onward id w (finish now cs) t e2 later asleep) in
    (e2, done, r, again)
