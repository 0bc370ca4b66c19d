-- ===== src/Runtime/Acquire.antt =====
-- `Runtime::acquire` of src/runtime.rs: how it leaves its request, over the calls that other
-- threads make.
use cpa_stg.Base.Map.{get, get-insert}
use cpa_stg.Base.Partial.{◌>>=◌}
use cpa_stg.Base.{
  ◌<◌, ℕ, ◌≤◌, String, Bool, true, false, not, ◌&&◌, Option, none, some, List, [], ◌∷◌, ◌≡◌, refl,
  sym, ap, ◌∙◌, inl, inr, ==_refl, string_eq, leb, length, is_empty, arith, if_cases, Option-cases,
}
use cpa_stg.Config
use cpa_stg.Engine.Admission.{
  Returned, start_attempt, attempt, attempt_room, attempt_bucket, ensure_bucket, enter, poll,
}
use cpa_stg.Engine.Buckets.{Bucket, refill, available}
use cpa_stg.Engine.Consistent.Attempt.{
  ensure_bucket-Inv, ensure_bucket-get, ensure_bucket-requests, start_attempt-Inv,
}
use cpa_stg.Engine.Consistent.Detach.{detach-Inv, get-detach}
use cpa_stg.Engine.Consistent.Moves.{Agrees, join_queue-Inv}
use cpa_stg.Engine.Consistent.Poll.{refill-Agrees, poll-Inv}
use cpa_stg.Engine.Consistent.{Inv, Returns}
use cpa_stg.Engine.Outcome.Start.{is_waiting}
use cpa_stg.Engine.Outcome.{Answers, Answers-map, PollOutcome, is_on, poll_queued-Outcome}
use cpa_stg.Engine.System.Consistent.{run-Consistent}
use cpa_stg.Engine.Types.{
  ScopeKey, credential, scope_eq, Decision, admit, wait_until, reject, Phase, idle, active, queued,
}
use cpa_stg.Engine.{Engine, detach, join_queue}
use cpa_stg.Float.{F64}
use cpa_stg.Runtime.{Round, Acquired, returned, waiting, follow, acquire}

abbrev pub waits_still : Option Phase → Bool
waits_still none = false
waits_still (some phase) = is_waiting phase

module _ {T : Type 0} where
  abbrev pub IsDone : String → Engine T → Type 0
  IsDone id e = waits_still (get id e.requests) ≡ false

  -- The request waits with a deadline that is after `now`, and no earlier than `w`.
  pub record IsQueued (id : String) (e : Engine T) (now w : ℕ) : Type 0 where
    pub key : ScopeKey
    pub deadline : ℕ
    pub phase : get id e.requests ≡ some (queued key deadline)
    pub wake_le : w ≤ deadline
    pub early : now < deadline

  abbrev Ends : String → ℕ → Engine T → Decision → Type 0
  Ends id now e admit = IsDone id e
  Ends id now e (reject reason) = IsDone id e
  Ends id now e (wait_until w) = IsQueued id e now w

  detach-IsDone : (e : Engine T) (id : String) → IsDone id (detach e id)
  detach-IsDone e id = elim (Option-cases (get id e.requests)) [
    | inl h ↦ rw (get-detach e id id, h, ==_refl id) refl
    | inr (phase, h) ↦ rw (get-detach e id id, h, ==_refl id) refl
  ]

module _ {T : Type 0} ⦃f : F64 T⦄ (id : String) (now : ℕ) where
  PollOutcome-Ends :
      (key : ScopeKey) (d : ℕ) (on : Bool) (e : Engine T) (r : Decision)
      → PollOutcome key d now on (get id e.requests) r
      → Ends id now e r
  PollOutcome-Ends key d on e admit (early, inl (_, h)) = rw h refl
  PollOutcome-Ends key d on e admit (early, inr (_, h)) = rw h refl
  PollOutcome-Ends key d on e (wait_until w) (early, le, h) = record {
    key = key;
    deadline = d;
    phase = h;
    wake_le = le;
    early = early;
  }
  PollOutcome-Ends key d on e (reject reason) (late, _, h) = rw h refl

  poll-Ends : (e : Engine T) → Inv e → Answers (Ends id now) (poll e id now)
  unfolding poll
  poll-Ends e v =
      if_cases (Answers (Ends id now)) e.stopping _ _ (λ s. detach-IsDone e id)
        λ s. elim (Option-cases (get id e.requests)) [
          | inl h ↦ rw h (ap waits_still h)
          | inr (idle, h) ↦ rw h (ap waits_still h)
          | inr (active key, h) ↦ rw h (ap waits_still h)
          | inr (queued key d, h) ↦ rw h (
              Answers-map _ (Ends id now) _
                (λ e' r. PollOutcome-Ends key d (is_on (get key e.buckets)) e' r)
                (poll_queued-Outcome key d now id e v h))
        ]

  attempt_bucket-Ends :
      (key : ScopeKey) (e : Engine T) (b : Bucket T)
      → Inv e
      → Agrees e key b
      → get id e.requests ≡ some idle
      → Answers (Ends id now) (attempt_bucket key id now b e)
  unfolding attempt_bucket enter
  attempt_bucket-Ends key e b v a h =
      if_cases (Answers (Ends id now)) (is_empty b.queue && available b) _ _
        (λ room. rw (get-insert id id (active key) e.requests, ==_refl id) refl)
        λ busy.
          if_cases (Answers (Ends id now)) (leb b.policy.max_queue (length b.queue)) _ _
            (λ full. rw h refl)
            λ space. poll-Ends (join_queue key id now b e) (join_queue-Inv e key b v a id now h)

  room-Ends :
      (key : ScopeKey) (e : Engine T) (room : Bool)
      → Inv e
      → (room ≡ true → (b : Bucket T) × (get key e.buckets ≡ some b))
      → get id e.requests ≡ some idle
      → Answers (Ends id now) (attempt_room key id now (e, room))
  unfolding attempt_room
  room-Ends key e false v g h = rw h refl
  room-Ends key e true v g h =
      let (b, found) = g refl in
      rw found (attempt_bucket-Ends key e (refill b now) v (refill-Agrees e key now b found) h)

  attempt-Ends :
      (e : Engine T) (name : String) (phase : Phase)
      → Inv e
      → get id e.requests ≡ some phase
      → Answers (Ends id now) (attempt e id name now)
  unfolding attempt
  attempt-Ends e name phase v h =
      let key = credential name in
      let e0 = detach e id in
      let p = Config.policy e0.config name in
      let v0 = detach-Inv e id v in
      let h0 : get id e0.requests ≡ some idle = rw (get-detach e id id, h, ==_refl id) refl in
      let r = ensure_bucket key p now e0 in
      if_cases (Answers (Ends id now)) (not p.enabled) _ _ (λ off. detach-IsDone e id)
        λ on.
          room-Ends key r.0 r.1 (ensure_bucket-Inv key p now e0 v0) (ensure_bucket-get key p now e0)
            (rw (ensure_bucket-requests key p now e0) h0)

  start_attempt-Ends :
      (e : Engine T) (name : String)
      → Inv e
      → IsDone id e
      → Answers (Ends id now) (start_attempt e id name now)
  unfolding start_attempt
  start_attempt-Ends e name v done =
      if_cases (Answers (Ends id now)) e.stopping _ _ (λ s. done)
        λ s. elim (Option-cases (get id e.requests)) [
          | inl h ↦ rw h done
          | inr (idle, h) ↦ rw h (attempt-Ends e name idle v h)
          | inr (active key, h) ↦ rw h (attempt-Ends e name (active key) v h)
          | inr (queued key d, h) ↦ absurd (ground (arith, ap waits_still (sym h) ∙ done))
        ]

-- The time at which the thread last looks.
abbrev pub last_look : ℕ → List Round → ℕ
last_look now [] = now
last_look now ((others, later) ∷ rounds) = last_look later rounds

-- There is a result; the engine is consistent; and the request waits exactly if its thread does,
-- which last looked at `now`.
abbrev pub AcquireOutcome : {T : Type 0} → String → ℕ → Option (Engine T × Acquired) → Type 0
AcquireOutcome id now none = ⊥
AcquireOutcome id now (some (e, returned r)) = Inv e × IsDone id e
AcquireOutcome id now (some (e, waiting w)) = Inv e × IsQueued id e now w

module _ {T : Type 0} ⦃f : F64 T⦄ (id : String) where
  follow-Outcome :
      (now : ℕ) (rounds : List Round) (o : Returned T)
      → Returns Inv o
      → Answers (Ends id now) o
      → AcquireOutcome id (last_look now rounds) (o >>= λ decision. follow id rounds decision)
  unfolding follow
  follow-Outcome now rounds none v x = absurd v
  follow-Outcome now rounds (some (e, admit)) v x = (v, x)
  follow-Outcome now rounds (some (e, reject reason)) v x = (v, x)
  follow-Outcome now [] (some (e, wait_until w)) v x = (v, x)
  follow-Outcome now ((others, later) ∷ rounds) (some (e, wait_until w)) v x =
      let (e', done, v') = run-Consistent e others v in
      rw done (
        follow-Outcome later rounds (poll e' id later) (poll-Inv e' id later v')
          (poll-Ends id later e' v'))

  -- In a consistent engine, `acquire` for a request that does not wait yet never panics, whatever
  -- calls other threads make while it waits and at whatever times it is woken. When it returns,
  -- admitted or refused, its request waits in no queue. It goes on waiting only with its request
  -- queued under a deadline that is after the time at which it last looked, and no earlier than
  -- the time it waits for: woken at the deadline or later, it returns.
  pub acquire-AcquireOutcome :
      (e : Engine T) (name : String) (now : ℕ) (rounds : List Round)
      → Inv e
      → IsDone id e
      → AcquireOutcome id (last_look now rounds) (acquire e id name now rounds)
  unfolding acquire
  acquire-AcquireOutcome e name now rounds v done =
      follow-Outcome now rounds (start_attempt e id name now) (start_attempt-Inv e id name now v)
        (start_attempt-Ends id now e name v done)

-- There is a result, and its engine is consistent.
abbrev pub KeepsInv {ℓ} : {T : Type 0} {A : Type ℓ} → Option (Engine T × A) → Type 0
KeepsInv none = ⊥
KeepsInv (some (e, a)) = Inv e

module _ {T : Type 0} ⦃f : F64 T⦄ (id : String) where
  follow-Inv :
      (rounds : List Round) (o : Returned T)
      → Returns Inv o
      → KeepsInv (o >>= λ decision. follow id rounds decision)
  unfolding follow
  follow-Inv rounds none v = absurd v
  follow-Inv rounds (some (e, admit)) v = v
  follow-Inv rounds (some (e, reject reason)) v = v
  follow-Inv [] (some (e, wait_until w)) v = v
  follow-Inv ((others, later) ∷ rounds) (some (e, wait_until w)) v =
      let (e', done, v') = run-Consistent e others v in
      rw done (follow-Inv rounds (poll e' id later) (poll-Inv e' id later v'))

  pub acquire-Inv :
      (e : Engine T) (name : String) (now : ℕ) (rounds : List Round)
      → Inv e
      → KeepsInv (acquire e id name now rounds)
  unfolding acquire
  acquire-Inv e name now rounds v =
      follow-Inv rounds (start_attempt e id name now) (start_attempt-Inv e id name now v)
