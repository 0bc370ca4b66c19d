-- ===== src/Engine/Outcome/Start.antt =====
-- What `start_attempt` of src/engine.rs answers, from the call on.
use mathlib.Core.Path.{subst}
use cpa_stg.Base.Partial.{◌>>=◌}
use cpa_stg.Base.Map.{get, insert, get-insert, retain_map}
use cpa_stg.Base.Map.Totals.{get-retain_map}
use cpa_stg.Base.{
  ℕ, ◌+◌, ◌*◌, String, Bool, true, false, not, Option, none, some, List, ◌≡◌, refl, sym, ap, ◌∙◌,
  ==_refl, string_eq, arith, if_cases,
}
use cpa_stg.Config
use cpa_stg.Config.{Config, Policy}
use cpa_stg.Engine.Admission.{
  ensure_bucket, attempt_bucket, attempt_room, attempt, start_attempt, in_use,
}
use cpa_stg.Engine.Buckets.{Bucket, refill, new_bucket}
use cpa_stg.Engine.Consistent.Attempt.{
  ensure_bucket-Inv, ensure_bucket-get, ensure_bucket-requests, absent_kept,
}
use cpa_stg.Engine.Consistent.Detach.{detach-Inv, get-detach, get-update_bucket}
use cpa_stg.Engine.Consistent.Poll.{refill-Agrees}
use cpa_stg.Engine.Consistent.{Inv}
use cpa_stg.Engine.Outcome.Attempt.{AttemptOutcome, Answer, attempt_bucket-Answer}
use cpa_stg.Engine.Outcome.Queue.{queue_at}
use cpa_stg.Engine.Outcome.{Answers}
use cpa_stg.Engine.Types.{ScopeKey, credential, scope_eq, Decision, Phase, idle, active, queued}
use cpa_stg.Engine.{Engine, detach, leave, update_bucket, drop_active}
use cpa_stg.Float.{F64}

abbrev pub is_waiting : Phase → Bool
is_waiting (queued key d) = true
is_waiting _ = false

module _ {T : Type 0} where
  abbrev pub policy_of : Option (Bucket T) → Policy → Policy
  policy_of none p = p
  policy_of (some b) p = b.policy

  -- What releasing a request that does not wait leaves as it was.
  record Same (key : ScopeKey) (p : Policy) (e e' : Engine T) : Type 0 where
    same_queue : queue_at key e' ≡ queue_at key e
    same_policy : policy_of (get key e'.buckets) p ≡ policy_of (get key e.buckets) p
    same_config : e'.config ≡ e.config
    same_stopping : e'.stopping ≡ e.stopping

  leave-Same :
      (key : ScopeKey) (p : Policy) (e : Engine T) (id : String) (phase : Phase)
      → is_waiting phase ≡ false
      → Same key p e (leave id phase e)
  unfolding leave
  leave-Same key p e id idle w = record {
    same_queue = refl;
    same_policy = refl;
    same_config = refl;
    same_stopping = refl;
  }
  leave-Same key p e id (active k) w = record {
    same_queue = ground (arith, get-update_bucket k key drop_active e);
    same_policy = ground (arith, get-update_bucket k key drop_active e);
    same_config = unfold update_bucket in ground arith;
    same_stopping = unfold update_bucket in ground arith;
  }
  leave-Same key p e id (queued k d) w = cc

  detach-Same :
      (key : ScopeKey) (p : Policy) (e : Engine T) (id : String) (phase : Phase)
      → get id e.requests ≡ some phase
      → is_waiting phase ≡ false
      → Same key p e (detach e id)
  unfolding detach
  detach-Same key p e id phase h w =
      rw (h, detach)
        (let s = leave-Same key p (record e { requests = insert id idle e.requests }) id phase w in
          record {
            same_queue = s.same_queue;
            same_policy = s.same_policy;
            same_config = s.same_config;
            same_stopping = s.same_stopping;
          })

module _ {T : Type 0} ⦃f : F64 T⦄ where
  ensure_bucket-queue :
      (key : ScopeKey) (p : Policy) (now : ℕ) (e : Engine T)
      → Inv e
      → queue_at key (ensure_bucket key p now e).0 ≡ queue_at key e
  unfolding ensure_bucket new_bucket
  ensure_bucket-queue key p now e v = ground (
    arith,
    get-retain_map (λ (b : Bucket T). refill b now) in_use key e.buckets v.buckets_unique,
    absent_kept key now e v,
    get-insert key key (new_bucket p now) (retain_map (λ b. refill b now) in_use e.buckets),
    ==_refl key,
  )

  ensure_bucket-policy :
      (key : ScopeKey) (p : Policy) (now : ℕ) (e : Engine T)
      → Inv e
      → policy_of (get key e.buckets) p ≡ p
      → policy_of (get key (ensure_bucket key p now e).0.buckets) p ≡ p
  unfolding ensure_bucket new_bucket
  ensure_bucket-policy key p now e v is = ground (
    arith,
    get-retain_map (λ (b : Bucket T). refill b now) in_use key e.buckets v.buckets_unique,
    absent_kept key now e v,
    get-insert key key (new_bucket p now) (retain_map (λ b. refill b now) in_use e.buckets),
    ==_refl key,
  )

  ensure_bucket-stopping :
      (key : ScopeKey) (p : Policy) (now : ℕ) (e : Engine T)
      → (ensure_bucket key p now e).0.stopping ≡ e.stopping
  unfolding ensure_bucket
  ensure_bucket-stopping key p now e = ground arith

module _ {T : Type 0} ⦃f : F64 T⦄ (key : ScopeKey) (id : String) (now : ℕ) (p : Policy) where
  abbrev Expected : List String → Engine T → Decision → Type 0
  Expected q = Answer key id now q (now + p.queue_timeout_ms * 1_000_000)

  through :
      (P : Engine T → Decision → Type 0) (e : Engine T) (o : Option (Bucket T)) (b : Bucket T)
      → o ≡ some b
      → Answers P (attempt_bucket key id now (refill b now) e)
      → Answers P (o >>= λ x. attempt_bucket key id now (refill x now) e)
  through P e o b found a = rw found a

  attempt_room-Answer :
      (e : Engine T) (room : Bool)
      → Inv e
      → (room ≡ true → (b : Bucket T) × (get key e.buckets ≡ some b))
      → e.stopping ≡ false
      → get id e.requests ≡ some idle
      → policy_of (get key e.buckets) p ≡ p
      → p.enabled ≡ true
      → Answers (Expected (queue_at key e)) (attempt_room key id now (e, room))
  unfolding attempt_room refill
  attempt_room-Answer e false v g s h is on = (h, refl)
  attempt_room-Answer e true v g s h is on =
      let (b, found) = g refl in
      let same : b.policy ≡ p = ap (λ o. policy_of o p) (sym found) ∙ is in
      through (Expected (queue_at key e)) e (get key e.buckets) b found (
        subst
          (λ (q : Policy).
            Answers (Answer key id now (queue_at key e) (now + q.queue_timeout_ms * 1_000_000))
              (attempt_bucket key id now (refill b now) e))
          same
          (attempt_bucket-Answer key id now e (refill b now) v (refill-Agrees e key now b found) s h
            (ap (λ (q : Policy). q.enabled) same ∙ on)))

  attempt-Answer :
      (e : Engine T) (phase : Phase) (name : String)
      → key ≡ credential name
      → Inv e
      → e.stopping ≡ false
      → get id e.requests ≡ some phase
      → is_waiting phase ≡ false
      → p ≡ Config.policy e.config name
      → p.enabled ≡ true
      → policy_of (get key e.buckets) p ≡ p
      → Answers (Expected (queue_at key e)) (attempt e id name now)
  unfolding attempt
  attempt-Answer e phase name is v s h w isp on here =
      let e0 = detach e id in
      let same = detach-Same key p e id phase h w in
      let v0 = detach-Inv e id v in
      let h0 : get id e0.requests ≡ some idle = rw (get-detach e id id, h, ==_refl id) refl in
      let p0 : Config.policy e0.config name ≡ p =
        ap (λ (q : Config). Config.policy q name) same.same_config ∙ sym isp in
      let e1 = (ensure_bucket key p now e0).0 in
      let here0 = ensure_bucket-policy key p now e0 v0 (same.same_policy ∙ here) in
      let answer =
        attempt_room-Answer e1 (ensure_bucket key p now e0).1 (ensure_bucket-Inv key p now e0 v0)
          (ensure_bucket-get key p now e0)
          (ensure_bucket-stopping key p now e0 ∙ same.same_stopping ∙ s)
          (rw (ensure_bucket-requests key p now e0) h0) here0 on in
      let q0 = ensure_bucket-queue key p now e0 v0 ∙ same.same_queue in
      rw (p0, ← is)
        (if_cases (Answers (Expected (queue_at key e))) (not p.enabled) _ _
          (λ off. absurd (ground arith))
          (λ live.
            subst (λ q. Answers (Expected q) (attempt_room key id now (ensure_bucket key p now e0)))
              q0 answer))

module _ {T : Type 0} ⦃f : F64 T⦄ (e : Engine T) (id name : String) (now : ℕ) where
  abbrev key_of : ScopeKey
  key_of = credential name

  -- The policy in force for the credential.
  abbrev in_force : Policy
  in_force = Config.policy e.config name

  -- In a consistent engine that is not stopping, an attempt of a registered request that waits for
  -- nothing always answers, where the policy of the credential is switched on and is that of its
  -- bucket, if it has one. It is admitted at once only if no other request waits for the
  -- credential. Else it goes to the end of the queue, with the deadline that the policy sets, and
  -- is to look again no later than that; or it is refused, holds nothing and leaves the queue as
  -- it was.
  pub start_attempt-Outcome :
      (phase : Phase)
      → Inv e
      → e.stopping ≡ false
      → get id e.requests ≡ some phase
      → is_waiting phase ≡ false
      → in_force.enabled ≡ true
      → policy_of (get key_of e.buckets) in_force ≡ in_force
      → Answers
          (λ e' r.
            AttemptOutcome key_of id
              (queue_at key_of e)
              (now + in_force.queue_timeout_ms * 1_000_000)
              (get id e'.requests)
              (queue_at key_of e')
              r)
          (start_attempt e id name now)
  unfolding start_attempt
  start_attempt-Outcome idle v s h w on here =
      rw (s, h) (attempt-Answer key_of id now in_force e idle name refl v s h w refl on here)
  start_attempt-Outcome (active k) v s h w on here =
      rw (s, h) (attempt-Answer key_of id now in_force e (active k) name refl v s h w refl on here)
  start_attempt-Outcome (queued k d) v s h w on here = cc
