-- ===== src/Engine/Outcome/Queue.antt =====
-- The order in which src/engine.rs serves the requests that wait for a credential.
use cpa_stg.Base.Map.{get, insert, get-insert}
use cpa_stg.Base.{
  ℕ, String, Bool, true, false, not, ◌&&◌, some, List, [], ◌∷◌, ◌≡◌, ◌≢◌, refl, ◌⊎◌, inl, inr, ◌==◌,
  ==_iff, ==_refl, string_eq, ℕ_eq, if◌then◌else◌, tail, leb, arith, if_cases, &&_left, retain-nil,
}
use cpa_stg.Engine.Admission.{enter, poll_bucket, poll_queued, poll}
use cpa_stg.Engine.Buckets.{Bucket, refill, available, charge}
use cpa_stg.Engine.Consistent.Detach.{get-update_bucket}
use cpa_stg.Engine.Consistent.Moves.{Agrees}
use cpa_stg.Engine.Consistent.Poll.{queued_bucket, refill-Agrees}
use cpa_stg.Engine.Consistent.{Inv, queue_of}
use cpa_stg.Engine.Outcome.{Answers, AnswersPair, Answers-map, is_on, refill_on}
use cpa_stg.Engine.Types.{
  ScopeKey, scope_eq, Decision, admit, wait_until, reject, queue_timeout, idle, queued,
}
use cpa_stg.Engine.{Engine, is_front, detach, leave, without, put_bucket, drop_queued}
use cpa_stg.Float.{F64}

-- The queue of a credential before and after a poll of `id`, which waited in it; `on` says
-- whether the policy of its bucket is switched on.
abbrev pub Served : String → Bool → List String → List String → Decision → Type 0
Served id on q q' admit = ((on ≡ true) × (q ≡ id ∷ q')) ⊎ ((on ≡ false) × (q' ≡ without id q))
Served id on q q' (wait_until w) = q' ≡ q
Served id on q q' (reject r) = q' ≡ without id q

module _ {T : Type 0} where
  abbrev pub queue_at : ScopeKey → Engine T → List String
  queue_at k e = queue_of (get k e.buckets)

  pub queue-detach :
      (e : Engine T) (id : String) (key k : ScopeKey) (d : ℕ)
      → get id e.requests ≡ some (queued key d)
      → queue_at k (detach e id) ≡ (if key == k then without id (queue_at k e) else queue_at k e)
  unfolding detach leave
  queue-detach e id key k d h =
      rw (h, detach)
        (ground (
          arith,
          retain-nil (λ (other : String). not (other == id)),
          get-update_bucket key k (drop_queued id)
              (record e { requests = insert id idle e.requests }),
        ))

  pub queue-put_bucket :
      (e : Engine T) (key k : ScopeKey) (b : Bucket T)
      → queue_at k (put_bucket key b e) ≡ (if key == k then b.queue else queue_at k e)
  queue-put_bucket e key k b = ground (arith, get-insert key k b e.buckets)

front_split : (id : String) (q : List String) → is_front id q ≡ true → q ≡ id ∷ tail q
front_split id [] h = cc
front_split id (x ∷ q) h = ground (arith, ==_iff x id)

module _ {T : Type 0} ⦃f : F64 T⦄ (key : ScopeKey) (d now : ℕ) (id : String) (e : Engine T) where
  -- At the credential that `id` waits for, `Served`; at any other, nothing moves.
  abbrev pub QueueOutcome : Engine T → Decision → Type 0
  QueueOutcome e' r =
      Served id (is_on (get key e.buckets)) (queue_at key e) (queue_at key e') r
      × ((k : ScopeKey) → k ≢ key → queue_at k e' ≡ queue_at k e)

  other_queue :
      (b : Bucket T) (k : ScopeKey) → k ≢ key → queue_at k (put_bucket key b e) ≡ queue_at k e
  other_queue b k ne = ground (arith, queue-put_bucket e key k b, ==_iff key k, ne)

  poll_bucket-QueueOutcome :
      (b : Bucket T)
      → Agrees e key b
      → is_on (get key e.buckets) ≡ b.policy.enabled
      → get id e.requests ≡ some (queued key d)
      → AnswersPair QueueOutcome (poll_bucket key d e id now b)
  unfolding poll_bucket enter charge
  poll_bucket-QueueOutcome b a on h =
      if_cases (AnswersPair QueueOutcome) (not b.policy.enabled) _ _
        (λ off. (
          inr (
            ground arith,
            rw
                (
                  queue-detach (put_bucket key b e) id key key d h,
                  ==_refl key,
                  queue-put_bucket e key key b,
                  ==_refl key,
                  a.same_queue,
                )
                refl,
          ),
          λ k ne. ground (
            arith,
            queue-detach (put_bucket key b e) id key k d h,
            queue-put_bucket e key k b,
            ==_iff key k,
            ne,
          ),
        ))
        λ live.
          if_cases (AnswersPair QueueOutcome) (is_front id b.queue && available b) _ _
            (λ room. (
              inl (
                ground arith,
                ground (
                  arith,
                  a.same_queue,
                  front_split id b.queue (&&_left (is_front id b.queue) (available b) room),
                  queue-put_bucket e key key (charge (record b { queue = tail b.queue })),
                  ==_refl key,
                ),
              ),
              λ k ne. other_queue _ k ne,
            ))
            (λ busy. (
              ground (arith, queue-put_bucket e key key b, ==_refl key, a.same_queue),
              λ k ne. other_queue b k ne,
            ))

  late_queue :
      get id e.requests ≡ some (queued key d) → QueueOutcome (detach e id) (reject queue_timeout)
  late_queue h = (
    rw (queue-detach e id key key d h, ==_refl key) refl,
    λ k ne. ground (arith, queue-detach e id key k d h, ==_iff key k, ne),
  )

  poll_queued-QueueOutcome :
      Inv e
      → get id e.requests ≡ some (queued key d)
      → Answers QueueOutcome (poll_queued key d e id now)
  unfolding poll_queued
  poll_queued-QueueOutcome v h =
      if_cases (Answers QueueOutcome) (leb d now) _ _ (λ late. late_queue h)
        λ early.
          let (b, found) = queued_bucket e v id key d h in
          rw found (
            poll_bucket-QueueOutcome (refill b now) (refill-Agrees e key now b found)
              (refill_on key d now id e b found) h)

  pub poll-QueueOutcome :
      Inv e
      → e.stopping ≡ false
      → get id e.requests ≡ some (queued key d)
      → Answers QueueOutcome (poll e id now)
  unfolding poll
  poll-QueueOutcome v running h = rw (running, h) (poll_queued-QueueOutcome v h)

  -- In a consistent engine that is not stopping, a poll of a request that waits on a credential
  -- answers, and admits it only from the head of the queue, which it leaves, or, where the policy
  -- of the credential's bucket is switched off, from any place; a request that waits on leaves the
  -- queue as it is, and one that is refused leaves the queue. The others keep their order.
  pub poll-Served :
      Inv e
      → e.stopping ≡ false
      → get id e.requests ≡ some (queued key d)
      → Answers
          (λ e' r. Served id (is_on (get key e.buckets)) (queue_at key e) (queue_at key e') r)
          (poll e id now)
  poll-Served v running h =
      Answers-map QueueOutcome _ _ (λ e' r o. o.0) (poll-QueueOutcome v running h)

  -- Such a poll answers and leaves the queue of every other credential as it is.
  pub poll-queue_at-ne :
      (k : ScopeKey)
      → k ≢ key
      → Inv e
      → e.stopping ≡ false
      → get id e.requests ≡ some (queued key d)
      → Answers (λ e' r. queue_at k e' ≡ queue_at k e) (poll e id now)
  poll-queue_at-ne k ne v running h =
      Answers-map QueueOutcome _ _ (λ e' r o. o.1 k ne) (poll-QueueOutcome v running h)
