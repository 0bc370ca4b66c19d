-- ===== src/Engine/Outcome/Attempt.antt =====
-- What `Engine::start_attempt` of src/engine.rs answers, with the bucket at hand.
use cpa_stg.Base.Map.{get, get-insert}
use cpa_stg.Base.{
  ℕ, ◌+◌, ◌*◌, ◌≤◌, String, true, false, ◌&&◌, Option, none, some, List, [], ◌∷◌, ◌++◌, ◌≡◌, refl,
  sym, ◌∙◌, inl, inr, ==_iff, ==_refl, string_eq, length, leb, arith, if_cases, &&_left, is_empty,
  count, retain-concat,
}
use cpa_stg.Engine.Admission.{Returned, enter, poll, attempt_bucket}
use cpa_stg.Engine.Buckets.{Bucket, available}
use cpa_stg.Engine.Consistent.Moves.{Agrees, join_queue-Inv}
use cpa_stg.Engine.Consistent.{Inv}
use cpa_stg.Engine.Outcome.{Answers, Outcome, is_on, poll-Outcome}
use cpa_stg.Engine.Outcome.Queue.{queue_at, QueueOutcome, poll-QueueOutcome, queue-put_bucket}
use cpa_stg.Engine.Types.{
  ScopeKey, scope_eq, Decision, admit, wait_until, reject, Phase, idle, active, queued,
}
use cpa_stg.Engine.{Engine, join_queue}
use cpa_stg.Float.{F64}

-- The request and the queue of its credential behind the answer to its attempt; `q` is the queue
-- before it, and `d` the deadline of a request that begins to wait now.
abbrev pub AttemptOutcome :
    ScopeKey → String → List String → ℕ → Option Phase → List String → Decision → Type 0
AttemptOutcome key id q d phase q' admit = (q ≡ []) × (phase ≡ some (active key))
AttemptOutcome key id q d phase q' (wait_until w) =
    (w ≤ d) × (phase ≡ some (queued key d)) × (q' ≡ q ++ id ∷ [])
AttemptOutcome key id q d phase q' (reject r) = (phase ≡ some idle) × (q' ≡ q)

-- The last in a list that is the head of it is alone in it.
alone : (id : String) (q q' : List String) → count id q ≡ 0 → q ++ id ∷ [] ≡ id ∷ q' → q ≡ []
alone id [] q' c h = refl
alone id (x ∷ q) q' c h = absurd (ground (arith, ==_iff x id))

module _ {T : Type 0} ⦃f : F64 T⦄ (key : ScopeKey) (id : String) (now : ℕ) where
  abbrev pub Answer : List String → ℕ → Engine T → Decision → Type 0
  Answer q d e' = AttemptOutcome key id q d (get id e'.requests) (queue_at key e')

  -- A request that has just joined the queue `q`, and is polled.
  joined :
      (q : List String) (d : ℕ) (J : Engine T) (r : Returned T)
      → count id q ≡ 0
      → is_on (get key J.buckets) ≡ true
      → queue_at key J ≡ q ++ id ∷ []
      → Answers (Outcome key d now id J) r
      → Answers (QueueOutcome key d now id J) r
      → Answers (Answer q d) r
  joined q d J none c on is a b = a
  joined q d J (some (e', admit)) c on is (early, inl (_, ph)) (inl (o, serve), rest) =
      (alone id q _ c (sym is ∙ serve), ph)
  joined q d J (some (e', admit)) c on is (early, inr (off, _)) (inl (o, serve), rest) =
      absurd (ground arith)
  joined q d J (some (e', admit)) c on is a (inr (off, _), rest) = absurd (ground arith)
  joined q d J (some (e', wait_until w)) c on is (early, w_le, ph) (stays, rest) =
      (w_le, ph, stays ∙ is)
  joined q d J (some (e', reject r)) c on is (late, x, ph) (gone, rest) =
      (ph, rw (gone, is) (retain-concat id q c))

  abbrev pub deadline : Bucket T → ℕ
  deadline b = now + b.policy.queue_timeout_ms * 1_000_000

  pub attempt_bucket-Answer :
      (e : Engine T) (b : Bucket T)
      → Inv e
      → Agrees e key b
      → e.stopping ≡ false
      → get id e.requests ≡ some idle
      → b.policy.enabled ≡ true
      → Answers (Answer (queue_at key e) (deadline b)) (attempt_bucket key id now b e)
  unfolding attempt_bucket enter join_queue
  attempt_bucket-Answer e b v a running h on =
      if_cases (Answers (Answer (queue_at key e) (deadline b))) (is_empty b.queue && available b) _
        _
        (λ room. (
          ground (arith, a.same_queue, &&_left (is_empty b.queue) (available b) room),
          rw (get-insert id id (active key) e.requests, ==_refl id) refl,
        ))
        λ busy.
          if_cases (Answers (Answer (queue_at key e) (deadline b)))
            (leb b.policy.max_queue (length b.queue)) _ _
            (λ full. (h, ground (arith, queue-put_bucket e key key b, ==_refl key, a.same_queue)))
            λ space.
              let J = join_queue key id now b e in
              let waits_on : get id J.requests ≡ some (queued key (deadline b)) =
                rw (get-insert id id (queued key (deadline b)) e.requests, ==_refl id) refl in
              let v' = join_queue-Inv e key b v a id now h in
              let b' = record b { queue = b.queue ++ id ∷ [] } in
              joined (queue_at key e) (deadline b) J (poll J id now)
                (ground (arith, v.queue_count key id, h))
                (rw (get-insert key key b' e.buckets, ==_refl key) on)
                (rw (get-insert key key b' e.buckets, ==_refl key, a.same_queue) refl)
                (poll-Outcome key (deadline b) now id J v' running waits_on)
                (poll-QueueOutcome key (deadline b) now id J v' running waits_on)
