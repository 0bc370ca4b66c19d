-- ===== src/Engine/Outcome.antt =====
-- What `poll` and `start_attempt` of src/engine.rs answer, and what the request is afterwards.
pub mod Queue
pub mod Attempt
pub mod Start
use cpa_stg.Base.Map.{get, insert, get-insert, is_some}
use cpa_stg.Base.{
  ℕ, ◌+◌, ◌*◌, ◌≤◌, ◌<◌, min, String, Bool, true, false, not, ◌&&◌, Option, none, some, List, [],
  ◌∷◌, ◌++◌, ◌≡◌, ◌≢◌, refl, sym, ap, ◌∙◌, ◌⊎◌, inl, inr, ◌==◌, ==_iff, ==_refl, string_eq, ℕ_eq,
  if◌then◌else◌, length, tail, leb, arith, if_cases, Option-cases, is_empty,
}
use cpa_stg.Engine.Admission.{Returned, enter, poll_bucket, poll_queued, poll}
use cpa_stg.Engine.Buckets.{Bucket, refill, available, wake_at}
use cpa_stg.Engine.Consistent.Detach.{get-detach}
use cpa_stg.Engine.Consistent.Poll.{queued_bucket}
use cpa_stg.Engine.Consistent.{Inv}
use cpa_stg.Engine.Types.{
  ScopeKey, scope_eq, Decision, admit, wait_until, reject, Rejection, queue_timeout, Phase, idle,
  active, queued,
}
use cpa_stg.Engine.{Engine, is_front, detach, put_bucket, put_request}
use cpa_stg.Float.{F64}

-- The phase of a waiting request behind the answer to its poll: it was queued on `key` until `d`,
-- and `on` says whether the policy of that bucket is switched on.
abbrev pub PollOutcome : ScopeKey → ℕ → ℕ → Bool → Option Phase → Decision → Type 0
PollOutcome key d now on phase admit =
    (now < d) × (((on ≡ true) × (phase ≡ some (active key))) ⊎ ((on ≡ false) × (phase ≡ some idle)))
PollOutcome key d now on phase (wait_until w) = (now < d) × (w ≤ d) × (phase ≡ some (queued key d))
PollOutcome key d now on phase (reject r) = (d ≤ now) × (r ≡ queue_timeout) × (phase ≡ some idle)

module _ {T : Type 0} where
  abbrev pub Answers : (Engine T → Decision → Type 0) → Option (Engine T × Decision) → Type 0
  Answers P none = ⊥
  Answers P (some (e, d)) = P e d

  pub Answers-map :
      (P Q : Engine T → Decision → Type 0) (o : Option (Engine T × Decision))
      → ((e : Engine T) (d : Decision) → P e d → Q e d)
      → Answers P o
      → Answers Q o
  Answers-map P Q none g a = a
  Answers-map P Q (some (e, d)) g a = g e d a

  abbrev pub AnswersPair : (Engine T → Decision → Type 0) → Engine T × Decision → Type 0
  AnswersPair P r = P r.0 r.1

  detached_idle :
      (e : Engine T) (id : String) (phase : Phase)
      → get id e.requests ≡ some phase
      → get id (detach e id).requests ≡ some idle
  detached_idle e id phase h = rw (get-detach e id id, h, ==_refl id) refl

  abbrev pub is_on : Option (Bucket T) → Bool
  is_on none = true
  is_on (some b) = b.policy.enabled

module _ {T : Type 0} ⦃f : F64 T⦄ (key : ScopeKey) (d now : ℕ) (id : String) (e : Engine T) where
  abbrev pub Outcome : Engine T → Decision → Type 0
  Outcome e' = PollOutcome key d now (is_on (get key e.buckets)) (get id e'.requests)

  wake_at-le : (b : Bucket T) → wake_at b now d ≤ d
  unfolding wake_at
  wake_at-le b = ground arith

  pub refill_on :
      (b : Bucket T)
      → get key e.buckets ≡ some b
      → is_on (get key e.buckets) ≡ (refill b now).policy.enabled
  unfolding refill
  refill_on b found = rw found

  poll_bucket-Outcome :
      (b : Bucket T)
      → is_on (get key e.buckets) ≡ b.policy.enabled
      → get id e.requests ≡ some (queued key d)
      → now < d
      → AnswersPair Outcome (poll_bucket key d e id now b)
  unfolding poll_bucket enter
  poll_bucket-Outcome b on h early =
      if_cases (AnswersPair Outcome) (not b.policy.enabled) _ _
        (λ off. (early, inr (ground arith, detached_idle (put_bucket key b e) id (queued key d) h)))
        λ live.
          if_cases (AnswersPair Outcome) (is_front id b.queue && available b) _ _
            (λ room. (
              early,
              inl (ground arith, rw (get-insert id id (active key) e.requests, ==_refl id) refl),
            ))
            (λ busy. (early, ground (arith, wake_at-le b), h))

  pub poll_queued-Outcome :
      Inv e → get id e.requests ≡ some (queued key d) → Answers Outcome (poll_queued key d e id now)
  unfolding poll_queued
  poll_queued-Outcome v h =
      if_cases (Answers Outcome) (leb d now) _ _
        (λ late. (ground arith, refl, detached_idle e id (queued key d) h))
        λ early.
          let (b, found) = queued_bucket e v id key d h in
          rw found (poll_bucket-Outcome (refill b now) (refill_on b found) h (ground arith))

  -- In a consistent engine that is not stopping, the poll of a request that waits on a credential
  -- always answers. Before the deadline the request is admitted, as an active one if the policy of
  -- the credential's bucket is switched on and as an idle one if it is off, or it waits on with
  -- its deadline unchanged, and is to look again no later than that. From the deadline on it is
  -- refused for the timeout, and holds nothing.
  pub poll-Outcome :
      Inv e
      → e.stopping ≡ false
      → get id e.requests ≡ some (queued key d)
      → Answers Outcome (poll e id now)
  unfolding poll
  poll-Outcome v running h = rw (running, h) (poll_queued-Outcome v h)
