-- ===== src/Engine/Rate/Poll.antt =====
-- `poll` of the engine of src/engine.rs and the tokens of one credential, in exact arithmetic.
use cpa_stg.Base.Map.{get}
use cpa_stg.Base.{
  ℕ, ◌+◌, String, false, not, ◌&&◌, Option, none, some, ◌≡◌, refl, ap, inl, inr, ◌==◌, string_eq,
  ℕ_eq, if◌then◌else◌, leb, tail, arith, if_cases, Bool-cases, Option-cases, &&_right,
}
use cpa_stg.Config.{Config, Policy}
use cpa_stg.Engine.Admission.{poll_bucket, poll_queued, poll}
use cpa_stg.Engine.Buckets.{Bucket, refill, available}
use cpa_stg.Engine.Consistent.Poll.{queued_bucket}
use cpa_stg.Engine.Consistent.{Inv}
use cpa_stg.Engine.Rate.Moves.{
  IsLimited, grant, Room, Ready, put_bucket-Room, recount, detach-Room, refill-Ready,
  set_queue-Ready, enter-Room,
}
use cpa_stg.Engine.Types.{
  ScopeKey, scope_eq, request_ended, stopping, Decision, admit, reject, Phase, idle, active, queued,
}
use cpa_stg.Engine.{Engine, is_front, detach}
use cpa_stg.Float.Fixed.{fixed}

-- The tokens of `k` that a poll takes: a request that does not wait takes none.
abbrev pub poll_grant : ScopeKey → Option Phase → Decision → ℕ
poll_grant k (some (queued key d)) decision = grant k key decision
poll_grant k _ decision = 0

module _ (c : Config) (k : ScopeKey) (l : IsLimited c k) (now : ℕ) where
  abbrev pub OkAt : ℕ → ℕ → Engine ℕ → Type 0
  OkAt m n e = Room c k l now m n e

  abbrev pub Spends : ℕ → ℕ → (Decision → ℕ) → Engine ℕ × Decision → Type 0
  Spends m n count (e, d) = OkAt m (count d + n) e

  -- The call returns, and spends what the decision takes.
  abbrev pub After : ℕ → ℕ → (Decision → ℕ) → Option (Engine ℕ × Decision) → Type 0
  After m n count none = ⊥
  After m n count (some r) = Spends m n count r

  pub refused :
      (m n : ℕ) (key : ScopeKey) (e : Engine ℕ)
      → OkAt m n e
      → OkAt m ((if key == k then 0 else 0) + n) e
  refused m n key e r = recount c k l now m n _ e (ground arith) r

  switched_on :
      (m n : ℕ) (key : ScopeKey) (b : Bucket ℕ)
      → Ready c k l now m n key b
      → b.policy.enabled ≡ false
      → (key == k) ≡ false
  switched_on m n key b ready off = elim (Bool-cases (key == k)) [
    | inl is ↦
        let ((same, past, within), fresh) = ready is in
        absurd (ground (arith, off, l.is_on, ap (λ (q : Policy). q.enabled) same))
    | inr ne ↦ ne
  ]

  poll_bucket-Spends :
      (m n : ℕ) (key : ScopeKey) (d : ℕ) (e : Engine ℕ) (id : String) (b : Bucket ℕ)
      → Ready c k l now m n key b
      → OkAt m n e
      → Spends m n (grant k key) (poll_bucket key d e id now b)
  unfolding poll_bucket available
  poll_bucket-Spends m n key d e id b ready r =
      let put = put_bucket-Room c k l now m n n key b e (λ is. (ready is).0) (λ ne. refl) r in
      if_cases (Spends m n (grant k key)) (not b.policy.enabled) _ _
        (λ off.
          recount c k l now m n _ _ (rw (switched_on m n key b ready (ground arith)) (omega arith))
            (detach-Room c k l now m n _ id put))
        λ on.
          if_cases (Spends m n (grant k key)) (is_front id b.queue && available b) _ _
            (λ room.
              enter-Room c k l now m n key id (record b { queue = tail b.queue }) e
                (&&_right (is_front id b.queue) (available b) room)
                (set_queue-Ready c k l now m n key (tail b.queue) b ready) r)
            (λ busy. refused m n key _ put)

  poll_queued-After :
      (m n : ℕ) (key : ScopeKey) (d : ℕ) (e : Engine ℕ) (id : String)
      → Inv e
      → get id e.requests ≡ some (queued key d)
      → OkAt m n e
      → After m n (grant k key) (poll_queued key d e id now)
  unfolding poll_queued
  poll_queued-After m n key d e id v h r =
      if_cases (After m n (grant k key)) (leb d now) _ _
        (λ late. refused m n key _ (detach-Room c k l now m n e id r))
        λ early.
          let (b, found) = queued_bucket e v id key d h in
          rw found (
            poll_bucket-Spends m n key d e id (refill b now)
              (refill-Ready c k l now m n key b e found r) r)

  pub nothing : (m n : ℕ) (e : Engine ℕ) → OkAt m n e → OkAt m (0 + n) e
  nothing m n e r = recount c k l now m n (0 + n) e (omega arith) r

  -- Of a request that does not wait.
  unserved :
      (m n : ℕ) (e : Engine ℕ) (id : String) (d : Decision)
      → OkAt m n e
      → After m n (λ _. 0) (if e.stopping then some (detach e id, reject stopping) else some (e, d))
  unserved m n e id d r =
      if_cases (After m n (λ _. 0)) e.stopping _ _
        (λ s. nothing m n _ (detach-Room c k l now m n e id r)) (λ s. nothing m n e r)

  pub poll-After :
      (m n : ℕ) (e : Engine ℕ) (id : String)
      → Inv e
      → OkAt m n e
      → After m n (poll_grant k (get id e.requests)) (poll e id now)
  unfolding poll
  poll-After m n e id v r = elim (Option-cases (get id e.requests)) [
    | inl h ↦ rw h (unserved m n e id (reject request_ended) r)
    | inr (idle, h) ↦ rw h (unserved m n e id admit r)
    | inr (active key, h) ↦ rw h (unserved m n e id admit r)
    | inr (queued key d, h) ↦ rw h (
        if_cases (After m n (grant k key)) e.stopping _ _
          (λ s. refused m n key _ (detach-Room c k l now m n e id r))
          (λ s. poll_queued-After m n key d e id v h r))
  ]
