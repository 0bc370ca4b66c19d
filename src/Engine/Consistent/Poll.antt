-- ===== src/Engine/Consistent/Poll.antt =====
-- `Engine::poll` of src/engine.rs and the consistency of the engine.
use cpa_stg.Base.Map.{get}
use cpa_stg.Base.{
  ℕ, String, not, ◌&&◌, some, ◌≡◌, ==_iff, string_eq, ℕ_eq, leb, arith, inl, inr, if_cases, &&_left,
  Option-cases,
}
use cpa_stg.Engine.Admission.{poll_bucket, poll_queued, poll}
use cpa_stg.Engine.Buckets.{Bucket, refill, available}
use cpa_stg.Engine.Consistent.Detach.{detach-Inv}
use cpa_stg.Engine.Consistent.Moves.{Agrees, put_bucket-Inv, enter-front-Inv}
use cpa_stg.Engine.Consistent.{Inv, Leaves, Returns}
use cpa_stg.Engine.Types.{ScopeKey, scope_eq, idle, active, queued}
use cpa_stg.Engine.{Engine, is_front}
use cpa_stg.Float.{F64}

module _ {T : Type 0} where
  pub queued_bucket :
      (e : Engine T)
      → Inv e
      → (id : String) (key : ScopeKey) (d : ℕ) → get id e.requests ≡ some (queued key d)
      → (b : Bucket T) × (get key e.buckets ≡ some b)
  queued_bucket e v id key d h = elim (Option-cases (get key e.buckets)) [
    | inl gone ↦ absurd (ground (arith, v.queue_count key id, gone, ==_iff key key))
    | inr found ↦ found
  ]

module _ {T : Type 0} ⦃f : F64 T⦄ where
  pub refill-Agrees :
      (e : Engine T) (key : ScopeKey) (now : ℕ) (b : Bucket T)
      → get key e.buckets ≡ some b
      → Agrees e key (refill b now)
  unfolding refill
  refill-Agrees e key now b h = record { same_active = rw h; same_queue = rw h }

  poll_bucket-Inv :
      (key : ScopeKey) (d : ℕ) (e : Engine T) (id : String) (now : ℕ) (b : Bucket T)
      → Inv e
      → Agrees e key b
      → get id e.requests ≡ some (queued key d)
      → Inv (poll_bucket key d e id now b).0
  unfolding poll_bucket
  poll_bucket-Inv key d e id now b v a h =
      if_cases (Leaves Inv) (not b.policy.enabled) _ _
        (λ off. detach-Inv _ id (put_bucket-Inv e key b v a))
        λ on.
          if_cases (Leaves Inv) (is_front id b.queue && available b) _ _
            (λ room.
              enter-front-Inv e key b v a id d h (&&_left (is_front id b.queue) (available b) room))
            (λ busy. put_bucket-Inv e key b v a)

  poll_queued-Inv :
      (key : ScopeKey) (d : ℕ) (e : Engine T) (id : String) (now : ℕ)
      → Inv e
      → get id e.requests ≡ some (queued key d)
      → Returns Inv (poll_queued key d e id now)
  unfolding poll_queued
  poll_queued-Inv key d e id now v h =
      if_cases (Returns Inv) (leb d now) _ _ (λ late. detach-Inv e id v)
        λ early.
          let (b, found) = queued_bucket e v id key d h in
          rw found
            (poll_bucket-Inv key d e id now (refill b now) v (refill-Agrees e key now b found) h)

  pub poll-Inv : (e : Engine T) (id : String) (now : ℕ) → Inv e → Returns Inv (poll e id now)
  unfolding poll
  poll-Inv e id now v =
      if_cases (Returns Inv) e.stopping _ _ (λ s. detach-Inv e id v)
        λ s. elim (Option-cases (get id e.requests)) [
          | inl h ↦ rw h v
          | inr (idle, h) ↦ rw h v
          | inr (active key, h) ↦ rw h v
          | inr (queued key d, h) ↦ rw h (poll_queued-Inv key d e id now v h)
        ]
