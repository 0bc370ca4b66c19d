-- ===== src/Engine/Consistent/Attempt.antt =====
-- `Engine::start_attempt` of src/engine.rs and the consistency of the engine.
use cpa_stg.Base.Map.{get, get-insert, contains_key, retain_map}
use cpa_stg.Base.Map.Totals.{Unique-retain_map, get-retain_map, keep_if}
use cpa_stg.Base.{
  ℕ, String, Bool, true, false, not, ◌&&◌, Option, none, some, ◌≡◌, refl, string_eq, ℕ_eq, leb,
  length, is_empty, arith, inl, inr, if_cases, Option-cases, ==_refl,
}
use cpa_stg.Config
use cpa_stg.Config.{Policy}
use cpa_stg.Engine.Admission.{
  in_use, ensure_bucket, attempt_bucket, attempt_room, attempt, start_attempt,
}
use cpa_stg.Engine.Buckets.{Bucket, new_bucket, refill, available}
use cpa_stg.Engine.Consistent.Detach.{detach-Inv, get-detach}
use cpa_stg.Engine.Consistent.Moves.{Agrees, put_bucket-Inv, enter-Inv, join_queue-Inv}
use cpa_stg.Engine.Consistent.Poll.{poll-Inv, refill-Agrees}
use cpa_stg.Engine.Consistent.{Inv, Leaves, Returns, active_of, queue_of}
use cpa_stg.Engine.Types.{ScopeKey, credential, scope_eq, Phase, idle, active, queued}
use cpa_stg.Engine.{Engine, detach, put_bucket}
use cpa_stg.Float.{F64}

module _ {T : Type 0} ⦃f : F64 T⦄ where
  -- Only a bucket with no request in it is dropped.
  dropped-active_of :
      (now : ℕ) (o : Option (Bucket T))
      → active_of (keep_if (λ b. refill b now) in_use o) ≡ active_of o
  unfolding in_use refill
  dropped-active_of now none = refl
  dropped-active_of now (some b) = ground arith

  pub dropped-queue_of :
      (now : ℕ) (o : Option (Bucket T))
      → queue_of (keep_if (λ b. refill b now) in_use o) ≡ queue_of o
  unfolding in_use refill
  dropped-queue_of now none = refl
  dropped-queue_of now (some b) = ground arith

  dropped-Inv :
      (now : ℕ) (e : Engine T)
      → Inv e
      → Inv (record e { buckets = retain_map (λ b. refill b now) in_use e.buckets })
  dropped-Inv now e v = record {
    requests_unique = v.requests_unique;
    buckets_unique = Unique-retain_map _ in_use e.buckets v.buckets_unique;
    active_count = λ k.
        rw
          (
            get-retain_map (λ b. refill b now) in_use k e.buckets v.buckets_unique,
            dropped-active_of now (get k e.buckets),
          )
          (v.active_count k);
    queue_count = λ k id.
        rw
          (
            get-retain_map (λ b. refill b now) in_use k e.buckets v.buckets_unique,
            dropped-queue_of now (get k e.buckets),
          )
          (v.queue_count k id);
  }

  pub absent_kept :
      (key : ScopeKey) (now : ℕ) (e : Engine T)
      → Inv e
      → contains_key key e.buckets ≡ false
      → get key (retain_map (λ b. refill b now) in_use e.buckets) ≡ none
  absent_kept key now e v h =
      ground (arith, get-retain_map (λ b. refill b now) in_use key e.buckets v.buckets_unique)

  new_bucket-Inv :
      (key : ScopeKey) (p : Policy) (now : ℕ) (e : Engine T)
      → Inv e
      → get key e.buckets ≡ none
      → Inv (put_bucket key (new_bucket p now) e)
  unfolding new_bucket
  new_bucket-Inv key p now e v gone =
      put_bucket-Inv e key (new_bucket p now) v
        (record { same_active = rw gone; same_queue = rw gone })

  pub ensure_bucket-Inv :
      (key : ScopeKey) (p : Policy) (now : ℕ) (e : Engine T)
      → Inv e
      → Inv (ensure_bucket key p now e).0
  unfolding ensure_bucket
  ensure_bucket-Inv key p now e v =
      if_cases (Leaves Inv) (contains_key key e.buckets) _ _ (λ _. v)
        λ absent.
          if_cases (Leaves Inv) _ _ _ (λ _. dropped-Inv now e v)
            λ _. new_bucket-Inv key p now _ (dropped-Inv now e v) (absent_kept key now e v absent)

  pub ensure_bucket-requests :
      (key : ScopeKey) (p : Policy) (now : ℕ) (e : Engine T)
      → (ensure_bucket key p now e).0.requests ≡ e.requests
  unfolding ensure_bucket
  ensure_bucket-requests key p now e = ground arith

  pub ensure_bucket-get :
      (key : ScopeKey) (p : Policy) (now : ℕ) (e : Engine T)
      → (ensure_bucket key p now e).1 ≡ true
      → (b : Bucket T) × (get key (ensure_bucket key p now e).0.buckets ≡ some b)
  unfolding ensure_bucket
  ensure_bucket-get key p now e h = elim (Option-cases (get key e.buckets)) [
    | inr (b, found) ↦ (b, ground (arith, found))
    | inl gone ↦ (
      new_bucket p now,
      ground (
        arith,
        gone,
        get-insert key key (new_bucket p now) (retain_map (λ b. refill b now) in_use e.buckets),
        ==_refl key,
      ),
    )
  ]

  attempt_bucket-Inv :
      (key : ScopeKey) (id : String) (now : ℕ) (b : Bucket T) (e : Engine T)
      → Inv e
      → Agrees e key b
      → get id e.requests ≡ some idle
      → Returns Inv (attempt_bucket key id now b e)
  unfolding attempt_bucket
  attempt_bucket-Inv key id now b e v a h =
      if_cases (Returns Inv) (is_empty b.queue && available b) _ _
        (λ room. enter-Inv e key b v a id h)
        λ busy.
          if_cases (Returns Inv) (leb b.policy.max_queue (length b.queue)) _ _
            (λ full. put_bucket-Inv e key b v a)
            λ space. poll-Inv _ id now (join_queue-Inv e key b v a id now h)

  attempt_room-Inv :
      (key : ScopeKey) (id : String) (now : ℕ) (e : Engine T) (room : Bool)
      → Inv e
      → (room ≡ true → (b : Bucket T) × (get key e.buckets ≡ some b))
      → get id e.requests ≡ some idle
      → Returns Inv (attempt_room key id now (e, room))
  unfolding attempt_room
  attempt_room-Inv key id now e false v g h = v
  attempt_room-Inv key id now e true v g h =
      let (b, found) = g refl in
      rw found
        (attempt_bucket-Inv key id now (refill b now) e v (refill-Agrees e key now b found) h)

  attempt-Inv :
      (e : Engine T) (id name : String) (now : ℕ) {phase : Phase}
      → Inv e
      → get id e.requests ≡ some phase
      → Returns Inv (attempt e id name now)
  unfolding attempt
  attempt-Inv e id name now {phase} v h =
      let e' = detach e id in
      let p = Config.policy e'.config name in
      let key = credential name in
      let v' = detach-Inv e id v in
      let h' : get id e'.requests ≡ some idle = rw (get-detach e id id, h, ==_refl id) refl in
      if_cases (Returns Inv) (not p.enabled) _ _ (λ off. v')
        λ on.
          attempt_room-Inv key id now (ensure_bucket key p now e').0 (ensure_bucket key p now e').1
            (ensure_bucket-Inv key p now e' v') (ensure_bucket-get key p now e')
            (rw (ensure_bucket-requests key p now e') h')

  pub start_attempt-Inv :
      (e : Engine T) (id name : String) (now : ℕ)
      → Inv e
      → Returns Inv (start_attempt e id name now)
  unfolding start_attempt
  start_attempt-Inv e id name now v =
      if_cases (Returns Inv) e.stopping _ _ (λ s. v)
        λ s. elim (Option-cases (get id e.requests)) [
          | inl h ↦ rw h v
          | inr (idle, h) ↦ rw h (attempt-Inv e id name now v h)
          | inr (active key, h) ↦ rw h (attempt-Inv e id name now v h)
          | inr (queued key d, h) ↦ rw h v
        ]
