-- ===== src/Engine/Consistent/Detach.antt =====
-- `Engine::detach` of src/engine.rs and the consistency of the engine.
use mathlib.Core.Option
use cpa_stg.Base.Map.{get, insert, get-insert}
use cpa_stg.Base.Map.Totals.{total, total-insert, weigh-le-total, Unique, Unique-insert}
use cpa_stg.Base.{
  String, none, some, ◌≡◌, refl, ◌==◌, ==_iff, string_eq, if◌then◌else◌, count, count-retain, arith,
  Option-cases, inl, inr,
}
use cpa_stg.Engine.{Engine, detach, leave, update_bucket, drop_active, drop_queued}
use cpa_stg.Engine.Buckets.{Bucket}
use cpa_stg.Engine.Consistent.{Inv, active_in, active_of, queue_of, waits}
use cpa_stg.Engine.Types.{ScopeKey, scope_eq, Phase, idle, active, queued}

module _ {T : Type 0} where
  pub get-update_bucket :
      (key k : ScopeKey) (g : Bucket T → Bucket T) (e : Engine T)
      → get k (update_bucket key g e).buckets
        ≡ (if key == k then Option.map g (get k e.buckets) else get k e.buckets)
  unfolding update_bucket
  get-update_bucket key k g e = elim (Option-cases (get key e.buckets)) [
    | inl h ↦ rw (h, update_bucket) (ground (arith, ==_iff key k))
    | inr (b, h) ↦
        rw (h, update_bucket) (ground (arith, ==_iff key k, get-insert key k (g b) e.buckets))
  ]

  Unique-update_bucket :
      (key : ScopeKey) (g : Bucket T → Bucket T) (e : Engine T)
      → Unique e.buckets
      → Unique (update_bucket key g e).buckets
  unfolding update_bucket
  Unique-update_bucket key g e u = elim (Option-cases (get key e.buckets)) [
    | inl h ↦ rw (h, update_bucket) u
    | inr (b, h) ↦ rw (h, update_bucket) (Unique-insert key (g b) e.buckets u)
  ]

  requests-update_bucket :
      (key : ScopeKey) (g : Bucket T → Bucket T) (e : Engine T)
      → (update_bucket key g e).requests ≡ e.requests
  unfolding update_bucket
  requests-update_bucket key g e = ground arith

module _ {T : Type 0} (e : Engine T) (v : Inv e) (id : String) where
  abbrev idled : Engine T
  idled = record e { requests = insert id idle e.requests }

  active-leave :
      (phase : Phase) (k : ScopeKey)
      → get id e.requests ≡ some phase
      → active_of (get k (leave id phase idled).buckets)
        ≡ total (active_in k) (insert id idle e.requests)
  unfolding leave
  active-leave idle k h =
      ground (arith, v.active_count k, total-insert (active_in k) id idle e.requests)
  active-leave (active key) k h = ground (
    arith,
    v.active_count k,
    total-insert (active_in k) id idle e.requests,
    weigh-le-total (active_in key) id e.requests,
    ==_iff key k,
    get-update_bucket key k drop_active idled,
  )
  active-leave (queued key d) k h = ground (
    arith,
    v.active_count k,
    total-insert (active_in k) id idle e.requests,
    ==_iff key k,
    get-update_bucket key k (drop_queued id) idled,
  )

  queue-leave :
      (phase : Phase) (k : ScopeKey) (other : String)
      → get id e.requests ≡ some phase
      → count other (queue_of (get k (leave id phase idled).buckets))
        ≡ waits k (get other (insert id idle e.requests))
  unfolding leave
  queue-leave idle k other h =
      ground (arith, v.queue_count k other, get-insert id other idle e.requests, ==_iff id other)
  queue-leave (active key) k other h = ground (
    arith,
    v.queue_count k other,
    get-insert id other idle e.requests,
    ==_iff id other,
    get-update_bucket key k drop_active idled,
  )
  queue-leave (queued key d) k other h = ground (
    arith,
    v.queue_count k other,
    get-insert id other idle e.requests,
    ==_iff id other,
    ==_iff key k,
    get-update_bucket key k (drop_queued id) idled,
    count-retain id other (queue_of (get k e.buckets)),
  )

module _ {T : Type 0} where
  Unique-leave :
      (e : Engine T) (id : String) (phase : Phase)
      → Unique e.buckets
      → Unique (leave id phase e).buckets
  unfolding leave
  Unique-leave e id idle u = u
  Unique-leave e id (active key) u = Unique-update_bucket key drop_active e u
  Unique-leave e id (queued key d) u = Unique-update_bucket key (drop_queued id) e u

  requests-leave :
      (e : Engine T) (id : String) (phase : Phase) → (leave id phase e).requests ≡ e.requests
  unfolding leave
  requests-leave e id idle = refl
  requests-leave e id (active key) = requests-update_bucket key drop_active e
  requests-leave e id (queued key d) = requests-update_bucket key (drop_queued id) e

  leave-Inv :
      (e : Engine T)
      → Inv e
      → (id : String) (phase : Phase) → get id e.requests ≡ some phase
      → Inv (leave id phase (record e { requests = insert id idle e.requests }))
  leave-Inv e v id phase h =
      let kept = requests-leave (record e { requests = insert id idle e.requests }) id phase in
      record {
        requests_unique = rw kept (Unique-insert id idle e.requests v.requests_unique);
        buckets_unique = Unique-leave _ id phase v.buckets_unique;
        active_count = λ k. rw kept (active-leave e v id phase k h);
        queue_count = λ k other. rw kept (queue-leave e v id phase k other h);
      }

  pub detach-Inv : (e : Engine T) (id : String) → Inv e → Inv (detach e id)
  unfolding detach
  detach-Inv e id v = elim (Option-cases (get id e.requests)) [
    | inl h ↦ rw (h, detach) v
    | inr (phase, h) ↦ rw (h, detach) (leave-Inv e v id phase h)
  ]

  -- After it the request holds nothing.
  pub requests-detach :
      (e : Engine T) (id : String)
      → (detach e id).requests
        ≡ elim (get id e.requests) [ none ↦ e.requests | some _ ↦ insert id idle e.requests ]
  unfolding detach
  requests-detach e id = elim (Option-cases (get id e.requests)) [
    | inl h ↦ rw (h, detach) refl
    | inr (phase, h) ↦ rw (h, detach) (requests-leave _ id phase)
  ]

  pub get-detach :
      (e : Engine T) (id other : String)
      → get other (detach e id).requests ≡ (
          if id == other
          then elim (get id e.requests) [ none ↦ none | some _ ↦ some idle ]
          else get other e.requests)
  get-detach e id other =
      ground (arith, requests-detach e id, get-insert id other idle e.requests, ==_iff id other)
