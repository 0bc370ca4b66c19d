-- ===== src/Engine/Consistent/Moves.antt =====
-- The moves of the admission operations of src/engine.rs, each on one bucket and one request.
-- `Agrees` says that a bucket taken out and refilled is still the one of its key.
use cpa_stg.Base.Map.{get, get-insert}
use cpa_stg.Base.Map.Totals.{total-insert, Unique-insert}
use cpa_stg.Base.{
  ℕ, ◌+◌, ◌*◌, String, true, some, List, [], ◌∷◌, ◌++◌, ◌≡◌, ◌==◌, ==_iff, string_eq, if◌then◌else◌,
  count, count-append, tail, arith,
}
use cpa_stg.Engine.Admission.{enter}
use cpa_stg.Engine.Buckets.{Bucket, charge}
use cpa_stg.Engine.Consistent.{Inv, active_in, active_of, queue_of}
use cpa_stg.Engine.Types.{ScopeKey, scope_eq, idle, active, queued}
use cpa_stg.Engine.{Engine, is_front, put_bucket, join_queue}
use cpa_stg.Float.{F64}

pub record Agrees {T : Type 0} (e : Engine T) (key : ScopeKey) (b : Bucket T) : Type 0 where
  pub same_active : b.active ≡ active_of (get key e.buckets)
  pub same_queue : b.queue ≡ queue_of (get key e.buckets)

tail-front :
    (id other : String) (q : List String)
    → is_front id q ≡ true
    → count other q ≡ (if id == other then 1 else 0) + count other (tail q)
tail-front id other [] h = cc
tail-front id other (x ∷ q) h = ground (arith, ==_iff x id, ==_iff x other, ==_iff id other)

module _ {T : Type 0} (e : Engine T) (key : ScopeKey) (b : Bucket T) (v : Inv e)
    (a : Agrees e key b) where
  pub put_bucket-Inv : Inv (put_bucket key b e)
  put_bucket-Inv = record {
    requests_unique = v.requests_unique;
    buckets_unique = Unique-insert key b e.buckets v.buckets_unique;
    active_count = λ k.
        ground (arith, v.active_count k, ==_iff key k, get-insert key k b e.buckets, a.same_active);
    queue_count = λ k id.
        ground
          (arith, v.queue_count k id, ==_iff key k, get-insert key k b e.buckets, a.same_queue);
  }

  module _ ⦃f : F64 T⦄ (id : String) where
    -- A request that holds nothing enters.
    pub enter-Inv : get id e.requests ≡ some idle → Inv (enter key id b e)
    unfolding enter charge
    enter-Inv h = record {
      requests_unique = Unique-insert id (active key) e.requests v.requests_unique;
      buckets_unique = Unique-insert key (charge b) e.buckets v.buckets_unique;
      active_count = λ k. ground (
        arith,
        v.active_count k,
        ==_iff key k,
        get-insert key k (charge b) e.buckets,
        a.same_active,
        total-insert (active_in k) id (active key) e.requests,
      );
      queue_count = λ k other. ground (
        arith,
        v.queue_count k other,
        ==_iff key k,
        get-insert key k (charge b) e.buckets,
        a.same_queue,
        get-insert id other (active key) e.requests,
        ==_iff id other,
      );
    }

    -- The head of the queue leaves it and enters.
    pub enter-front-Inv :
        (d : ℕ)
        → get id e.requests ≡ some (queued key d)
        → is_front id b.queue ≡ true
        → Inv (enter key id (record b { queue = tail b.queue }) e)
    unfolding enter charge
    enter-front-Inv d h front =
        let b' = charge (record b { queue = tail b.queue }) in
        record {
          requests_unique = Unique-insert id (active key) e.requests v.requests_unique;
          buckets_unique = Unique-insert key b' e.buckets v.buckets_unique;
          active_count = λ k. ground (
            arith,
            v.active_count k,
            ==_iff key k,
            get-insert key k b' e.buckets,
            a.same_active,
            total-insert (active_in k) id (active key) e.requests,
          );
          queue_count = λ k other. ground (
            arith,
            v.queue_count k other,
            ==_iff key k,
            get-insert key k b' e.buckets,
            a.same_queue,
            get-insert id other (active key) e.requests,
            ==_iff id other,
            tail-front id other b.queue front,
          );
        }

  pub join_queue-Inv :
      (id : String) (now : ℕ) → get id e.requests ≡ some idle → Inv (join_queue key id now b e)
  unfolding join_queue
  join_queue-Inv id now h =
      let b' = record b { queue = b.queue ++ id ∷ [] } in
      let phase = queued key (now + b.policy.queue_timeout_ms * 1_000_000) in
      record {
        requests_unique = Unique-insert id phase e.requests v.requests_unique;
        buckets_unique = Unique-insert key b' e.buckets v.buckets_unique;
        active_count = λ k. ground (
          arith,
          v.active_count k,
          ==_iff key k,
          get-insert key k b' e.buckets,
          a.same_active,
          total-insert (active_in k) id phase e.requests,
        );
        queue_count = λ k other. ground (
          arith,
          v.queue_count k other,
          ==_iff key k,
          get-insert key k b' e.buckets,
          a.same_queue,
          get-insert id other phase e.requests,
          ==_iff id other,
          count-append other b.queue (id ∷ []),
        );
      }
