-- ===== src/Engine/Kept.antt =====
-- Properties of single buckets of src/engine.rs that its bucket operations keep, over the engine.
pub mod Calls
use cpa_stg.Base.Map.{get, insert, get-insert}
use cpa_stg.Base.Map.Every.{Every, Every-insert}
use cpa_stg.Base.Map.Totals.{total, weigh-le-total}
use cpa_stg.Base.{
  ℕ, ◌+◌, ◌≤◌, ◌<◌, String, Bool, true, false, not, ◌&&◌, Option, none, some, List, [], ◌∷◌, ◌++◌,
  ◌≡◌, refl, sym, ap, ◌∙◌, ◌==◌, ==_iff, ==_refl, string_eq, if◌then◌else◌, length, tail, leb,
  arith, inl, inr, if_cases, &&_left, &&_right, Option-cases, is_empty,
}
use cpa_stg.Config
use cpa_stg.Config.{Config, Policy}
use cpa_stg.Engine.Admission.{Returned, enter, poll_bucket, poll_queued, poll}
use cpa_stg.Engine.Buckets.{Bucket, new_bucket, refill, available, charge}
use cpa_stg.Engine.Consistent.Moves.{put_bucket-Inv}
use cpa_stg.Engine.Consistent.Poll.{queued_bucket, refill-Agrees}
use cpa_stg.Engine.Consistent.{Inv, Leaves, Returns, active_in, active_of}
use cpa_stg.Engine.Types.{ScopeKey, scope_name, scope_eq, Decision, Phase, idle, active, queued}
use cpa_stg.Engine.{
  Engine, is_front, without, detach, leave, update_bucket, drop_active, drop_queued, put_bucket,
  join_queue,
}
use cpa_stg.Float.{F64}

module _ {T : Type 0} ⦃f : F64 T⦄ where
  -- The bucket operations keep `P` under configuration `c`.
  pub record Closed (c : Config) (P : ScopeKey → Bucket T → Type 0) : Type 0 where
    pub of_new :
        (k : ScopeKey) (now : ℕ)
        → (Config.policy c (scope_name k)).enabled ≡ true
        → P k (new_bucket (Config.policy c (scope_name k)) now)
    pub of_refill : (k : ScopeKey) (b : Bucket T) (now : ℕ) → P k b → P k (refill b now)
    pub of_charge : (k : ScopeKey) (b : Bucket T) → available b ≡ true → P k b → P k (charge b)
    pub of_release : (k : ScopeKey) (b : Bucket T) → 0 < b.active → P k b → P k (drop_active b)
    pub of_cancel : (k : ScopeKey) (b : Bucket T) (id : String) → P k b → P k (drop_queued id b)
    pub of_serve : (k : ScopeKey) (b : Bucket T) → P k b → P k (record b { queue = tail b.queue })
    pub of_join :
        (k : ScopeKey) (b : Bucket T) (id : String)
        → length b.queue < b.policy.max_queue
        → P k b
        → P k (record b { queue = b.queue ++ id ∷ [] })

  module _ (c : Config) (P : ScopeKey → Bucket T → Type 0) (closed : Closed c P) where
    pub record Good (e : Engine T) : Type 0 where
      pub same_config : e.config ≡ c
      pub every : Every P e.buckets

    pub put_bucket-Good :
        (key : ScopeKey) (b : Bucket T) (e : Engine T)
        → P key b
        → Good e
        → Good (put_bucket key b e)
    put_bucket-Good key b e pb g = record {
      same_config = g.same_config;
      every = Every-insert P key b e.buckets pb g.every;
    }

    update_bucket-Good :
        (key : ScopeKey) (h : Bucket T → Bucket T) (e : Engine T)
        → ((b : Bucket T) → get key e.buckets ≡ some b → P key (h b))
        → Good e
        → Good (update_bucket key h e)
    unfolding update_bucket
    update_bucket-Good key h e ph g = elim (Option-cases (get key e.buckets)) [
      | inl gone ↦ rw (gone, update_bucket) g
      | inr (b, found) ↦ rw (found, update_bucket) (put_bucket-Good key (h b) e (ph b found) g)
    ]

    leave-Good :
        (id : String) (phase : Phase) (e : Engine T)
        → Inv e
        → get id e.requests ≡ some phase
        → Good e
        → Good (leave id phase (record e { requests = insert id idle e.requests }))
    unfolding leave
    leave-Good id idle e v h g = record { same_config = g.same_config; every = g.every }
    leave-Good id (active key) e v h g =
        update_bucket-Good key drop_active _
          (λ b found.
            closed.of_release key b
              (ground (
                arith,
                found,
                v.active_count key,
                weigh-le-total (active_in key) id e.requests,
                h,
                ==_iff key key,
              ))
              (g.every key b found))
          (record { same_config = g.same_config; every = g.every })
    leave-Good id (queued key d) e v h g =
        update_bucket-Good key (drop_queued id) _
          (λ b found. closed.of_cancel key b id (g.every key b found))
          (record { same_config = g.same_config; every = g.every })

    pub detach-Good : (e : Engine T) (id : String) → Inv e → Good e → Good (detach e id)
    unfolding detach
    detach-Good e id v g = elim (Option-cases (get id e.requests)) [
      | inl h ↦ rw (h, detach) g
      | inr (phase, h) ↦ rw (h, detach) (leave-Good id phase e v h g)
    ]

    pub enter-Good :
        (key : ScopeKey) (id : String) (b : Bucket T) (e : Engine T)
        → available b ≡ true
        → P key b
        → Good e
        → Good (enter key id b e)
    unfolding enter
    enter-Good key id b e room pb g = record {
      same_config = g.same_config;
      every = Every-insert P key (charge b) e.buckets (closed.of_charge key b room pb) g.every;
    }

    poll_bucket-Good :
        (key : ScopeKey) (d : ℕ) (e : Engine T) (id : String) (now : ℕ) (b : Bucket T)
        → Inv (put_bucket key b e)
        → P key b
        → Good e
        → Good (poll_bucket key d e id now b).0
    unfolding poll_bucket available
    poll_bucket-Good key d e id now b v pb g =
        if_cases (Leaves Good) (not b.policy.enabled) _ _
          (λ off. detach-Good _ id v (put_bucket-Good key b e pb g))
          λ on.
            if_cases (Leaves Good) (is_front id b.queue && available b) _ _
              (λ room.
                enter-Good key id (record b { queue = tail b.queue }) e
                  (&&_right (is_front id b.queue) (available b) room) (closed.of_serve key b pb) g)
              (λ busy. put_bucket-Good key b e pb g)

    poll_queued-Good :
        (key : ScopeKey) (d : ℕ) (e : Engine T) (id : String) (now : ℕ)
        → Inv e
        → get id e.requests ≡ some (queued key d)
        → Good e
        → Returns Good (poll_queued key d e id now)
    unfolding poll_queued
    poll_queued-Good key d e id now v h g =
        if_cases (Returns Good) (leb d now) _ _ (λ late. detach-Good e id v g)
          λ early.
            let (b, found) = queued_bucket e v id key d h in
            let b' = refill b now in
            rw found (
              poll_bucket-Good key d e id now b'
                (put_bucket-Inv e key b' v (refill-Agrees e key now b found))
                (closed.of_refill key b now (g.every key b found)) g)

    pub poll-Good :
        (e : Engine T) (id : String) (now : ℕ) → Inv e → Good e → Returns Good (poll e id now)
    unfolding poll
    poll-Good e id now v g =
        if_cases (Returns Good) e.stopping _ _ (λ s. detach-Good e id v g)
          λ s. elim (Option-cases (get id e.requests)) [
            | inl h ↦ rw h g
            | inr (idle, h) ↦ rw h g
            | inr (active key, h) ↦ rw h g
            | inr (queued key d, h) ↦ rw h (poll_queued-Good key d e id now v h g)
          ]

    pub join_queue-Good :
        (key : ScopeKey) (id : String) (now : ℕ) (b : Bucket T) (e : Engine T)
        → length b.queue < b.policy.max_queue
        → P key b
        → Good e
        → Good (join_queue key id now b e)
    unfolding join_queue
    join_queue-Good key id now b e space pb g = record {
      same_config = g.same_config;
      every = Every-insert P key _ e.buckets (closed.of_join key b id space pb) g.every;
    }
