-- ===== src/Engine/Rate/Attempt.antt =====
-- `start_attempt` of the engine of src/engine.rs and the tokens of one credential, in exact arithmetic.
use mathlib.Core.Path.{subst}
use cpa_stg.Base.Map.{get, get-insert, retain_map, contains_key}
use cpa_stg.Base.Map.Totals.{get-retain_map}
use cpa_stg.Base.{
  ℕ, ◌+◌, ◌*◌, String, Bool, true, false, not, ◌&&◌, none, some, [], ◌∷◌, ◌++◌, ◌≡◌, refl, sym, ap,
  ◌∙◌, inl, inr, ◌==◌, ==_iff, ==_refl, string_eq, ℕ_eq, leb, length, is_empty, arith, if_cases,
  Bool-cases, Option-cases, &&_right,
}
use cpa_stg.Config
use cpa_stg.Config.{Config, Policy}
use cpa_stg.Engine.Admission.{
  in_use, poll, ensure_bucket, attempt_bucket, attempt_room, attempt, start_attempt,
}
use cpa_stg.Engine.Buckets.{Bucket, new_bucket, refill, available}
use cpa_stg.Engine.Consistent.Detach.{detach-Inv}
use cpa_stg.Engine.Consistent.{Inv}
use cpa_stg.Engine.Rate.{new_bucket-Covers, dropped-Covers}
use cpa_stg.Engine.Rate.Moves.{
  in_force, IsLimited, grant, CoversAt, Ready, put_bucket-Room, put_request-Room, recount,
  detach-Room, refill-Ready, set_queue-Ready, enter-Room,
}
use cpa_stg.Engine.Rate.Poll.{poll_grant, OkAt, After, refused, poll-After}
use cpa_stg.Engine.Consistent.Attempt.{ensure_bucket-Inv, ensure_bucket-get, ensure_bucket-requests}
use cpa_stg.Engine.Consistent.Detach.{get-detach}
use cpa_stg.Engine.Consistent.Moves.{join_queue-Inv}
use cpa_stg.Engine.Consistent.Poll.{refill-Agrees}
use cpa_stg.Engine.Types.{
  ScopeKey, credential, scope_name, scope_eq, admit, Phase, idle, active, queued,
}
use cpa_stg.Engine.{Engine, detach, join_queue}
use cpa_stg.Float.Fixed.{fixed}

module _ (c : Config) (k : ScopeKey) (l : IsLimited c k) (now : ℕ) where
  dropped-Room :
      (m n : ℕ) (e : Engine ℕ)
      → Inv e
      → OkAt c k l now m n e
      → OkAt c k l now m n (record e { buckets = retain_map (λ b. refill b now) in_use e.buckets })
  dropped-Room m n e v r = record {
    same_config = r.same_config;
    covers =
        subst (CoversAt c k l now m n)
          (sym (get-retain_map (λ b. refill b now) in_use k e.buckets v.buckets_unique))
          (dropped-Covers (in_force c k) l.limits now m n (get k e.buckets) r.covers);
  }

  fresh_key :
      (m n : ℕ) (key : ScopeKey) (e : Engine ℕ)
      → Inv e
      → contains_key key e.buckets ≡ false
      → OkAt c k l now m n e
      → (key == k) ≡ true
      → CoversAt c k l now m n none
  fresh_key m n key e v absent r is =
      let same : key ≡ k = (==_iff key k).0 is in
      subst (CoversAt c k l now m n)
        (subst (λ j. get j e.buckets ≡ none) same (ground (arith, absent))) r.covers

  ensure_bucket-Room :
      (m n : ℕ) (key : ScopeKey) (e : Engine ℕ)
      → Inv e
      → OkAt c k l now m n e
      → OkAt c k l now m n (ensure_bucket key (Config.policy c (scope_name key)) now e).0
  unfolding ensure_bucket
  ensure_bucket-Room m n key e v r =
      if_cases (λ (x : Engine ℕ × Bool). OkAt c k l now m n x.0) (contains_key key e.buckets) _ _
        (λ _. r)
        λ absent.
          if_cases (λ (x : Engine ℕ × Bool). OkAt c k l now m n x.0) _ _ _
            (λ _. dropped-Room m n e v r)
            λ _.
              put_bucket-Room c k l now m n n key _ _
                (λ is.
                  let same : key ≡ k = (==_iff key k).0 is in
                  subst
                    (λ j.
                      CoversAt c k l now m n
                        (some (new_bucket (Config.policy c (scope_name j)) now)))
                    (sym same)
                    (new_bucket-Covers (in_force c k) l.limits now m n
                      (fresh_key m n key e v absent r is)))
                (λ ne. refl) (dropped-Room m n e v r)

  join_queue-Room :
      (m n : ℕ) (key : ScopeKey) (id : String) (b : Bucket ℕ) (e : Engine ℕ)
      → Ready c k l now m n key b
      → OkAt c k l now m n e
      → OkAt c k l now m n (join_queue key id now b e)
  unfolding join_queue
  join_queue-Room m n key id b e ready r =
      let q = b.queue ++ id ∷ [] in
      put_request-Room c k l now m n id _ _ (
        put_bucket-Room c k l now m n n key (record b { queue = q }) e
          (λ is. (set_queue-Ready c k l now m n key q b ready is).0) (λ ne. refl) r)

  -- The request has just joined the queue.
  joined-After :
      (m n : ℕ) (key : ScopeKey) (id : String) (b : Bucket ℕ) (e : Engine ℕ)
      → Inv (join_queue key id now b e)
      → Ready c k l now m n key b
      → OkAt c k l now m n e
      → After c k l now m n (grant k key) (poll (join_queue key id now b e) id now)
  joined-After m n key id b e v ready r =
      let d = now + b.policy.queue_timeout_ms * 1_000_000 in
      let waits : get id (join_queue key id now b e).requests ≡ some (queued key d) =
        unfold join_queue in (get-insert id id (queued key d) e.requests ∙ rw (==_refl id) refl) in
      subst (λ o. After c k l now m n (poll_grant k o) (poll (join_queue key id now b e) id now))
        waits (poll-After c k l now m n _ id v (join_queue-Room m n key id b e ready r))

  attempt_bucket-After :
      (m n : ℕ) (key : ScopeKey) (id : String) (b : Bucket ℕ) (e : Engine ℕ)
      → Inv (join_queue key id now b e)
      → Ready c k l now m n key b
      → OkAt c k l now m n e
      → After c k l now m n (grant k key) (attempt_bucket key id now b e)
  unfolding attempt_bucket
  attempt_bucket-After m n key id b e v ready r =
      if_cases (After c k l now m n (grant k key)) (is_empty b.queue && available b) _ _
        (λ room.
          enter-Room c k l now m n key id b e (&&_right (is_empty b.queue) (available b) room) ready
            r)
        λ busy.
          if_cases (After c k l now m n (grant k key)) (leb b.policy.max_queue (length b.queue)) _ _
            (λ full.
              refused c k l now m n key _
                (put_bucket-Room c k l now m n n key b e (λ is. (ready is).0) (λ ne. refl) r))
            (λ space. joined-After m n key id b e v ready r)

  attempt_room-After :
      (m n : ℕ) (key : ScopeKey) (id : String) (e : Engine ℕ) (room : Bool)
      → Inv e
      → (room ≡ true → (b : Bucket ℕ) × (get key e.buckets ≡ some b))
      → get id e.requests ≡ some idle
      → OkAt c k l now m n e
      → After c k l now m n (grant k key) (attempt_room key id now (e, room))
  unfolding attempt_room
  attempt_room-After m n key id e false v found h r = refused c k l now m n key e r
  attempt_room-After m n key id e true v found h r =
      let (b, is) = found refl in
      rw is (
        attempt_bucket-After m n key id (refill b now) e
          (join_queue-Inv e key (refill b now) v (refill-Agrees e key now b is) id now h)
          (refill-Ready c k l now m n key b e is r) r)

  unlimited :
      (key : ScopeKey) → (Config.policy c (scope_name key)).enabled ≡ false → (key == k) ≡ false
  unlimited key off = elim (Bool-cases (key == k)) [
    | inl is ↦
        let same : key ≡ k = (==_iff key k).0 is in
        absurd
          (ground (arith, off, l.is_on, ap (λ j. (Config.policy c (scope_name j)).enabled) same))
    | inr ne ↦ ne
  ]

  attempt-After :
      (m n : ℕ) (e : Engine ℕ) (id name : String) {phase : Phase}
      → Inv e
      → get id e.requests ≡ some phase
      → OkAt c k l now m n e
      → After c k l now m n (grant k (credential name)) (attempt e id name now)
  unfolding attempt
  attempt-After m n e id name v h r =
      let e' = detach e id in
      let p = Config.policy e'.config name in
      let key = credential name in
      let v' = detach-Inv e id v in
      let r' = detach-Room c k l now m n e id r in
      let h' : get id e'.requests ≡ some idle = rw (get-detach e id id, h, ==_refl id) refl in
      let same : p ≡ Config.policy c name =
        ap (λ (q : Config). Config.policy q name) r'.same_config in
      if_cases (After c k l now m n (grant k key)) (not p.enabled) _ _
        (λ off.
          let off' = sym (ap (λ (q : Policy). q.enabled) same) ∙ ground arith in
          recount c k l now m n (grant k key admit + n) _ (rw (unlimited key off') (omega arith))
            r')
        λ on.
          attempt_room-After m n key id (ensure_bucket key p now e').0
            (ensure_bucket key p now e').1 (ensure_bucket-Inv key p now e' v')
            (ensure_bucket-get key p now e') (rw (ensure_bucket-requests key p now e') h')
            (subst (λ q. OkAt c k l now m n (ensure_bucket key q now e').0) (sym same)
              (ensure_bucket-Room m n key e' v' r'))

  pub start_attempt-After :
      (m n : ℕ) (e : Engine ℕ) (id name : String)
      → Inv e
      → OkAt c k l now m n e
      → After c k l now m n (grant k (credential name)) (start_attempt e id name now)
  unfolding start_attempt
  start_attempt-After m n e id name v r =
      if_cases (After c k l now m n (grant k (credential name))) e.stopping _ _
        (λ s. refused c k l now m n (credential name) e r)
        λ s. elim (Option-cases (get id e.requests)) [
          | inl h ↦ rw h (refused c k l now m n (credential name) e r)
          | inr (idle, h) ↦ rw h (attempt-After m n e id name v h r)
          | inr (active key, h) ↦ rw h (attempt-After m n e id name v h r)
          | inr (queued key d, h) ↦ rw h (refused c k l now m n (credential name) e r)
        ]
