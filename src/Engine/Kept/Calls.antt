-- ===== src/Engine/Kept/Calls.antt =====
-- The calls on the engine of src/engine.rs and the properties of its single buckets.
use mathlib.Core.Path.{subst}
use cpa_stg.Base.Map.{get, retain_map, contains_key}
use cpa_stg.Base.Map.Every.{Every-retain_map}
use cpa_stg.Base.Result.{Result, ok, err}
use cpa_stg.Base.{
  ℕ, zero, suc, ◌+◌, String, Bool, true, false, not, ◌&&◌, some, List, [], ◌∷◌, ◌++◌, ◌≡◌, refl,
  sym, ap, ◌∙◌, ==_refl, string_eq, length, leb, arith, inl, inr, if_cases, &&_right, Option-cases,
  is_empty, reverse,
}
use cpa_stg.Config
use cpa_stg.Config.{Config, Policy}
use cpa_stg.Engine.Admission.{
  in_use, ensure_bucket, attempt_bucket, attempt_room, attempt, start_attempt,
}
use cpa_stg.Engine.Buckets.{Bucket, new_bucket, refill, available}
use cpa_stg.Engine.Consistent.Attempt.{ensure_bucket-Inv, ensure_bucket-get, ensure_bucket-requests}
use cpa_stg.Engine.Consistent.Detach.{detach-Inv, get-detach}
use cpa_stg.Engine.Consistent.Lifecycle.{unlink-Inv, end_one-Inv}
use cpa_stg.Engine.Consistent.Moves.{join_queue-Inv}
use cpa_stg.Engine.Consistent.Poll.{refill-Agrees}
use cpa_stg.Engine.Consistent.{Inv, Leaves, Returns}
use cpa_stg.Engine.Kept.{
  Closed, Good, put_bucket-Good, join_queue-Good, detach-Good, enter-Good, poll-Good,
}
use cpa_stg.Engine.Types.{
  ScopeKey, credential, scope_name, scope_eq, Rejection, Phase, idle, active, queued,
}
use cpa_stg.Engine.{
  Engine, begin, begin_child, begun, link, detach, join_queue, unlink, end_one, complete_loop,
  complete, child_count, or_nil, stop,
}
use cpa_stg.Float.{F64}

module _ {T : Type 0} ⦃f : F64 T⦄ (c : Config) (P : ScopeKey → Bucket T → Type 0)
    (closed : Closed c P) where
  abbrev Ok : Engine T → Type 0
  Ok = Good c P closed

  dropped-Good :
      (now : ℕ) (e : Engine T)
      → Inv e
      → Ok e
      → Ok (record e { buckets = retain_map (λ b. refill b now) in_use e.buckets })
  dropped-Good now e v g = record {
    same_config = g.same_config;
    every =
        Every-retain_map P (λ b. refill b now) in_use e.buckets v.buckets_unique
          (λ k b. closed.of_refill k b now) g.every;
  }

  fresh :
      (key : ScopeKey) (p : Policy) (now : ℕ)
      → p ≡ Config.policy c (scope_name key)
      → p.enabled ≡ true
      → P key (new_bucket p now)
  fresh key p now is on =
      subst (λ q. P key (new_bucket q now)) (sym is)
        (closed.of_new key now (sym (ap (λ (q : Policy). q.enabled) is) ∙ on))

  ensure_bucket-Good :
      (key : ScopeKey) (p : Policy) (now : ℕ) (e : Engine T)
      → p ≡ Config.policy c (scope_name key)
      → p.enabled ≡ true
      → Inv e
      → Ok e
      → Ok (ensure_bucket key p now e).0
  unfolding ensure_bucket
  ensure_bucket-Good key p now e is on v g =
      if_cases (Leaves Ok) (contains_key key e.buckets) _ _ (λ _. g)
        λ absent.
          if_cases (Leaves Ok) _ _ _ (λ _. dropped-Good now e v g)
            λ _. put_bucket-Good c P closed key _ _ (fresh key p now is on) (dropped-Good now e v g)

  attempt_bucket-Good :
      (key : ScopeKey) (id : String) (now : ℕ) (b : Bucket T) (e : Engine T)
      → Inv (join_queue key id now b e)
      → P key b
      → Ok e
      → Returns Ok (attempt_bucket key id now b e)
  unfolding attempt_bucket
  attempt_bucket-Good key id now b e v pb g =
      if_cases (Returns Ok) (is_empty b.queue && available b) _ _
        (λ room.
          enter-Good c P closed key id b e (&&_right (is_empty b.queue) (available b) room) pb g)
        λ busy.
          if_cases (Returns Ok) (leb b.policy.max_queue (length b.queue)) _ _
            (λ full. put_bucket-Good c P closed key b e pb g)
            λ space.
              poll-Good c P closed _ id now v
                (join_queue-Good c P closed key id now b e (ground arith) pb g)

  attempt_room-Good :
      (key : ScopeKey) (id : String) (now : ℕ) (e : Engine T) (room : Bool)
      → Inv e
      → (room ≡ true → (b : Bucket T) × (get key e.buckets ≡ some b))
      → get id e.requests ≡ some idle
      → Ok e
      → Returns Ok (attempt_room key id now (e, room))
  unfolding attempt_room
  attempt_room-Good key id now e false v found h g = g
  attempt_room-Good key id now e true v found h g =
      let (b, is) = found refl in
      let b' = refill b now in
      rw is (
        attempt_bucket-Good key id now b' e
          (join_queue-Inv e key b' v (refill-Agrees e key now b is) id now h)
          (closed.of_refill key b now (g.every key b is)) g)

  attempt-Good :
      (e : Engine T) (id name : String) (now : ℕ) {phase : Phase}
      → Inv e
      → get id e.requests ≡ some phase
      → Ok e
      → Returns Ok (attempt e id name now)
  unfolding attempt
  attempt-Good e id name now v h g =
      let e' = detach e id in
      let p = Config.policy e'.config name in
      let key = credential name in
      let v' = detach-Inv e id v in
      let g' = detach-Good c P closed e id v g in
      let h' : get id e'.requests ≡ some idle = rw (get-detach e id id, h, ==_refl id) refl in
      if_cases (Returns Ok) (not p.enabled) _ _ (λ off. g')
        λ on.
          attempt_room-Good key id now (ensure_bucket key p now e').0 (ensure_bucket key p now e').1
            (ensure_bucket-Inv key p now e' v') (ensure_bucket-get key p now e')
            (rw (ensure_bucket-requests key p now e') h')
            (ensure_bucket-Good key p now e'
              (ap (λ (q : Config). Config.policy q name) g'.same_config) (ground arith) v' g')

  pub start_attempt-Good :
      (e : Engine T) (id name : String) (now : ℕ)
      → Inv e
      → Ok e
      → Returns Ok (start_attempt e id name now)
  unfolding start_attempt
  start_attempt-Good e id name now v g =
      if_cases (Returns Ok) e.stopping _ _ (λ s. g)
        λ s. elim (Option-cases (get id e.requests)) [
          | inl h ↦ rw h g
          | inr (idle, h) ↦ rw h (attempt-Good e id name now v h g)
          | inr (active key, h) ↦ rw h (attempt-Good e id name now v h g)
          | inr (queued key d, h) ↦ rw h g
        ]

  pub begin-Good : (e : Engine T) (id : String) → Ok e → Ok (begin e id).0
  unfolding begin
  begin-Good e id g = ground arith

  begun-Good :
      (id parent : String) (e : Engine T) (r : Result Rejection (Unit {0}))
      → Ok e
      → Ok (begun id parent (e, r)).0
  unfolding begun link
  begun-Good id parent e (ok u) g = record { same_config = g.same_config; every = g.every }
  begun-Good id parent e (err x) g = g

  pub begin_child-Good : (e : Engine T) (id parent : String) → Ok e → Ok (begin_child e id parent).0
  unfolding begin_child
  begin_child-Good e id parent g =
      if_cases (Leaves Ok) _ _ _ (λ refused. g)
        λ allowed. begun-Good id parent (begin e id).0 (begin e id).1 (begin-Good e id g)

  end_one-Good : (id : String) (e : Engine T) → Inv e → Ok e → Ok (end_one id e)
  unfolding end_one unlink
  end_one-Good id e v g =
      let g' =
        detach-Good c P closed (unlink id e) id (unlink-Inv id e v)
          (record { same_config = g.same_config; every = g.every }) in
      record { same_config = g'.same_config; every = g'.every }

  complete_loop-Good :
      (fuel : ℕ) (pending : List String) (e : Engine T) {e' : Engine T}
      → Inv e
      → Ok e
      → complete_loop fuel pending e ≡ some e'
      → Ok e'
  unfolding complete_loop
  complete_loop-Good zero pending e v g h = cc
  complete_loop-Good (suc fuel) [] e {e'} v g h = let same : e ≡ e' = cc in subst Ok same g
  complete_loop-Good (suc fuel) (id ∷ pending) e v g h =
      complete_loop-Good fuel (reverse (or_nil (get id e.children)) ++ pending) (end_one id e)
        (end_one-Inv id e v) (end_one-Good id e v g) h

  pub complete-Good :
      (e : Engine T) (id : String) {e' : Engine T} → Inv e → Ok e → complete e id ≡ some e' → Ok e'
  unfolding complete
  complete-Good e id v g h = complete_loop-Good (child_count e.children + 2) (id ∷ []) e v g h

  pub stop-Good : (e : Engine T) → Ok e → Ok (stop e)
  unfolding stop
  stop-Good e g = record { same_config = g.same_config; every = g.every }
