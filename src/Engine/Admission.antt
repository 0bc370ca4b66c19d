-- ===== src/Engine/Admission.antt =====
-- src/engine.rs: the operations of `Engine` that admit, queue and wake requests, and the change of
-- its configuration. `none` is a panic of an `expect`.
use cpa_stg.Base.Map.{size, retain_map, update_all, get, insert, contains_key}
use cpa_stg.Base.Partial.{◌>>=◌}
use cpa_stg.Base.Result.{Result, ok, err}
use cpa_stg.Base.{
  ℕ, String, Bool, true, false, not, ◌&&◌, ◌||◌, Option, none, some, ◌==◌, ℕ_eq, string_eq,
  if◌then◌else◌, leb, length, tail, is_empty,
}
use cpa_stg.Config
use cpa_stg.Config.{Config, Policy}
use cpa_stg.Float.{F64}
use cpa_stg.Engine.Buckets.{Bucket, capacity, new_bucket, refill, available, charge, wake_at}
use cpa_stg.Engine.Types.{
  ScopeKey, credential, scope_name, scope_eq, queue_full, queue_timeout, request_ended,
  duplicate_wait, capacity as over_capacity, stopping, Decision, admit, wait_until, reject, idle,
  active, queued,
}
use cpa_stg.Engine.{Engine, is_front, detach, put_bucket, put_request, join_queue}

-- The engine and the decision that the operation returns.
abbrev pub Returned : Type 0 → Type 0
Returned T = Option (Engine T × Decision)

module _ {T : Type 0} ⦃f : F64 T⦄ where
  open f use {minimum, lt}

  -- The head of a queue, or a new request, takes a slot and a token.
  unfoldable pub enter : ScopeKey → String → Bucket T → Engine T → Engine T
  enter key id b e = put_request id (active key) (put_bucket key (charge b) e)

  -- Behind the deadline: the bucket is refilled, and the head of the queue tried.
  unfoldable pub poll_bucket : ScopeKey → ℕ → Engine T → String → ℕ → Bucket T → Engine T × Decision
  poll_bucket key deadline e id now b =
      if not b.policy.enabled
      then (detach (put_bucket key b e) id, admit)
      else if is_front id b.queue && available b
      then (enter key id (record b { queue = tail b.queue }) e, admit)
      else (
        put_bucket key b e,
        wait_until (if is_front id b.queue then wake_at b now deadline else deadline),
      )

  unfoldable pub poll_queued : ScopeKey → ℕ → Engine T → String → ℕ → Returned T
  poll_queued key deadline e id now =
      if leb deadline now
      then some (detach e id, reject queue_timeout)
      else do b ← get key e.buckets; some (poll_bucket key deadline e id now (refill b now))

  unfoldable pub poll : Engine T → String → ℕ → Returned T
  poll e id now =
      if e.stopping then some (detach e id, reject stopping) else elim (get id e.requests) [
        | none ↦ some (e, reject request_ended)
        | some idle ↦ some (e, admit)
        | some (active key) ↦ some (e, admit)
        | some (queued key deadline) ↦ poll_queued key deadline e id now
      ]

  -- A bucket that `retain` keeps: in use, or still in debt.
  unfoldable pub in_use : Bucket T → Bool
  in_use b = not (b.active == 0) || not (is_empty b.queue) || lt b.tokens (capacity b.policy)

  -- A bucket for a new credential, after the idle ones are dropped; false if there is no room.
  unfoldable pub ensure_bucket : ScopeKey → Policy → ℕ → Engine T → Engine T × Bool
  ensure_bucket key p now e =
      if contains_key key e.buckets
      then (e, true)
      else (let kept = retain_map (λ b. refill b now) in_use e.buckets in
          if leb e.config.max_credentials (size kept)
          then (record e { buckets = kept }, false)
          else (record e { buckets = insert key (new_bucket p now) kept }, true))

  -- With the bucket there and refilled: admit, refuse or queue.
  unfoldable pub attempt_bucket : ScopeKey → String → ℕ → Bucket T → Engine T → Returned T
  attempt_bucket key id now b e =
      if is_empty b.queue && available b
      then some (enter key id b e, admit)
      else if leb b.policy.max_queue (length b.queue)
      then some (put_bucket key b e, reject queue_full)
      else poll (join_queue key id now b e) id now

  unfoldable pub attempt_room : ScopeKey → String → ℕ → Engine T × Bool → Returned T
  attempt_room key id now (e, false) = some (e, reject over_capacity)
  attempt_room key id now (e, true) = do
    b ← get key e.buckets
    attempt_bucket key id now (refill b now) e

  unfoldable pub attempt : Engine T → String → String → ℕ → Returned T
  attempt e id name now =
      let e' = detach e id in
      let p = Config.policy e'.config name in
      if not p.enabled
      then some (e', admit)
      else attempt_room (credential name) id now (ensure_bucket (credential name) p now e')

  unfoldable pub start_attempt : Engine T → String → String → ℕ → Returned T
  start_attempt e id name now =
      if e.stopping then some (e, reject stopping) else elim (get id e.requests) [
        | none ↦ some (e, reject request_ended)
        | some (queued key deadline) ↦ some (e, reject duplicate_wait)
        | some idle ↦ attempt e id name now
        | some (active key) ↦ attempt e id name now
      ]

  -- A bucket under the policy of the new configuration.
  unfoldable pub adopt : Config → ℕ → ScopeKey → Bucket T → Bucket T
  adopt c now key b =
      let p = Config.policy c (scope_name key) in
      let b' = refill b now in record b' { tokens = minimum b'.tokens (capacity p); policy = p }

  -- The part behind `config.validate()?`.
  unfoldable pub replace_config :
      Engine T → Config → ℕ → Result String (Unit {0}) → Engine T × Result String (Unit {0})
  replace_config e c now (err message) = (e, err message)
  replace_config e c now (ok _) =
      if e.stopping
      then (e, err "plugin is stopping")
      else (record e { buckets = update_all (adopt c now) e.buckets; config = c }, ok tt)

  unfoldable pub reconfigure : Engine T → Config → ℕ → Engine T × Result String (Unit {0})
  reconfigure e c now = replace_config e c now (Config.validate c)
