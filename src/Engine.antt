-- ===== src/Engine.antt =====
-- src/engine.rs: `Engine` and its operations. An operation takes the engine first and returns the
-- new one. Admission is in the child of that name.
pub mod Types
pub mod Buckets
pub mod Admission
pub mod Consistent
pub mod Family
pub mod System
pub mod Kept
pub mod Limits
pub mod Stopped
pub mod Nested
pub mod Tokens
pub mod Rate
pub mod Outcome
pub mod Reconfigure
pub mod Samples
mod Tests
use cpa_stg.Base.Map.{
  Map, size, values, retain_map, update_all, get, insert, remove, is_some, contains_key,
}
use cpa_stg.Base.Partial.{◌>>=◌}
use cpa_stg.Base.Result.{Result, ok, err}
use cpa_stg.Base.{
  ℕ, zero, suc, ◌+◌, ◌-◌, ◌*◌, ◌^◌, String, Bool, true, false, not, ◌&&◌, ◌||◌, Option, none, some,
  List, [], ◌∷◌, ◌++◌, map, reverse, ◌==◌, ℕ_eq, string_eq, if◌then◌else◌, ltb, leb, length, sum,
  head?, tail, is_empty, retain,
}
use cpa_stg.Config
use cpa_stg.Config.{Config, Policy}
use cpa_stg.ErrorMapping
use cpa_stg.ErrorMapping.{RetryableError, is_some_and}
use cpa_stg.Float.{F64}
use cpa_stg.Json.{Value}
use Buckets.{Bucket, capacity, new_bucket, refill, available, charge, wake_at}
use Types.{
  ScopeKey, credential, scope_name, scope_eq, Rejection, queue_full, queue_timeout, request_ended,
  duplicate_wait, capacity as over_capacity, stopping, Decision, admit, wait_until, reject, Phase,
  idle, active, queued,
}

pub record Engine (T : Type 0) : Type 0 where
  pub config : Config
  pub requests : Map String Phase
  pub parents : Map String String
  pub children : Map String (List String)
  pub buckets : Map ScopeKey (Bucket T)
  pub stopping : Bool

-- `usize` subtraction of 1; below 0 it wraps.
abbrev pub minus_one : ℕ → ℕ
minus_one zero = 2 ^ 64 - 1
minus_one (suc n) = n

-- `b.queue.front() == Some(id)`
abbrev pub is_front : String → List String → Bool
is_front id queue = is_some_and (λ front. front == id) (head? queue)

abbrev pub without : String → List String → List String
without id = retain (λ other. not (other == id))

abbrev pub or_nil {ℓ} : {A : Type ℓ} → Option (List A) → List A
or_nil none = []
or_nil (some xs) = xs

abbrev pub child_count : Map String (List String) → ℕ
child_count m = sum (map length (values m))

-- `if let Some(children) = self.children.get_mut(&parent)`, for the parent of `id` if it has one.
unfoldable pub drop_child :
    String → Option String → Map String (List String) → Map String (List String)
drop_child id none m = m
drop_child id (some parent) m = elim (get parent m) [
  | none ↦ m
  | some siblings ↦ insert parent (without id siblings) m
]

module _ {T : Type 0} where
  unfoldable pub new : Config → Engine T
  new c = record {
    config = c;
    requests = [];
    parents = [];
    children = [];
    buckets = [];
    stopping = false;
  }

  unfoldable pub map_error : Engine T → ℕ → Value → Option RetryableError
  map_error e status failure =
      if not e.config.enabled || e.stopping
      then none
      else ErrorMapping.map_error e.config.error_mapping status failure

  unfoldable pub begin : Engine T → String → Engine T × Result Rejection (Unit {0})
  begin e id =
      if e.stopping
      then (e, err stopping)
      else if contains_key id e.requests
      then (e, ok tt)
      else if leb e.config.max_tracked_requests (size e.requests)
      then (e, err over_capacity)
      else (record e { requests = insert id idle e.requests }, ok tt)

  -- The links between an execution and the one that it is nested in.
  unfoldable pub link : String → String → Engine T → Engine T
  link id parent e = record e {
    parents = insert id parent e.parents;
    children = insert parent (or_nil (get parent e.children) ++ id ∷ []) e.children;
  }

  -- `self.begin(id)?` and what follows it.
  unfoldable pub begun :
      String
      → String
      → Engine T × Result Rejection (Unit {0})
      → Engine T × Result Rejection (Unit {0})
  begun id parent (e, ok _) = (link id parent e, ok tt)
  begun id parent (e, err x) = (e, err x)

  unfoldable pub begin_child : Engine T → String → String → Engine T × Result Rejection (Unit {0})
  begin_child e id parent =
      if id == parent || not (contains_key parent e.requests) || contains_key id e.requests
      then (e, err request_ended)
      else begun id parent (begin e id)

  -- `if let Some(bucket) = self.buckets.get_mut(&key)`
  unfoldable pub update_bucket : ScopeKey → (Bucket T → Bucket T) → Engine T → Engine T
  update_bucket key g e = elim (get key e.buckets) [
    | none ↦ e
    | some b ↦ record e { buckets = insert key (g b) e.buckets }
  ]

  abbrev pub drop_active : Bucket T → Bucket T
  drop_active b = record b { active = minus_one b.active }

  abbrev pub drop_queued : String → Bucket T → Bucket T
  drop_queued id b = record b { queue = without id b.queue }

  -- What the phase that is replaced had taken is given back.
  unfoldable pub leave : String → Phase → Engine T → Engine T
  leave id idle e = e
  leave id (active key) e = update_bucket key drop_active e
  leave id (queued key deadline) e = update_bucket key (drop_queued id) e

  unfoldable pub detach : Engine T → String → Engine T
  detach e id = elim (get id e.requests) [
    | none ↦ e
    | some phase ↦ leave id phase (record e { requests = insert id idle e.requests })
  ]

  -- The links of a request that ends: its children are taken out, and it leaves its parent's.
  unfoldable pub unlink : String → Engine T → Engine T
  unlink id e = record e {
    parents = remove id e.parents;
    children = drop_child id (get id e.parents) (remove id e.children);
  }

  abbrev pub forget : String → Engine T → Engine T
  forget id e = record e { requests = remove id e.requests }

  unfoldable pub end_one : String → Engine T → Engine T
  end_one id e = forget id (detach (unlink id e) id)

  -- The loop of `complete` over the stack of pending ids, with fuel; `none` is the fuel run out.
  unfoldable pub complete_loop : ℕ → List String → Engine T → Option (Engine T)
  complete_loop zero pending e = none
  complete_loop (suc fuel) [] e = some e
  complete_loop (suc fuel) (id ∷ pending) e =
      complete_loop fuel (reverse (or_nil (get id e.children)) ++ pending) (end_one id e)

  unfoldable pub complete : Engine T → String → Option (Engine T)
  complete e id = complete_loop (child_count e.children + 2) (id ∷ []) e

  unfoldable pub stop : Engine T → Engine T
  stop e = record e { stopping = true }

  unfoldable pub counts : Engine T → ℕ × ℕ × ℕ
  counts e = (
    size e.requests,
    sum (map (λ b. b.active) (values e.buckets)),
    sum (map (λ b. length b.queue) (values e.buckets)),
  )

  abbrev pub put_bucket : ScopeKey → Bucket T → Engine T → Engine T
  put_bucket key b e = record e { buckets = insert key b e.buckets }

  abbrev pub put_request : String → Phase → Engine T → Engine T
  put_request id phase e = record e { requests = insert id phase e.requests }

  unfoldable pub join_queue : ScopeKey → String → ℕ → Bucket T → Engine T → Engine T
  join_queue key id now b e =
      put_request id (queued key (now + b.policy.queue_timeout_ms * 1_000_000))
        (put_bucket key (record b { queue = b.queue ++ id ∷ [] }) e)
