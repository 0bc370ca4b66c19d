-- ===== src/Engine/Consistent.antt =====
-- Consistency of the engine of src/engine.rs, as a predicate: the active count and the queue of
-- every credential against the phases of the requests.
pub mod Detach
pub mod Moves
pub mod Poll
pub mod Attempt
pub mod Lifecycle
use cpa_stg.Base.Map.{Map, get}
use cpa_stg.Base.Map.Totals.{total, Unique}
use cpa_stg.Base.{
  ℕ, String, Option, none, some, List, [], ◌≡◌, ◌==◌, string_eq, if◌then◌else◌, count,
}
use cpa_stg.Engine.{Engine}
use cpa_stg.Engine.Buckets.{Bucket}
use cpa_stg.Engine.Types.{ScopeKey, scope_eq, Decision, Phase, idle, active, queued}

abbrev pub active_in : ScopeKey → Phase → ℕ
active_in k idle = 0
active_in k (active j) = if j == k then 1 else 0
active_in k (queued j deadline) = 0

abbrev pub queued_in : ScopeKey → Phase → ℕ
queued_in k idle = 0
queued_in k (active j) = 0
queued_in k (queued j deadline) = if j == k then 1 else 0

-- What a key of the requests counts for in the queue of `k`.
abbrev pub waits : ScopeKey → Option Phase → ℕ
waits k none = 0
waits k (some phase) = queued_in k phase

module _ {T : Type 0} where
  abbrev pub active_of : Option (Bucket T) → ℕ
  active_of none = 0
  active_of (some b) = b.active

  abbrev pub queue_of : Option (Bucket T) → List String
  queue_of none = []
  queue_of (some b) = b.queue

  pub record Inv (e : Engine T) : Type 0 where
    pub requests_unique : Unique e.requests
    pub buckets_unique : Unique e.buckets
    pub active_count : (k : ScopeKey) → active_of (get k e.buckets) ≡ total (active_in k) e.requests
    pub queue_count :
        (k : ScopeKey) (id : String)
        → count id (queue_of (get k e.buckets)) ≡ waits k (get id e.requests)

  -- The operation returns, and leaves an engine of which `P` holds.
  abbrev pub Returns : (Engine T → Type 0) → Option (Engine T × Decision) → Type 0
  Returns P none = ⊥
  Returns P (some (e, d)) = P e

  abbrev pub Leaves {ℓ} : {R : Type ℓ} → (Engine T → Type 0) → Engine T × R → Type 0
  Leaves P r = P r.0
