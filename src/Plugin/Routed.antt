-- ===== src/Plugin/Routed.antt =====
-- src/lib.rs in a build with the router: `plugin_call` over `router::handle`, and `plugin_shutdown`
-- over `router::shutdown`.
use cpa_stg.Base.{
  String, Bool, true, false, Option, none, some, [], ◌++◌, ◌≡◌, refl, sym, ap, inl, inr, Bool-cases,
}
use cpa_stg.Base.Map.{is_some}
use cpa_stg.Engine
use cpa_stg.Engine.{Engine}
use cpa_stg.ErrorMapping.Delay.{Bytes}
use cpa_stg.Host.{Host, Journal}
use cpa_stg.Json.{Value}
use cpa_stg.Plugin.Buffers.{plugin_shutdown}
use cpa_stg.Plugin.Named.{served, plugin_call-served}
use cpa_stg.Plugin.{
  Incoming, Called, wrote, waits, oversized, raw_of, attempt, conclude, plugin_call, over_limit,
}
use cpa_stg.Protocol.Envelope.{Printer}
use cpa_stg.Protocol.Handle.{Answer, answered, blocked}
use cpa_stg.Router.Handle.{Answered, method_of, stops, handle, shutdown}
use cpa_stg.Router.Handled.{Joining, Handled, answers, joins, handle-Handled}
use cpa_stg.Router.Outcome.{all_closings, shutdown-closes}
use cpa_stg.Router.{Codec, Router, Worker}

module _ (p : Printer) (c : Codec) (host : Host) (finished : Worker → Bool) (spawned : Bool)
    (meanwhile : Router → Router) {R : Type 0} (stop : R → R) where
  -- The router, the calls of the host so far, and the runtime that a panic stops.
  abbrev pub State : Type 0
  State = Router × Journal × R

  abbrev and_runtime : R → Option Answered → Option (State × Answer)
  and_runtime runtime none = none
  and_runtime runtime (some (r, j, some v)) = some ((r, j, runtime), answered v)
  and_runtime runtime (some (r, j, none)) = some ((r, j, runtime), blocked none)

  abbrev pub route_call : State → String → Bytes → Option (State × Answer)
  route_call (r, j, runtime) method raw =
      and_runtime runtime (handle c host finished spawned r meanwhile j method raw)

  abbrev pub stop_runtime : State → State
  stop_runtime (r, j, runtime) = (r, j, stop runtime)

  module _ (s left_by_panic : State) (x : Incoming) (method : String) where
    -- The call has written the answer of the router, or refused a payload over the limit, or it
    -- waits in the joins of a shutdown; the runtime is as it was.
    pub data Routed : Called State → Type 0 where
      refuses :
          oversized x ≡ true
          → Routed (wrote s (over_limit p route_call stop_runtime left_by_panic method))
      routes :
          (r : Router) (j : Journal) (v : Value)
          → oversized x ≡ false
          → handle c host finished spawned s.0 meanwhile s.1 method (raw_of x) ≡ some (r, j, some v)
          → Routed (wrote (r, j, s.2) v)
      still_joins :
          (r : Router) (j : Journal)
          → oversized x ≡ false
          → method_of method ≡ stops
          → handle c host finished spawned s.0 meanwhile s.1 method (raw_of x) ≡ some (r, j, none)
          → r.stopping ≡ true
          → Joining c host finished spawned s.0.workers
          → Routed (waits (r, j, s.2) none)

    routed :
        oversized x ≡ false
        → (o : Option Answered)
        → handle c host finished spawned s.0 meanwhile s.1 method (raw_of x) ≡ o
        → Handled c host finished spawned (method_of method) s.0 o
        → Routed (conclude p route_call stop_runtime left_by_panic method (and_runtime s.2 o))
    unfolding conclude
    routed small none h impossible = elim impossible [ ]
    routed small (some _) h (answers r j v) = routes r j v small h
    routed small (some _) h (joins r j stops_now halted waiting) =
        still_joins r j small stops_now h halted waiting

    served-Routed : Routed (served p route_call stop_runtime left_by_panic s x method)
    unfolding served attempt conclude
    served-Routed = elim (Bool-cases (oversized x)) [
      | inl large ↦ rw large (refuses large)
      | inr small ↦ rw small (
          routed small _ refl
            (handle-Handled c host finished spawned s.0 meanwhile s.1 method (raw_of x)))
    ]

    -- A call of the router plugin returns an answer, whatever the payload, the host's own answers
    -- and what other threads do meanwhile: that of the router, or, for a payload over the limit, the
    -- refusal, with the router as it was. Only a call of a stopping method can go on waiting, with
    -- the router stopping, as long as the thread of some worker that was listed has not ended. No
    -- call panics and so none stops the runtime. The host has passed a place for the answer, and a
    -- method in UTF-8, and each call of the host returns.
    pub plugin_call-Routed :
        x.response_null ≡ false
        → x.method ≡ some (some method)
        → Routed (plugin_call p route_call stop_runtime left_by_panic s x)
    plugin_call-Routed present named =
        rw (plugin_call-served p route_call stop_runtime left_by_panic s x method present named)
          served-Routed

module _ (c : Codec) (host : Host) (there : host.installed ≡ true) where
  -- `router::shutdown`
  abbrev pub shutdown_router : Router × Journal → Option (Router × Journal)
  shutdown_router (r, j) = some (shutdown c host r j)

  -- A shutdown of the plugin, in a build with the router, leaves the router stopping and without
  -- workers, with the host asked to close both streams of every worker that was listed, in the
  -- order of the list, and nothing else; and the engine of the runtime, if there is one, is
  -- stopping. The host is there.
  pub plugin_shutdown-closes :
      {T : Type 0} (left_by_panic : Router × Journal) (r : Router) (j : Journal)
      (runtime : Option (Engine T))
      → let ((r', j'), runtime') =
          plugin_shutdown shutdown_router Engine.stop left_by_panic (r, j) runtime in
        (r'.stopping ≡ true)
        × (r'.workers ≡ [])
        × (j' ≡ all_closings r.workers ++ j)
        × (is_some runtime' ≡ is_some runtime)
        × ((e : Engine T) → runtime' ≡ some e → e.stopping ≡ true)
  unfolding plugin_shutdown Engine.stop
  plugin_shutdown-closes left_by_panic r j none =
      let (halted, gone, closed) = shutdown-closes c host there r j in
      (halted, gone, closed, refl, λ e h. cc)
  plugin_shutdown-closes {T} left_by_panic r j (some e') =
      let (halted, gone, closed) = shutdown-closes c host there r j in
      (
        halted,
        gone,
        closed,
        refl,
        λ e h. let same : Engine.stop e' ≡ e = cc in sym (ap (λ (x : Engine T). x.stopping) same),
      )
