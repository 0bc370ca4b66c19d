-- ===== src/Router/Tests.antt =====
-- Runs of src/router.rs with a host that answers every read with one last chunk.
use cpa_stg.Base.Result.{Result, ok, err}
use cpa_stg.Base.{
  ℕ, ◌+◌, ◌≤◌, Bool, true, false, ◌==◌, string_eq, none, some, [], ◌∷◌, ◌++◌, ◌≡◌, refl, ◌==◌, ℕ_eq,
  string_eq,
}
use cpa_stg.Host.{Fault}
use cpa_stg.Base.Map.{is_some}
use cpa_stg.Config.{default_config}
use cpa_stg.Engine.{Engine, new, stop}
use cpa_stg.Plugin.{Incoming, plugin_call}
use cpa_stg.Plugin.Buffers.{plugin_shutdown}
use cpa_stg.Plugin.Routed.{
  Routed, route_call, stop_runtime, shutdown_router, plugin_call-Routed, plugin_shutdown-closes,
}
use cpa_stg.Protocol.Envelope.{Printer}
use cpa_stg.Json.{Value, index, get}
use cpa_stg.Router.Execute.{reap, Settlement, Prepared, settle, claim}
use cpa_stg.Router.Outcome.{Owned, all_closings, settle-Owned}
use cpa_stg.Router.Samples.{request, chunk, codec, host, encode, asked, worker, prepared}
use mathlib.Core.List.{Perm}
use cpa_stg.Router.Refused.{Refusal, settle-Refusal}
use cpa_stg.Router.Reap.{unfinished, reap-unfinished}
use cpa_stg.Router.Slots.Balanced.{run-active}
use cpa_stg.Router.Slots.{Load, Run, here, step, asks}
use cpa_stg.Router.{Router, Worker, initial, text_field}
use cpa_stg.ErrorMapping.{ErrorMapping}

abbrev runs_on : Worker → Bool
runs_on w = false

abbrev incoming : Incoming
incoming = record {
  method = some (some "executor.execute_stream");
  request = some (1 ∷ []);
  request_len = 1;
  response_null = false;
}

abbrev printer : Printer
printer = record { print = λ v. []; encode = encode }

plugin_call-Routed_example :
    Routed printer codec host runs_on true
      (λ r. r)
      (λ n. n + 1)
      (initial, [], 0)
      (initial, [], 0)
      incoming
      "executor.execute_stream"
      (plugin_call printer
        (route_call printer codec host runs_on true (λ r. r) (λ n. n + 1))
        (stop_runtime printer codec host runs_on true (λ r. r) (λ n. n + 1))
        (initial, [], 0)
        (initial, [], 0)
        incoming)
plugin_call-Routed_example =
    plugin_call-Routed printer codec host runs_on true (λ r. r) (λ n. n + 1) (initial, [], 0)
      (initial, [], 0) incoming "executor.execute_stream" refl refl

chunk-stream_id : text_field chunk "stream_id" ≡ some "n"
unfolding index get
chunk-stream_id = refl

settle-Owned_example :
    (s : Settlement) × (settle codec host runs_on true (claim initial) [] asked (ok chunk) ≡ some s)
    × Owned codec host runs_on true (claim initial) [] asked chunk "n" s
settle-Owned_example =
    settle-Owned codec host runs_on true (claim initial) [] asked chunk "n" 0 refl refl
      chunk-stream_id

abbrev busy : Router
busy = record initial { workers = worker ∷ []; active = 1 }

plugin_shutdown-closes_example :
    let ((r', j'), runtime') =
      plugin_shutdown
        (shutdown_router codec host refl)
        stop
        (initial, [])
        (busy, [])
        (some (new {T = ℕ} default_config)) in
    (r'.stopping ≡ true)
    × (r'.workers ≡ [])
    × (j' ≡ all_closings (worker ∷ []) ++ [])
    × (is_some runtime' ≡ true)
    × ((e : Engine ℕ) → runtime' ≡ some e → e.stopping ≡ true)
plugin_shutdown-closes_example =
    plugin_shutdown-closes codec host refl (initial, []) busy [] (some (new default_config))

abbrev asking : Load
asking = record { router = claim initial; pending = 1; running = 0 }

abbrev fresh : Load
fresh = record { router = initial; pending = 0; running = 0 }

asks_one : Run codec host fresh asking
asks_one = step here (asks request asked prepared)

run-active_example :
    (asking.router.active ≡ asking.pending + asking.running)
    × (asking.pending + asking.running ≤ 100_000)
run-active_example = run-active codec host asking asks_one

abbrev ended : Worker
ended = record { nested = "m"; downstream = "e" }

abbrev is_ended : Worker → Bool
is_ended w = w.nested == "m"

reap-unfinished_example :
    Perm
      (reap is_ended 3 [] (ended ∷ worker ∷ ended ∷ []))
      (unfinished is_ended (ended ∷ worker ∷ ended ∷ []))
reap-unfinished_example = reap-unfinished is_ended (ended ∷ worker ∷ ended ∷ [])

abbrev busy_fault : Fault
busy_fault = record { status = 429; message = "busy" }

-- Any error with status 429 is to be tried again.
abbrev limits : ErrorMapping
limits = record {
  enabled = true;
  rules =
      record {
        name = "busy";
        matcher = record {
          codes = [];
          types = [];
          http_statuses = 429 ∷ [];
          message_contains = none;
        };
        retryable = record { message = "try again"; delay = some 2_000_000_000 };
      }
      ∷ [];
}

abbrev careful : Prepared
careful = record { mapping = limits; downstream = "d"; callback = "k" }

settle-Refusal_example :
    (result : Result Fault Value) × (settle codec host runs_on true
        (claim initial)
        []
        careful
        (err busy_fault)
      ≡ some (record {
        router = record (claim initial) { active = 0 };
        journal = [];
        started = none;
        result = result;
      }))
    × Refusal codec host runs_on true careful busy_fault result
settle-Refusal_example =
    settle-Refusal codec host runs_on true careful busy_fault (claim initial) [] 0 refl
