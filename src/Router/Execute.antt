-- ===== src/Router/Execute.antt =====
-- src/router.rs: `execute`, in its two parts: what it does before the host opens the nested
-- stream, and what it does with the answer. The rest of a request is the worker's, in Pump.
use mathlib.Core.List.{reverse}
use cpa_stg.Base.Partial.{◌>>=◌}
use cpa_stg.Base.Result.{Result, ok, err}
use cpa_stg.Base.{
  ℕ, zero, suc, String, Bool, true, not, Option, none, some, List, [], ◌∷◌, ◌++◌, if◌then◌else◌,
  leb, length,
}
use cpa_stg.Engine.{minus_one}
use cpa_stg.ErrorMapping.Delay.{Bytes}
use cpa_stg.ErrorMapping.Sse.{failure_from_message, sse}
use cpa_stg.ErrorMapping.{ErrorMapping, map_error, rewrite}
use cpa_stg.Host.{Fault, new_fault, Host, Journal, call}
use cpa_stg.Json.{Value, array, cons, nil, string, bool, object, end, field, index, one_text}
use cpa_stg.Router.{Worker, Router, Codec, plus_one, text_field, is_stream_request, close}

-- `active.fetch_add`, and the drop of an `Active`.
abbrev pub claim : Router → Router
claim r = record r { active = plus_one r.active }

abbrev pub release : Router → Router
release r = record r { active = minus_one r.active }

-- What a request that holds a slot keeps.
pub record Prepared : Type 0 where
  pub mapping : ErrorMapping
  pub downstream : String
  pub callback : String

-- A request that gives its slot back.
abbrev drop_slot : Router → String → Router × Result Fault Prepared
drop_slot r message = (release (claim r), err (new_fault message))

-- The check of the flag and the claim of a slot are one step here. In the source another thread may
-- act between them, and a slot that is claimed in vain is counted for a moment.
unfoldable pub prepare : Router → Value → Router × Result Fault Prepared
prepare r req =
    if not (is_stream_request req)
    then (r, err (new_fault "Router only accepts streaming Codex Responses"))
    else if r.stopping
    then (r, err (new_fault "Router is stopping"))
    else if leb r.config.max_tracked_requests r.active
    then drop_slot r "Router execution capacity reached"
    else elim (text_field req "stream_id") [
      | none ↦ drop_slot r "Missing output stream id"
      | some downstream ↦ elim (text_field req "host_callback_id") [
        | none ↦ drop_slot r "Missing callback scope"
        | some callback ↦ (
          claim r,
          ok (record {
            mapping = r.config.error_mapping;
            downstream = downstream;
            callback = callback;
          }),
        )
      ]
    ]

-- The request of "host.model.execute_stream".
unfoldable pub execution : Value → String → Value
execution req callback = object (
    field "host_callback_id" (string callback) (
      field "entry_protocol" (string "openai-response") (
        field "exit_protocol" (string "openai-response") (
          field "model" (index req "Model") (
            field "stream" (bool true) (
              field "body" (index req "Payload") (
                field "headers" (index req "Headers")
                  (field "query" (index req "Query") (field "alt" (index req "Alt") end)))))))))

-- `workers.swap_remove(index)`, of the workers from `index` on: the last takes the free place.
unfoldable pub swap_remove : List Worker → List Worker
swap_remove [] = []
swap_remove (w ∷ []) = []
swap_remove (w ∷ v ∷ ws) = elim (reverse (v ∷ ws)) [
  | [] ↦ []
  | last ∷ others ↦ last ∷ reverse others
]

-- The loop that drops the workers whose threads are finished: those before the index stay.
unfoldable pub reap : (Worker → Bool) → ℕ → List Worker → List Worker → List Worker
reap finished zero kept rest = kept ++ rest
reap finished (suc fuel) kept [] = kept
reap finished (suc fuel) kept (w ∷ ws) =
    let later = reap finished fuel kept (swap_remove (w ∷ ws)) in
    let next = reap finished fuel (kept ++ w ∷ []) ws in if finished w then later else next

-- The answer that carries one event instead of a stream.
unfoldable pub single_event : Codec → Bytes → Value
single_event c payload = object (
    field "headers"
      (object (
        field "Content-Type" (one_text "text/event-stream")
          (field "Cache-Control" (one_text "no-cache") end)))
      (field "chunks" (array (cons (object (field "Payload" (string (c.encode payload)) end)) nil))
        end))

-- How a request ends. A thread that is started takes the slot of the request along.
pub record Settlement : Type 0 where
  pub router : Router
  pub journal : Journal
  pub started : Option Worker
  pub result : Result Fault Value

-- The request ends here and drops its slot.
unfoldable pub settled : Router → Journal → Result Fault Value → Settlement
settled r j result = record { router = release r; journal = j; started = none; result = result }

abbrev pub worker_of : Prepared → String → Worker
worker_of p nested = record { nested = nested; downstream = p.downstream }

-- The thread is started and its worker is listed.
unfoldable pub launched : Router → Journal → Worker → Value → Settlement
launched r j worker upstream = record {
  router = record r { workers = r.workers ++ worker ∷ [] };
  journal = j;
  started = some worker;
  result = ok (object (field "headers" (index upstream "headers") end));
}

-- `spawned` is whether a thread can be started.
module _ (c : Codec) (host : Host) (finished : Worker → Bool) (spawned : Bool) where
  -- The host does not open the stream.
  unfoldable pub fail_open : Prepared → Fault → Option (Result Fault Value)
  fail_open p fault =
      let failure = failure_from_message c.library fault.message in
      elim (map_error p.mapping fault.status failure) [
        | none ↦ some (err fault)
        | some mapped ↦ do
          event ← rewrite mapped failure
          some (ok (single_event c (sse c.library event)))
      ]

  -- The nested stream is closed again.
  abbrev pub give_up : Router → Journal → String → String → Settlement
  give_up r j nested message =
      settled r (close c host j "host.model.stream_close" nested) (err (new_fault message))

  abbrev pub cleaned : Router → Router
  cleaned r = record r { workers = reap finished (length r.workers) [] r.workers }

  -- The stream is open. The lock on the workers is held; `shutdown` sets the flag without it, so that
  -- in the source it may do so between the check of the flag and the start of the thread.
  unfoldable pub start : Router → Journal → Prepared → String → Value → Settlement
  start r j p nested upstream =
      if r.stopping
      then give_up (cleaned r) j nested "Router is stopping"
      else if not spawned
      then give_up (cleaned r) j nested "Unable to start stream worker"
      else launched (cleaned r) j (worker_of p nested) upstream

  unfoldable pub settle : Router → Journal → Prepared → Result Fault Value → Option Settlement
  settle r j p (err fault) = do result ← fail_open p fault; some (settled r j result)
  settle r j p (ok upstream) = elim (text_field upstream "stream_id") [
    | none ↦ some (settled r j (err (new_fault "Missing host model stream id")))
    | some nested ↦ some (start r j p nested upstream)
  ]

  -- What other threads do while the host is called is `meanwhile`. `none` is a panic.
  unfoldable pub execute : Router → (Router → Router) → Journal → Value → Option Settlement
  execute r meanwhile j req =
      let (r', prepared) = prepare r req in
      elim prepared [
        | err fault ↦ some (record { router = r'; journal = j; started = none; result = err fault })
        | ok p ↦
            let (j', answer) =
              call c.library host j "host.model.execute_stream" (execution req p.callback) in
            settle (meanwhile r') j' p answer
      ]
