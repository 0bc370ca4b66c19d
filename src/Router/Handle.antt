-- ===== src/Router/Handle.antt =====
-- src/router.rs: `handle`, the calls that the host makes of the router plugin, and `shutdown`.
use cpa_stg.Base.Result.{Result, ok, err, ◌>>=◌}
use cpa_stg.Base.{
  ℕ, String, Bool, true, false, ◌||◌, Option, none, some, List, [], ◌∷◌, ◌==◌, ℕ_eq, string_eq,
  if◌then◌else◌, ltb,
}
use cpa_stg.Config
use cpa_stg.Config.{Config}
use cpa_stg.ErrorMapping.Delay.{Bytes}
use cpa_stg.Host.{Fault, Host, Journal, envelope}
use cpa_stg.Json.{
  Value, array, cons, nil, number, unsigned, string, bool, object, end, field, index, as_str,
  as_u64, one_text,
}
use cpa_stg.Protocol.Envelope
use cpa_stg.Protocol.{config_field, package_version, or_err, or_empty}
use cpa_stg.Router.Execute.{Settlement, execute}
use cpa_stg.Router.{Worker, Router, Codec, routes, close}

-- Which arm of the `match` a method takes.
pub data Method : Type 0 where
  registers routing identifier executes stops unsupported : Method

unfoldable pub method_of : String → Method
method_of method =
    if method == "plugin.register" || method == "plugin.reconfigure"
    then registers
    else if method == "model.route"
    then routing
    else if method == "executor.identifier"
    then identifier
    else if method == "executor.execute_stream"
    then executes
    else if method == "plugin.quiesce" || method == "plugin.shutdown"
    then stops
    else unsupported

abbrev or_zero : Option ℕ → ℕ
or_zero none = 0
or_zero (some n) = n

-- The bytes of the configuration.
unfoldable pub config_bytes : Codec → Value → Result String Bytes
config_bytes c req =
    if ltb (or_zero (as_u64 (index req "schema_version"))) 2
    then err "CPA schema >= 2 required"
    else or_err (c.decode (or_empty (as_str (index req "config_yaml")))) "Invalid config encoding"

-- The configuration of a registration, before the router takes it.
unfoldable pub read_config : Codec → Value → Result String Config
read_config c req = config_bytes c req >>= Config.parse c.from_yaml

abbrev metadata : Value
metadata = object (
    field "Name" (string "cpa-stg-router") (
      field "Version" (string package_version) (
        field "Author" (string "csbxd") (
          field "GitHubRepository" (string "https://github.com/csbxd/cpa-stg") (
            field "ConfigFields"
              (array (
                cons
                  (config_field "error_mapping" "object"
                    "Ordered Codex Responses retryable error rules")
                  nil))
              end)))))

abbrev capabilities : Value
capabilities = object (
    field "model_router" (bool true) (
      field "executor" (bool true) (
        field "executor_model_scope" (string "static") (
          field "executor_input_formats" (one_text "openai-response")
            (field "executor_output_formats" (one_text "openai-response") end)))))

unfoldable pub registration : Value
registration = Envelope.ok (
    object (
      field "schema_version" (number (unsigned 2))
        (field "metadata" metadata (field "capabilities" capabilities end))))

unfoldable pub register : Codec → Router → Value → Router × Value
register c r req = elim (read_config c req) [
  | err message ↦ (r, Envelope.error message)
  | ok cfg ↦
      if r.stopping
      then (r, Envelope.error "Router is stopping")
      else (record r { config = cfg }, registration)
]

-- `json!({"Handled":handled,"TargetKind":"self"})`
unfoldable pub route : Router → Value → Value
route r req =
    Envelope.ok
      (object (field "Handled" (bool (routes r req)) (field "TargetKind" (string "self") end)))

abbrev pub respond : Result Fault Value → Value
respond (ok v) = Envelope.ok v
respond (err fault) = envelope fault

abbrev empty : Value
empty = Envelope.ok (object end)

-- A call, as far as it comes: the router, the host's calls, and the answer, or `none` where the
-- call waits for a thread to end.
abbrev pub Answered : Type 0
Answered = Router × Journal × Option Value

abbrev answer : Settlement → Answered
answer s = (s.router, s.journal, some (respond s.result))

module _ (c : Codec) (host : Host) where
  -- Both ends of each worker are closed.
  unfoldable pub close_all : Journal → List Worker → Journal
  close_all j [] = j
  close_all j (w ∷ ws) =
      close_all
        (close c host (close c host j "host.stream.close" w.downstream) "host.model.stream_close"
          w.nested)
        ws

  -- `shutdown` as far as its joins.
  unfoldable pub shutdown : Router → Journal → Router × Journal
  shutdown r j = (record r { stopping = true; workers = [] }, close_all j r.workers)

  -- `finished` says which workers' threads have ended: by the time that `execute` looks, or in the
  -- time that `shutdown` is given to wait.
  module _ (finished : Worker → Bool) (spawned : Bool) where
    -- The joins, one worker after the other: whether all of them return.
    unfoldable pub join_all : List Worker → Bool
    join_all [] = true
    join_all (w ∷ ws) = if finished w then join_all ws else false

    unfoldable pub dispatch :
        Method → Router → (Router → Router) → Journal → Value → Option Answered
    dispatch registers r meanwhile j req = let (r', v) = register c r req in some (r', j, some v)
    dispatch routing r meanwhile j req = some (r, j, some (route r req))
    dispatch identifier r meanwhile j req =
        some (r, j, some (Envelope.ok (object (field "identifier" (string "cpa-stg-router") end))))
    dispatch executes r meanwhile j req = elim (execute c host finished spawned r meanwhile j req) [
      | none ↦ none
      | some settled ↦ some (answer settled)
    ]
    dispatch stops r meanwhile j req =
        let (r', j') = shutdown r j in
        some (r', j', if join_all r.workers then some empty else none)
    dispatch unsupported r meanwhile j req =
        some (r, j, some (Envelope.error "Unsupported router method"))

    unfoldable pub handle : Router → (Router → Router) → Journal → String → Bytes → Option Answered
    handle r meanwhile j method raw = elim (c.library.from_slice raw) [
      | none ↦ some (r, j, some (Envelope.error "Invalid router payload"))
      | some req ↦ dispatch (method_of method) r meanwhile j req
    ]
