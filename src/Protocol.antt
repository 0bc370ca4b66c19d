-- ===== src/Protocol.antt =====
-- src/protocol.rs: `handle`, the calls that the host makes of the admission plugin. How serde reads
-- the two payloads, base64 and YAML are parameters.
pub mod Envelope
pub mod Handle
pub mod Consistent
pub mod Verdict
pub mod Cleared
pub mod Register
pub mod Nested
pub mod Halted
pub mod Quiesce
pub mod Samples
mod Tests
use cpa_stg.Base.Map.{is_some}
use cpa_stg.Base.Result.{Result, ok, err, ◌>>=◌}
use cpa_stg.Base.Text.{byte_len, eq_ignore_case, is_empty_text, trim}
use cpa_stg.Base.{
  ℕ, String, Bool, true, false, not, ◌&&◌, ◌||◌, Option, none, some, List, ◌==◌, ℕ_eq, string_eq,
  if◌then◌else◌, ltb, leb,
}
use cpa_stg.Config
use cpa_stg.Config.{Config}
use cpa_stg.Engine.Admission.{reconfigure}
use cpa_stg.Engine.Types.{
  Rejection, queue_full, queue_timeout, request_ended, duplicate_wait, capacity, stopping,
}
use cpa_stg.Engine.{Engine, begin, begin_child, complete, stop}
use cpa_stg.ErrorMapping.Delay.{Bytes}
use cpa_stg.Float.{F64}
use cpa_stg.Json.{
  Value, array, cons, nil, number, unsigned, string, bool, object, Fields, end, field, get, index,
  as_object, as_str, first_item, find_field, is_text, one_text,
}
use cpa_stg.Protocol.Envelope
use cpa_stg.Protocol.Envelope.{Printer, terminate}
use cpa_stg.Runtime.{Round, Acquired, returned, waiting, acquire}

pub record Registration : Type 0 where
  pub schema_version : ℕ
  pub config_yaml : Option String

pub record Request : Type 0 where
  pub id : String
  pub metadata : Value
  pub source_format : String
  pub stream : Bool
  pub headers : Value

-- What is not the program's own: serde's reading of the payloads, base64, serde_yaml, and how
-- JSON is printed.
pub record Codec : Type 0 where
  pub read_registration : Bytes → Option Registration
  pub read_request : Bytes → Option Request
  pub decode : String → Option Bytes
  pub from_yaml : Bytes → Option Config
  pub printer : Printer

abbrev pub parent_header : String
parent_header = "X-Cpa-Stg-Parent"

abbrev pub status_of : Rejection → ℕ
status_of queue_full = 429
status_of queue_timeout = 429
status_of request_ended = 499
status_of duplicate_wait = 409
status_of capacity = 503
status_of stopping = 503

abbrev pub code_of : Rejection → String
code_of queue_full = "cpa_queue_full"
code_of queue_timeout = "cpa_queue_timeout"
code_of request_ended = "cpa_request_ended"
code_of duplicate_wait = "cpa_duplicate_wait"
code_of capacity = "cpa_capacity"
code_of stopping = "cpa_stopping"

abbrev pub message_of : Rejection → String
message_of queue_full = "Credential waiting queue is full"
message_of queue_timeout = "Credential queue wait timed out"
message_of request_ended = "Request already completed or was not registered"
message_of duplicate_wait = "Request already has a pending admission"
message_of capacity = "Policy tracking capacity reached"
message_of stopping = "Policy plugin is stopping"

unfoldable pub rejected : Printer → Rejection → Value
rejected p reason = terminate p (status_of reason) (code_of reason) (message_of reason)

-- The answer of an operation that the engine may refuse.
abbrev pub respond : Printer → Value → Result Rejection (Unit {0}) → Value
respond p passed (ok _) = Envelope.ok passed
respond p passed (err reason) = rejected p reason

abbrev pub empty : Value
empty = object end

-- `request`
unfoldable pub request : Codec → Bytes → Result Value Request
request c raw = elim (c.read_request raw) [
  | none ↦
      err (terminate c.printer 400 "cpa_invalid_request" "Invalid request interception payload")
  | some req ↦
      if is_empty_text req.id || ltb 1024 (byte_len req.id)
      then err (terminate c.printer 400 "cpa_invalid_request_id" "A valid RequestID is required")
      else ok req
]

abbrev pub config_field : String → String → String → Value
config_field name kind description = object (
    field "Name" (string name)
      (field "Type" (string kind) (field "Description" (string description) end)))

-- `env!("CARGO_PKG_VERSION")`, from Cargo.toml.
abbrev pub package_version : String
package_version = "0.2.0"

abbrev pub metadata : Value
metadata = object (
    field "Name" (string "cpa-stg") (
      field "Version" (string package_version) (
        field "Author" (string "csbxd") (
          field "GitHubRepository" (string "https://github.com/csbxd/cpa-stg") (
            field "ConfigFields"
              (array (
                cons
                  (config_field "max_tracked_requests" "integer" "Maximum tracked model executions")
                  (cons (config_field "max_credentials" "integer" "Maximum credential buckets") (
                    cons
                      (config_field "error_mapping" "object"
                        "Configure error mapping on cpa-stg-router")
                      nil))))
              end)))))

unfoldable pub registration : ℕ → Value
registration schema_version = Envelope.ok (
    object (
      field "schema_version" (number (unsigned schema_version)) (
        field "metadata" metadata (
          field "capabilities"
            (object (
              field "request_interceptor" (bool true)
                (field "request_lifecycle_plugin" (bool true) end)))
            end))))

abbrev pub or_err {ℓ} : {A : Type ℓ} → Option A → String → Result String A
or_err none message = err message
or_err (some a) message = ok a

abbrev pub or_empty : Option String → String
or_empty none = ""
or_empty (some s) = s

-- The configuration of a registration, before the runtime takes it.
unfoldable pub read_config : Codec → Bytes → Result String Config
read_config c raw = do
  req ← or_err (c.read_registration raw) "Invalid registration payload"
  bytes ←
      (if ltb req.schema_version 2
        then err "Host schema version 2 or newer is required"
        else or_err (c.decode (or_empty req.config_yaml)) "Invalid base64 config_yaml")
  cfg ← Config.parse c.from_yaml bytes
  if cfg.error_mapping.enabled
      then err "configure error_mapping on cpa-stg-router, not cpa-stg"
      else ok cfg
