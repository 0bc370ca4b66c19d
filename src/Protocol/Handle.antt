-- ===== src/Protocol/Handle.antt =====
-- src/protocol.rs: `handle`, method by method. A panic of the engine is `none`.
use cpa_stg.Base.Map.{is_some}
use cpa_stg.Base.Partial.{◌>>=◌}
use cpa_stg.Base.Result.{Result, ok, err}
use cpa_stg.Base.Text.{byte_len, eq_ignore_case, is_empty_text, trim}
use cpa_stg.Base.{
  ℕ, String, Bool, not, ◌&&◌, ◌||◌, Option, none, some, List, ◌==◌, ℕ_eq, string_eq, if◌then◌else◌,
  leb,
}
use cpa_stg.Engine.Admission.{reconfigure}
use cpa_stg.Engine.Types.{Rejection}
use cpa_stg.Engine.{Engine, begin, begin_child, complete, stop}
use cpa_stg.ErrorMapping.Delay.{Bytes}
use cpa_stg.Float.{F64}
use cpa_stg.Json.{
  Value, object, end, field, get, index, as_object, as_str, first_item, find_field, is_text,
  one_text,
}
use cpa_stg.Protocol.Envelope
use cpa_stg.Protocol.Envelope.{terminate}
use cpa_stg.Protocol.{
  Codec, Request, request, respond, registration, read_config, parent_header, empty,
}
use cpa_stg.Runtime.{Round, Acquired, returned, waiting, acquire}

pub data Method : Type 0 where
  registers before after completes quiesces unsupported : Method

-- Which arm of the `match` a method takes.
unfoldable pub method_of : String → Method
method_of method =
    if method == "plugin.register" || method == "plugin.reconfigure"
    then registers
    else if method == "request.intercept_before"
    then before
    else if method == "request.intercept_after"
    then after
    else if method == "request.complete"
    then completes
    else if method == "plugin.quiesce" || method == "plugin.shutdown"
    then quiesces
    else unsupported

-- The call has an answer, or its thread waits: until a time, or without one.
pub data Answer : Type 0 where
  answered : Value → Answer
  blocked : Option ℕ → Answer

abbrev pub is_parent : String → Bool
is_parent name = eq_ignore_case name parent_header

-- A streaming Responses request.
unfoldable pub is_responses : Request → Bool
is_responses req = req.source_format == "openai-response" && req.stream

-- The text of the first parent header.
unfoldable pub header_parent : Value → Option String
header_parent headers = do
  fields ← as_object headers
  values ← find_field is_parent fields
  value ← first_item values
  as_str value

-- The request that this one is nested in, if the host says that the plugin made it.
unfoldable pub parent_of : Request → Option String
parent_of req =
    if is_responses req && is_text (index req.metadata "source") "plugin_host_model_callback"
    then header_parent req.headers
    else none

-- `{"Headers":{PARENT_HEADER:[req.id]}}`
abbrev pub mark_headers : String → Value
mark_headers id = object (field parent_header (one_text id) end)

abbrev pub marked : String → Value
marked id = object (field "Headers" (mark_headers id) end)

-- A credential's id as the host selects it.
unfoldable pub valid_credential : String → Bool
valid_credential id = not (is_empty_text id) && leb (byte_len id) 1024 && trim id == id

-- `headers.keys().any(..)`
abbrev pub has_parent : Request → Bool
has_parent req = is_some (as_object req.headers >>= find_field is_parent)

abbrev pub admitted : Request → Value
admitted req =
    if has_parent req then object (field "ClearHeaders" (one_text parent_header) end) else empty

module _ {T : Type 0} where
  -- `begin` or `begin_child` of the runtime.
  unfoldable pub enroll : Engine T → Request → Engine T × Result Rejection (Unit {0})
  enroll e req = elim (parent_of req) [
    | none ↦ begin e req.id
    | some parent ↦ begin_child e req.id parent
  ]

abbrev pub answer : Codec → Request → Acquired → Answer
answer c req (waiting deadline) = blocked (some deadline)
answer c req (returned result) = answered (respond c.printer (admitted req) result)

abbrev pub at_once : {T : Type 0} → Engine T × Value → Option (Engine T × Answer)
at_once (e, value) = some (e, answered value)

module _ (c : Codec) {T : Type 0} ⦃f : F64 T⦄ where
  unfoldable pub register : Engine T → ℕ → Bytes → Engine T × Value
  register e now raw = elim (read_config c raw) [
    | err message ↦ (e, Envelope.error message)
    | ok cfg ↦
        let (e', result) = reconfigure e cfg now in
        (e', elim result [ ok _ ↦ registration 2 | err message ↦ Envelope.error message ])
  ]

  unfoldable pub intercept_before : Engine T → Bytes → Engine T × Value
  intercept_before e raw = elim (request c raw) [
    | err response ↦ (e, response)
    | ok req ↦
        let (e', admission) = enroll e req in
        (e', respond c.printer (if is_responses req then marked req.id else empty) admission)
  ]

  -- A credential is selected: the request attempts it.
  unfoldable pub attempt_credential :
      Engine T → Request → Value → ℕ → List Round → Option (Engine T × Answer)
  attempt_credential e req value now rounds = elim (as_str value) [
    | none ↦
        some (
          e,
          answered (terminate c.printer 503 "cpa_invalid_credential" "Invalid selected_auth_id"),
        )
    | some credential ↦
        let attempt = (do
          (e', acquired) ← acquire e req.id credential now rounds
          some (e', answer c req acquired)) in
        if valid_credential credential
        then attempt
        else some (
          e,
          answered (terminate c.printer 503 "cpa_invalid_credential" "Invalid selected_auth_id"),
        )
  ]

  unfoldable pub intercept_after : Engine T → Bytes → ℕ → List Round → Option (Engine T × Answer)
  intercept_after e raw now rounds = elim (request c raw) [
    | err response ↦ some (e, answered response)
    | ok req ↦ elim (get req.metadata "selected_auth_id") [
      | none ↦ some (e, answered (Envelope.ok empty))
      | some value ↦ attempt_credential e req value now rounds
    ]
  ]

  unfoldable pub finish_request : Engine T → Bytes → Option (Engine T × Value)
  finish_request e raw = elim (request c raw) [
    | err _ ↦ some (e, Envelope.error "Invalid completion payload")
    | ok req ↦ do e' ← complete e req.id; some (e', Envelope.ok empty)
  ]

  -- The arms of the `match`.
  unfoldable pub dispatch : Engine T → Method → Bytes → ℕ → List Round → Option (Engine T × Answer)
  dispatch e registers raw now rounds = at_once (register e now raw)
  dispatch e before raw now rounds = at_once (intercept_before e raw)
  dispatch e after raw now rounds = intercept_after e raw now rounds
  dispatch e completes raw now rounds = finish_request e raw >>= at_once
  dispatch e quiesces raw now rounds = at_once (stop e, Envelope.ok empty)
  dispatch e unsupported raw now rounds = at_once (e, Envelope.error "Unsupported plugin method")

  -- `now` is the time of the call, and `rounds` the waits of its thread, if it waits.
  unfoldable pub handle : Engine T → String → Bytes → ℕ → List Round → Option (Engine T × Answer)
  handle e method raw now rounds = dispatch e (method_of method) raw now rounds
