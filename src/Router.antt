-- ===== src/Router.antt =====
-- src/router.rs: the state of the router, the parts of its methods that call no host, and what
-- the workers send. The thread of a worker is in Pump, the execution of a request in Execute, and
-- the calls of the host in Handle.
pub mod Pump
pub mod Closings
pub mod Execute
pub mod Handle
pub mod Slots
pub mod Outcome
pub mod Handled
pub mod Reap
pub mod Refused
pub mod Streams
pub mod Samples
mod Tests
use cpa_stg.Base.Result.{Result, ok, err}
use cpa_stg.Base.Text.{is_empty_text}
use cpa_stg.Base.{
  ℕ, ◌+◌, ◌%◌, ◌^◌, String, Bool, true, false, not, ◌&&◌, Option, none, some, List, [], ◌==◌,
  string_eq, ℕ_eq, if◌then◌else◌, ltb, leb, is_empty,
}
use cpa_stg.Config.{Config, default_config}
use cpa_stg.Engine.{minus_one}
use cpa_stg.ErrorMapping.Delay.{Bytes}
use cpa_stg.ErrorMapping.Sse.{Library}
use cpa_stg.Host.{Fault, new_fault, Host, Journal, call}
use cpa_stg.Json.{Value, string, object, end, field, index, as_str, is_text, is_true}

pub record Worker : Type 0 where
  pub nested : String
  pub downstream : String

pub record Router : Type 0 where
  pub config : Config
  pub workers : List Worker
  pub active : ℕ
  pub stopping : Bool

abbrev pub initial : Router
initial = record { config = default_config; workers = []; active = 0; stopping = false }

-- What is not the program's own: JSON, base64 and YAML.
pub record Codec : Type 0 where
  pub library : Library
  pub encode : Bytes → String
  pub decode : String → Option Bytes
  pub from_yaml : Bytes → Option Config

-- `fetch_add(1)` of an `AtomicUsize`.
abbrev pub plus_one : ℕ → ℕ
plus_one n = (n + 1) % 2 ^ 64

-- `as_str().filter(|s| !s.is_empty())`
abbrev pub non_empty : Option String → Option String
non_empty none = none
non_empty (some s) = if is_empty_text s then none else some s

abbrev pub text_field : Value → String → Option String
text_field v k = non_empty (as_str (index v k))

-- `req["SourceFormat"] == "openai-response" && req["Stream"] == true`
unfoldable pub is_stream_request : Value → Bool
is_stream_request req =
    is_text (index req "SourceFormat") "openai-response" && is_true (index req "Stream")

-- `model.route`
unfoldable pub routes : Router → Value → Bool
routes r req =
    r.config.enabled && r.config.error_mapping.enabled && not r.stopping && is_stream_request req

-- A request with a stream's id.
abbrev pub stream_id : String → Value
stream_id id = object (field "stream_id" (string id) end)

-- The calls so far, and whether what was sent has arrived.
abbrev pub Emitted : Type 0
Emitted = Journal × Result Fault (Unit {0})

module _ (c : Codec) (host : Host) where
  unfoldable pub close : Journal → String → String → Journal
  close j method id = (call c.library host j method (stream_id id)).0

  abbrev pub discard : Result Fault Value → Result Fault (Unit {0})
  discard (ok _) = ok tt
  discard (err fault) = err fault

  abbrev pub emission : String → Bytes → Value
  emission id payload =
      object (field "stream_id" (string id) (field "payload" (string (c.encode payload)) end))

  unfoldable pub emit : Journal → String → Bytes → Emitted
  emit j id payload =
      if is_empty payload
      then (j, ok tt)
      else (let (j', r) = call c.library host j "host.stream.emit" (emission id payload) in
          (j', discard r))
