-- ===== src/Router/Pump.antt =====
-- src/router.rs: `pump`, the loop of a worker, and what its thread does after it.
pub mod Traffic
pub mod Fed
pub mod Relay
pub mod Grows
use cpa_stg.Base.Partial.{◌>>=◌}
use cpa_stg.Base.Result.{Result, ok, err}
use cpa_stg.Base.{String, Bool, true, false, Option, none, some, List, [], ◌∷◌, if◌then◌else◌}
use cpa_stg.ErrorMapping.Delay.{Bytes}
use cpa_stg.ErrorMapping.Sse.{
  Library, SseMapper, new, finish, push_host_chunk, failure_from_message, sse,
}
use cpa_stg.ErrorMapping.{ErrorMapping, map_error, rewrite}
use cpa_stg.Host.{Fault, new_fault, Host, Journal, call}
use cpa_stg.Json.{Value, string, object, end, field, index, as_str, is_true}
use cpa_stg.Router.{Emitted, Codec, text_field, stream_id, close, emit}

-- A loop has ended, or it is on its way with the mapper and the calls so far.
pub data Pumped : Type 0 where
  ended : Journal → Result Fault (Unit {0}) → Pumped
  running : Journal → SseMapper → Pumped

module _ (c : Codec) (host : Host) (mapping : ErrorMapping) (nested downstream : String) where
  -- The terminal error of the nested stream, behind the unfinished frame.
  unfoldable pub send_failure : Journal → String → Option Emitted
  send_failure j message =
      let failure = failure_from_message c.library message in
      elim (map_error mapping 0 failure) [
        | none ↦ some (j, err (new_fault message))
        | some mapped ↦ do
          event ← rewrite mapped failure
          some (emit c host j downstream (sse c.library event))
      ]

  unfoldable pub end_failed : Journal → SseMapper → String → Option Emitted
  end_failed j m message =
      let (j', r) = emit c host j downstream (finish m).1 in
      elim r [ err fault ↦ some (j', err fault) | ok _ ↦ send_failure j' message ]

  abbrev keep : SseMapper → Emitted → Journal × Result Fault SseMapper
  keep m (j, ok _) = (j, ok m)
  keep m (j, err fault) = (j, err fault)

  -- The payload of a chunk, if it has one.
  unfoldable pub send_payload :
      Journal → SseMapper → Option String → Option (Journal × Result Fault SseMapper)
  send_payload j m none = some (j, ok m)
  send_payload j m (some encoded) = elim (c.decode encoded) [
    | none ↦ some (j, err (new_fault "Invalid host stream encoding"))
    | some bytes ↦ do
      (m', out) ← push_host_chunk c.library m bytes
      some (keep m' (emit c host j downstream out))
  ]

  abbrev stop_at : Emitted → Pumped
  stop_at (j, r) = ended j r

  -- The part behind the payload.
  unfoldable pub after_payload : Value → Journal × Result Fault SseMapper → Pumped
  after_payload chunk (j, err fault) = ended j (err fault)
  after_payload chunk (j, ok m) =
      if is_true (index chunk "done")
      then stop_at (emit c host j downstream (finish m).1)
      else running j m

  unfoldable pub take_chunk : Journal → SseMapper → Value → Option Pumped
  take_chunk j m chunk = elim (text_field chunk "error") [
    | some message ↦ do result ← end_failed j m message; some (stop_at result)
    | none ↦ do
      sent ← send_payload j m (as_str (index chunk "payload"))
      some (after_payload chunk sent)
  ]

  -- One round, where the router is not stopping. `none` is a panic.
  unfoldable pub round : Journal → SseMapper → Option Pumped
  round j m =
      let (j', r) = call c.library host j "host.model.stream_read" (stream_id nested) in
      elim r [ err fault ↦ some (ended j' (err fault)) | ok chunk ↦ take_chunk j' m chunk ]

  -- The loop, over what `stopping` is in each round that there is.
  unfoldable pub pump_on : List Bool → Pumped → Option Pumped
  pump_on flags (ended j r) = some (ended j r)
  pump_on [] (running j m) = some (running j m)
  pump_on (true ∷ flags) (running j m) = some (ended j (ok tt))
  pump_on (false ∷ flags) (running j m) = do state ← round j m; pump_on flags state

  unfoldable pub pump : Journal → List Bool → Option Pumped
  pump j flags = pump_on flags (running j (new mapping))

  -- The message that the downstream is closed with. A panic is caught.
  abbrev pub message_of : Result Fault (Unit {0}) → String
  message_of (ok _) = ""
  message_of (err fault) = fault.message

  abbrev farewell : String → Value
  farewell message =
      object (field "stream_id" (string downstream) (field "error" (string message) end))

  unfoldable pub leave : Journal → String → Journal
  leave j message =
      (call c.library host (close c host j "host.model.stream_close" nested) "host.stream.close"
        (farewell message)).0
