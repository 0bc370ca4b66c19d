-- ===== src/Host.antt =====
-- src/host.rs: `Fault`, and `call`, which makes one callback of the host. The host is a function
-- of the calls so far. What it does to memory is not here.
pub mod Status
pub mod Buffers
mod Tests
use cpa_stg.Base.Result.{Result, ok, err}
use cpa_stg.Base.{
  ℕ, ◌*◌, String, Bool, true, false, not, ◌&&◌, ◌||◌, Option, none, some, List, [], ◌∷◌, ◌==◌, ℕ_eq,
  if◌then◌else◌, ltb, leb, length,
}
use cpa_stg.ErrorMapping.Delay.{Bytes}
use cpa_stg.ErrorMapping.Sse.{Library}
use cpa_stg.Json.{
  Value, bool, number, unsigned, string, object, end, field, index, as_str, as_u64, is_true,
}

pub record Fault : Type 0 where
  pub status : ℕ
  pub message : String

abbrev pub new_fault : String → Fault
new_fault message = record { status = 502; message = message }

abbrev pub http_status : Fault → ℕ
http_status fault = if fault.status == 0 then 502 else fault.status

unfoldable pub envelope : Fault → Value
envelope fault = object (
    field "ok" (bool false) (
      field "error"
        (object (
          field "code" (string "cpa_execution_error") (
            field "message" (string fault.message)
              (field "http_status" (number (unsigned (http_status fault))) end))))
        end))

-- A call: the method and the request.
abbrev pub HostCall : Type 0
HostCall = String × Value

-- The calls so far, the newest first.
abbrev pub Journal : Type 0
Journal = List HostCall

-- What the callback returns, and the bytes that it leaves, none for a null pointer.
pub record Reply : Type 0 where
  pub code : ℕ
  pub output : Option Bytes

-- The callback table, if one is installed. The answer to the newest call may rest on all before.
pub record Host : Type 0 where
  pub installed : Bool
  pub reply : Journal → Reply

abbrev pub max_output : ℕ
max_output = 64 * 1024 * 1024

-- `envelope["error"]["http_status"].as_u64().filter(..).unwrap_or(0)`
abbrev pub status_of : Option ℕ → ℕ
status_of none = 0
status_of (some s) = if leb 400 s && leb s 599 then s else 0

abbrev message_of : Option String → String
message_of none = "Host execution failed"
message_of (some s) = s

unfoldable pub open_envelope : Value → Result Fault Value
open_envelope v =
    if not (is_true (index v "ok"))
    then err (record {
      status = status_of (as_u64 (index (index v "error") "http_status"));
      message = message_of (as_str (index (index v "error") "message"));
    })
    else ok (index v "result")

-- What is made of the callback's output.
unfoldable pub decode_reply : Library → Reply → Result Fault Value
decode_reply library reply = elim reply.output [
  | none ↦ err (new_fault "Invalid host callback response")
  | some bytes ↦
      if not (reply.code == 0) || ltb max_output (length bytes)
      then err (new_fault "Invalid host callback response")
      else elim (library.from_slice bytes) [
        | none ↦ err (new_fault "Invalid host response JSON")
        | some v ↦ open_envelope v
      ]
]

-- The methods that the program passes hold no NUL, and printing a JSON value does not fail.
unfoldable pub call : Library → Host → Journal → String → Value → Journal × Result Fault Value
call library host journal method request =
    if not host.installed then (journal, err (new_fault "Host callbacks unavailable")) else (
      (method, request) ∷ journal,
      decode_reply library (host.reply ((method, request) ∷ journal)),
    )
