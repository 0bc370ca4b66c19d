-- ===== src/Protocol/Envelope.antt =====
-- src/protocol.rs: the answers of the plugin, `ok`, `error` and `terminate`.
use cpa_stg.Base.{ℕ, String, true, false, ◌==◌, ℕ_eq, if◌then◌else◌}
use cpa_stg.ErrorMapping.Delay.{Bytes}
use cpa_stg.Json.{Value, bool, number, unsigned, string, object, Fields, end, field, one_text}

unfoldable pub ok : Value → Value
ok result = object (field "ok" (bool true) (field "result" result end))

unfoldable pub error : String → Value
error message = object (
    field "ok" (bool false) (
      field "error"
        (object (field "code" (string "cpa_stg_error") (field "message" (string message) end)))
        end))

-- How JSON is printed and how bytes are written as base64: both are parameters.
pub record Printer : Type 0 where
  pub print : Value → Bytes
  pub encode : Bytes → String

unfoldable pub body : ℕ → String → String → Value
body status code message = object (
    field "error"
      (object (
        field "type" (string (if status == 429 then "rate_limit_error" else "server_error"))
          (field "code" (string code) (field "message" (string message) end))))
      end)

abbrev pub retry : ℕ → Fields
retry status = if status == 429 then field "Retry-After" (one_text "1") end else end

unfoldable pub terminate : Printer → ℕ → String → String → Value
terminate p status code message = ok (
    object (
      field "Terminate" (bool true) (
        field "StatusCode" (number (unsigned status)) (
          field "ResponseHeaders"
            (object (field "Content-Type" (one_text "application/json") (retry status)))
            (field "ResponseBody" (string (p.encode (p.print (body status code message)))) end)))))
