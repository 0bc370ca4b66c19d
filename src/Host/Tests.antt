-- ===== src/Host/Tests.antt =====
-- A call of src/host.rs that the host answers with an error.
use cpa_stg.Base.Result.{err}
use cpa_stg.Base.{ℕ_eq, true, false, none, some, [], ◌∷◌, ◌≡◌, refl}
use cpa_stg.ErrorMapping.Sse.{Library}
use cpa_stg.Base.Map.{insert, remove}
use cpa_stg.Base.Memory.{buffer_at, unused, get-unused}
use cpa_stg.Host.Buffers.{Table, Serves, Installed, call_in, call_in-call}
use cpa_stg.Host.{Fault, Host, call, decode_reply, open_envelope}
use cpa_stg.Json.{Value, bool, number, unsigned, string, object, field, end, index, get}

abbrev busy : Value
busy = object (
    field "ok" (bool false) (
      field "error"
        (object (field "message" (string "busy") (field "http_status" (number (unsigned 429)) end)))
        end))

abbrev library : Library
library = record {
  from_utf8 = λ bytes. none;
  from_str = λ text. none;
  from_slice = λ bytes. some busy;
  print = λ v. [];
}

abbrev host : Host
host = record { installed = true; reply = λ calls. record { code = 0; output = some [] } }

abbrev fault : Fault
fault = record { status = 429; message = "busy" }

call-fails : (call library host [] "host.model.stream_read" (object end)).1 ≡ err fault
unfolding call decode_reply open_envelope index get
call-fails = refl

-- A host that puts its outputs in new blocks.
abbrev table : Table
table = record {
  callback =
      λ calls m. (insert (unused m) (123 ∷ 125 ∷ []) m, 0, buffer_at (unused m) (123 ∷ 125 ∷ []));
  free_buffer = λ p len m. some (remove p m);
}

abbrev two_bytes : Host
two_bytes = record {
  installed = true;
  reply = λ calls. record { code = 0; output = some (123 ∷ 125 ∷ []) };
}

two_bytes-Serves : Serves two_bytes table
two_bytes-Serves = record {
  fills = λ calls m. (unused m, get-unused m, refl);
  frees = λ p bytes m live. refl;
}

two_bytes-Installed : Installed two_bytes (some table)
two_bytes-Installed = (refl, two_bytes-Serves)

call_in-call_example : call_in library (some table) [] [] "host.model.stream_read" (object end) ≡ (
    let (journal', result) = call library two_bytes [] "host.model.stream_read" (object end) in
    some ([], journal', result))
call_in-call_example =
    call_in-call library two_bytes (some table) two_bytes-Installed [] [] "host.model.stream_read"
      (object end)
