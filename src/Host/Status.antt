-- ===== src/Host/Status.antt =====
-- The statuses of the faults of src/host.rs.
use cpa_stg.Base.Result.{Result, ok, err}
use cpa_stg.Base.{
  inl, inr, ◌∷◌, refl, ◌||◌, ltb, length, ℕ, ◌≤◌, String, not, Option, none, some, ◌≡◌, arith, ◌==◌,
  ℕ_eq, if◌then◌else◌, if_cases, Option-cases,
}
use mathlib.Core.Path.{subst}
use cpa_stg.ErrorMapping.Delay.{Bytes}
use cpa_stg.ErrorMapping.Sse.{Library}
use cpa_stg.Host.{
  new_fault, max_output, status_of, envelope, Fault, http_status, Host, Journal, Reply,
  open_envelope, decode_reply, call,
}
use cpa_stg.Json.{Value, number, unsigned, is_true, index, get, as_u64}

abbrev InRange : ℕ → Type 0
InRange s = (400 ≤ s) × (s ≤ 599)

-- An error status as the host gave it, or one that stands for none.
abbrev FaultInRange : Result Fault Value → Type 0
FaultInRange (ok v) = Unit
FaultInRange (err fault) = InRange (http_status fault)

status_of-InRange : (o : Option ℕ) → InRange (if status_of o == 0 then 502 else status_of o)
status_of-InRange none = omega arith
status_of-InRange (some s) = ground arith

open_envelope-InRange : (v : Value) → FaultInRange (open_envelope v)
unfolding open_envelope
open_envelope-InRange v =
    if_cases FaultInRange (not (is_true (index v "ok"))) _ _
      (λ failed. status_of-InRange (as_u64 (index (index v "error") "http_status"))) (λ fine. tt)

invalid_response : InRange 502
invalid_response = omega arith

decode_bytes-InRange :
    (library : Library) (reply : Reply) (bytes : Bytes)
    → FaultInRange (elim (library.from_slice bytes) [
      | none ↦ err (new_fault "Invalid host response JSON")
      | some v ↦ open_envelope v
    ])
decode_bytes-InRange library reply bytes = elim (Option-cases (library.from_slice bytes)) [
  | inl h ↦ rw h invalid_response
  | inr (v, h) ↦ rw h (open_envelope-InRange v)
]

decode_reply-InRange :
    (library : Library) (reply : Reply) → FaultInRange (decode_reply library reply)
unfolding decode_reply
decode_reply-InRange library reply = elim (Option-cases reply.output) [
  | inl h ↦ rw (h, decode_reply) invalid_response
  | inr (bytes, h) ↦
      rw (h, decode_reply)
        (if_cases FaultInRange (not (reply.code == 0) || ltb max_output (length bytes)) _ _
          (λ bad. invalid_response) (λ good. decode_bytes-InRange library reply bytes))
]

call-InRange :
    (library : Library) (host : Host) (journal : Journal) (method : String) (request : Value)
    → FaultInRange (call library host journal method request).1
unfolding call
call-InRange library host journal method request =
    if_cases (λ (r : Journal × Result Fault Value). FaultInRange r.1) (not host.installed) _ _
      (λ missing. invalid_response)
      (λ there. decode_reply-InRange library (host.reply ((method, request) ∷ journal)))

-- Whatever the host answers, a call that fails has a fault, and the answer that reports the fault
-- gives it an HTTP error status.
pub call-http_status :
    (library : Library) (host : Host) (journal : Journal) (method : String) (request : Value)
    (fault : Fault)
    → (call library host journal method request).1 ≡ err fault
    → (s : ℕ) × (index (index (envelope fault) "error") "http_status" ≡ number (unsigned s))
      × (400 ≤ s)
      × (s ≤ 599)
unfolding envelope index get
call-http_status library host journal method request fault h =
    let (low, high) = subst FaultInRange h (call-InRange library host journal method request) in
    (http_status fault, refl, low, high)
