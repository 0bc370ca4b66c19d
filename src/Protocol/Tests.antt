-- ===== src/Protocol/Tests.antt =====
-- Calls of src/protocol.rs on small engines.
use cpa_stg.Base.Map.{get, contains_key}
use cpa_stg.Base.Result.{ok}
use cpa_stg.Base.{arith, ℕ, some, true, false, [], ◌∷◌, ◌≡◌, refl, ◌⊎◌, string_eq, ℕ_eq}
use cpa_stg.Engine.Samples.{contended, contended-Inv}
use cpa_stg.Engine.{Engine, begin, stop}
use cpa_stg.Float.Fixed.{fixed}
use cpa_stg.Json
use cpa_stg.Json.{Value, null, string, object, field, end, index, get_field, find_field}
use cpa_stg.Protocol.Consistent.{handle-Inv}
use cpa_stg.Protocol.Envelope
use cpa_stg.Protocol.Handle.{
  method_of, quiesces, dispatch, is_responses, parent_of, enroll, register, intercept_before,
  intercept_after, handle,
}
use cpa_stg.Engine.Nested.{NestedIn}
use cpa_stg.Protocol.Nested.{enroll-nested, headers_of}
use cpa_stg.Protocol.Quiesce.{Arrival, arrive, Closed, quiesce-Closed}
use cpa_stg.Protocol.Register.{Configured, register-Configured}
use cpa_stg.Protocol.Cleared.{AnswerVerdict, Cleared, intercept_after-Verdict}
use cpa_stg.Protocol.Verdict.{succeeded}
use cpa_stg.Protocol.{request}
use cpa_stg.Protocol.Samples.{outer, inner, codec, raw, wakes}
use cpa_stg.Runtime.Acquire.{KeepsInv}

handle-Inv_example : KeepsInv (handle codec contended "request.intercept_after" raw 6 wakes)
handle-Inv_example = handle-Inv codec contended "request.intercept_after" raw 6 wakes contended-Inv

intercept_after-Verdict_example :
    AnswerVerdict
      (Cleared codec contended raw 6 wakes)
      (intercept_after codec contended raw 6 wakes)
intercept_after-Verdict_example = intercept_after-Verdict codec contended raw 6 wakes contended-Inv

register-Configured_example :
    ((succeeded (register codec contended 6 []).1 ≡ true)
      × Configured codec contended 6 [] (register codec contended 6 []).0)
    ⊎ ((succeeded (register codec contended 6 []).1 ≡ false)
        × ((register codec contended 6 []).0 ≡ contended))
register-Configured_example = register-Configured codec contended 6 []

read_outer : request codec raw ≡ ok outer
unfolding request
read_outer = refl

outer_streams : is_responses outer ≡ true
unfolding is_responses
outer_streams = refl

inner_streams : is_responses inner ≡ true
unfolding is_responses
inner_streams = refl

outer_enrolls : (enroll contended outer).1 ≡ ok tt
unfolding enroll parent_of is_responses index Json.get begin get
outer_enrolls = refl

inner_headers : inner.headers ≡ headers_of (intercept_before codec contended raw).1
unfolding intercept_before request enroll parent_of is_responses index Json.get begin get
    Envelope.ok
inner_headers = refl

inner_source : index inner.metadata "source" ≡ string "plugin_host_model_callback"
unfolding index Json.get
inner_source = refl

outer_known : contains_key "a" contended.requests ≡ true
unfolding get
outer_known = refl

inner_fresh : contains_key "c" contended.requests ≡ false
unfolding get
inner_fresh = refl

enroll-nested_example :
    ((enroll contended inner).1 ≡ ok tt) × NestedIn "c" "a" contended (enroll contended inner).0
enroll-nested_example =
    enroll-nested codec contended contended raw outer inner read_outer outer_streams outer_enrolls
      inner_headers inner_streams inner_source refl outer_known inner_fresh (omega arith)

abbrev shuts_down : Arrival
shuts_down = record { method = "plugin.shutdown"; raw = []; now = 7; rounds = [] }

abbrev comes_late : Arrival
comes_late = record { method = "request.intercept_before"; raw = raw; now = 8; rounds = [] }

abbrev closing : Engine ℕ
closing = record contended { stopping = true }

shut_down : arrive codec contended (shuts_down ∷ comes_late ∷ []) ≡ some closing
unfolding arrive handle dispatch method_of stop intercept_before request enroll parent_of
    is_responses index Json.get begin
shut_down = refl

shuts_down-quiesces : method_of shuts_down.method ≡ quiesces
unfolding method_of
shuts_down-quiesces = refl

quiesce-Closed_example : Closed codec closing
quiesce-Closed_example =
    quiesce-Closed codec contended shuts_down (comes_late ∷ []) closing shuts_down-quiesces
      shut_down
