-- ===== src/Protocol/Verdict.antt =====
-- What the answers of src/protocol.rs to an interception tell the host.
use mathlib.Core.Path.{subst}
use cpa_stg.Base.Map.{is_some}
use cpa_stg.Base.Result.{Result, Result-cases, ok, err}
use cpa_stg.Base.{
  &&_left, ℕ, String, Bool, true, false, not, ◌&&◌, none, ◌≡◌, refl, ◌↔◌, sym, ap, ◌∙◌, inl, inr,
  Option-cases, arith, if◌then◌else◌, if_cases,
}
use cpa_stg.Engine.Types.{Rejection}
use cpa_stg.Engine.{Engine}
use cpa_stg.ErrorMapping.Delay.{Bytes}
use cpa_stg.Float.{F64}
use cpa_stg.Json.{Value, get, index, is_true}
use cpa_stg.Protocol.Envelope
use cpa_stg.Protocol.Envelope.{Printer, terminate}
use cpa_stg.Protocol.Handle.{is_responses, marked, enroll, intercept_before}
use cpa_stg.Protocol.{
  status_of, code_of, message_of, Codec, Request, request, respond, rejected, empty,
}

-- The host takes the call for a success.
unfoldable pub succeeded : Value → Bool
succeeded v = is_true (index v "ok")

-- It is told to end the request.
unfoldable pub terminates : Value → Bool
terminates v = is_some (get (index v "result") "Terminate")

-- The call is a success that lets the request go on. The host logs a call that is none and goes
-- on with the request all the same.
unfoldable pub passes : Value → Bool
passes v = succeeded v && not (terminates v)

pub succeeded-terminate :
    (p : Printer) (n : ℕ) (s t : String) → succeeded (terminate p n s t) ≡ true
unfolding succeeded index get terminate Envelope.ok
succeeded-terminate p n s t = refl

pub passes-terminate : (p : Printer) (n : ℕ) (s t : String) → passes (terminate p n s t) ≡ false
unfolding passes succeeded terminates index get terminate Envelope.ok
passes-terminate p n s t = refl

-- The answer is a success, and lets the request go on exactly if `A` holds.
pub record Verdict (A : Type 0) (v : Value) : Type 0 where
  pub success : succeeded v ≡ true
  pub passes_iff : (passes v ≡ true) ↔ A

pub Verdict-passes : (A : Type 0) (v : Value) → passes v ≡ true → A → Verdict A v
unfolding passes
Verdict-passes A v h a = record {
  success = &&_left (succeeded v) (not (terminates v)) h;
  passes_iff = (λ _. a, λ _. h);
}

pub Verdict-terminate :
    (A : Type 0) (p : Printer) (n : ℕ) (s t : String) → ¬ A → Verdict A (terminate p n s t)
Verdict-terminate A p n s t refused = record {
  success = succeeded-terminate p n s t;
  passes_iff = (
    λ h. absurd (let k : true ≡ false = sym h ∙ passes-terminate p n s t in cc),
    λ a. absurd (refused a),
  );
}

pub passes-ok :
    (result : Value) → get result "Terminate" ≡ none → passes (Envelope.ok result) ≡ true
unfolding passes succeeded terminates index get Envelope.ok
passes-ok result h = rw h refl

-- The answer to an admission.
pub respond-Verdict :
    (p : Printer) (passed : Value) (r : Result Rejection (Unit {0}))
    → get passed "Terminate" ≡ none
    → Verdict (r ≡ ok tt) (respond p passed r)
unfolding rejected
respond-Verdict p passed (ok tt') h = Verdict-passes _ _ (passes-ok passed h) refl
respond-Verdict p passed (err reason) h =
    Verdict-terminate _ p (status_of reason) (code_of reason) (message_of reason) (λ x. cc)

pub Verdict-map : (A B : Type 0) (v : Value) → (A ↔ B) → Verdict A v → Verdict B v
Verdict-map A B v (to, from) w = record {
  success = w.success;
  passes_iff = (λ h. to (w.passes_iff.0 h), λ b. w.passes_iff.1 (from b));
}

module _ (c : Codec) {T : Type 0} ⦃f : F64 T⦄ (e : Engine T) (raw : Bytes) where
  -- The engine registers the request of the payload, or has it already, and is then `e'`.
  pub record Enrolled (e' : Engine T) : Type 0 where
    pub req : Request
    pub reads : request c raw ≡ ok req
    pub enrolls : enroll e req ≡ (e', ok tt)

  pub request-err :
      (response : Value)
      → request c raw ≡ err response
      → (s : String) × (t : String) × (response ≡ terminate c.printer 400 s t)
  unfolding request
  request-err response h = elim (Option-cases (c.read_request raw)) [
    | inl none_read ↦ (
      "cpa_invalid_request",
      "Invalid request interception payload",
      ground (arith, h, none_read),
    )
    | inr (req, read) ↦
        ("cpa_invalid_request_id", "A valid RequestID is required", ground (arith, h, read))
  ]

  pub refused_request :
      {A : Type 0} (response : Value) → request c raw ≡ err response → ¬ A → Verdict A response
  refused_request {A} response h none_such =
      let (s, t, same) = request-err response h in
      subst (Verdict A) (sym same) (Verdict-terminate A c.printer 400 s t none_such)

  marked-get :
      (req : Request) → get (if is_responses req then marked req.id else empty) "Terminate" ≡ none
  unfolding get
  marked-get req =
      if_cases (λ v. get v "Terminate" ≡ none) (is_responses req) _ _ (λ _. refl) (λ _. refl)

  -- Whatever the payload, the answer to an interception before the choice of a credential is a
  -- success, and it lets the request go on exactly if the engine has registered it.
  pub intercept_before-Verdict :
      Verdict (Enrolled (intercept_before c e raw).0) (intercept_before c e raw).1
  unfolding intercept_before
  intercept_before-Verdict = elim (Result-cases (request c raw)) [
    | inr (response, h) ↦
        rw (h, intercept_before)
          (refused_request response h λ x. let k : err response ≡ ok x.req = sym h ∙ x.reads in cc)
    | inl (req, h) ↦
        let (e', r) = enroll e req in
        rw (h, intercept_before)
          (Verdict-map (r ≡ ok tt) (Enrolled e') _
            (
              (λ done. record { req = req; reads = h; enrolls = ap (λ x. (e', x)) done }),
              (λ x.
                  let same : req ≡ x.req = let k : ok req ≡ ok x.req = sym h ∙ x.reads in cc in
                  ap (λ y. y.1) (ap (enroll e) same ∙ x.enrolls)),
            )
            (respond-Verdict c.printer (if is_responses req then marked req.id else empty) r
              (marked-get req)))
  ]
