-- ===== src/Protocol/Cleared.antt =====
-- The answers of src/protocol.rs to an interception after the choice of a credential.
use mathlib.Core.Path.{subst}
use cpa_stg.Base.Partial.{◌>>=◌}
use cpa_stg.Base.Result.{Result-cases, ok, err}
use cpa_stg.Base.{
  ℕ, String, true, false, Option, none, some, List, ◌≡◌, refl, sym, ap, ◌∙◌, inl, inr, Option-cases,
  Bool-cases, if_cases,
}
use cpa_stg.Engine.Consistent.{Inv}
use cpa_stg.Engine.{Engine}
use cpa_stg.ErrorMapping.Delay.{Bytes}
use cpa_stg.Float.{F64}
use cpa_stg.Json.{null, object, Value, string, get, as_str}
use cpa_stg.Protocol.Envelope
use cpa_stg.Protocol.Envelope.{Printer, terminate}
use cpa_stg.Protocol.Handle.{
  has_parent, Answer, answered, blocked, valid_credential, attempt_credential, intercept_after,
  answer, admitted,
}
use cpa_stg.Protocol.{Codec, Request, request, empty}
use cpa_stg.Runtime.Acquire.{KeepsInv, acquire-Inv}
use cpa_stg.Runtime.{Round, Acquired, returned, waiting, acquire}
use cpa_stg.Protocol.Verdict.{
  Verdict, Verdict-map, Verdict-terminate, Verdict-passes, passes-ok, respond-Verdict,
  refused_request,
}

as_str-eq : (v : Value) (s : String) → as_str v ≡ some s → v ≡ string s
as_str-eq null s h = cc
as_str-eq (Value.bool b) s h = cc
as_str-eq (Value.number n) s h = cc
as_str-eq (string t) s h = let same : t ≡ s = cc in ap string same
as_str-eq (Value.array xs) s h = cc
as_str-eq (object fs) s h = cc

admitted-get : (req : Request) → get (admitted req) "Terminate" ≡ none
unfolding get
admitted-get req =
    if_cases (λ v. get v "Terminate" ≡ none) (has_parent req) _ _ (λ _. refl) (λ _. refl)

-- There is an answer, and it is the right one, or the thread waits.
abbrev pub AnswerVerdict : {T : Type 0} → (Engine T → Type 0) → Option (Engine T × Answer) → Type 0
AnswerVerdict P none = ⊥
AnswerVerdict P (some (e', blocked w)) = Unit
AnswerVerdict P (some (e', answered v)) = Verdict (P e') v

module _ (c : Codec) {T : Type 0} ⦃f : F64 T⦄ (e : Engine T) (raw : Bytes) (now : ℕ)
    (rounds : List Round) where
  -- The payload selects no credential, so that none is needed, or the engine has admitted the
  -- request to the one that it selects; the engine is then `e'`.
  pub data Cleared (e' : Engine T) : Type 0 where
    unselected :
        (req : Request)
        → request c raw ≡ ok req
        → get req.metadata "selected_auth_id" ≡ none
        → e' ≡ e
        → Cleared e'
    acquired :
        (req : Request) (name : String)
        → request c raw ≡ ok req
        → get req.metadata "selected_auth_id" ≡ some (string name)
        → valid_credential name ≡ true
        → acquire e req.id name now rounds ≡ some (e', returned (ok tt))
        → Cleared e'

  module _ (req : Request) (value : Value) (h : request c raw ≡ ok req)
      (found : get req.metadata "selected_auth_id" ≡ some value) where
    -- A request with a selected credential is cleared only by its admission.
    Cleared-elim :
        (A : Type 0) (e' : Engine T)
        → ((name : String)
            → value ≡ string name
            → valid_credential name ≡ true
            → acquire e req.id name now rounds ≡ some (e', returned (ok tt))
            → A)
        → Cleared e'
        → A
    Cleared-elim A e' use_it (unselected r hr absent _) =
        let same : r ≡ req = let k : ok r ≡ ok req = sym hr ∙ h in cc in
        let g = subst (λ (x : Request). get x.metadata "selected_auth_id" ≡ none) same absent in
        absurd (let k : some value ≡ none = sym found ∙ g in cc)
    Cleared-elim A e' use_it (acquired r name hr selected good done) =
        let same : r ≡ req = let k : ok r ≡ ok req = sym hr ∙ h in cc in
        let g =
          subst (λ (x : Request). get x.metadata "selected_auth_id" ≡ some (string name)) same
            selected in
        let is : value ≡ string name =
          let k : some value ≡ some (string name) = sym found ∙ g in cc in
        use_it name is good (
          subst (λ (x : Request). acquire e x.id name now rounds ≡ some (e', returned (ok tt))) same
            done)

    then_Verdict :
        (name : String) (o : Option (Engine T × Acquired))
        → value ≡ string name
        → valid_credential name ≡ true
        → acquire e req.id name now rounds ≡ o
        → KeepsInv o
        → AnswerVerdict Cleared (o >>= λ (x : Engine T × Acquired). some (x.0, answer c req x.1))
    then_Verdict name none is good done v = absurd v
    then_Verdict name (some (e', waiting w)) is good done v = tt
    then_Verdict name (some (e', returned r)) is good done v =
        Verdict-map (r ≡ ok tt) (Cleared e') _
          (
            (λ passed.
                acquired req name h (found ∙ ap some is) good
                  (done ∙ ap (λ x. some (e', returned x)) passed)),
            (Cleared-elim (r ≡ ok tt) e' λ n is' _ done'.
                let same : n ≡ name = let k : string n ≡ string name = sym is' ∙ is in cc in
                let d =
                  sym done
                  ∙ subst (λ m. acquire e req.id m now rounds ≡ some (e', returned (ok tt))) same
                      done' in
                let k : some (e', returned r) ≡ some (e', returned (ok tt)) = d in cc),
          )
          (respond-Verdict c.printer (admitted req) r (admitted-get req))

    credential-Verdict : Inv e → AnswerVerdict Cleared (attempt_credential c e req value now rounds)
    unfolding attempt_credential
    credential-Verdict v = elim (Option-cases (as_str value)) [
      | inl no_text ↦
          rw (no_text, attempt_credential)
            (Verdict-terminate (Cleared e) c.printer 503 "cpa_invalid_credential"
              "Invalid selected_auth_id"
              (Cleared-elim ⊥ e
                λ n is _ _. let k : some n ≡ none = ap as_str (sym is) ∙ no_text in cc))
      | inr (name, text) ↦
          let is = as_str-eq value name text in
          elim (Bool-cases (valid_credential name)) [
            | inl good ↦
                rw (text, good, attempt_credential)
                  (then_Verdict name (acquire e req.id name now rounds) is good refl
                    (acquire-Inv req.id e name now rounds v))
            | inr bad ↦
                rw (text, bad, attempt_credential)
                  (Verdict-terminate (Cleared e) c.printer 503 "cpa_invalid_credential"
                    "Invalid selected_auth_id"
                    (Cleared-elim ⊥ e λ n is' good _.
                      let same : n ≡ name = let k : string n ≡ string name = sym is' ∙ is in cc in
                      let k = sym (ap valid_credential same) ∙ good in
                      let t : false ≡ true = sym bad ∙ k in cc))
          ]
    ]

  unselected_Verdict :
      (req : Request)
      → request c raw ≡ ok req
      → get req.metadata "selected_auth_id" ≡ none
      → Verdict (Cleared e) (Envelope.ok empty)
  unselected_Verdict req h absent =
      Verdict-passes (Cleared e) (Envelope.ok empty) (passes-ok empty (unfold get in refl))
        (unselected req h absent refl)

  Cleared-reads : (e' : Engine T) → Cleared e' → (req : Request) × (request c raw ≡ ok req)
  Cleared-reads e' (unselected req h _ _) = (req, h)
  Cleared-reads e' (acquired req _ h _ _ _) = (req, h)

  -- In a consistent engine, whatever the payload and whatever other threads do while it waits, an
  -- interception after the choice of a credential never panics. If it answers, the answer is a
  -- success, and lets the request go on exactly if no credential is selected or the engine has
  -- admitted the request to the one that is.
  pub intercept_after-Verdict : Inv e → AnswerVerdict Cleared (intercept_after c e raw now rounds)
  unfolding intercept_after
  intercept_after-Verdict v = elim (Result-cases (request c raw)) [
    | inr (response, h) ↦
        rw (h, intercept_after)
          (refused_request c e raw response h λ x.
            let (req, good) = Cleared-reads e x in
            let k : err response ≡ ok req = sym h ∙ good in cc)
    | inl (req, h) ↦ elim (Option-cases (get req.metadata "selected_auth_id")) [
      | inl absent ↦ rw (h, absent, intercept_after) (unselected_Verdict req h absent)
      | inr (value, found) ↦ rw (h, found, intercept_after) (credential-Verdict req value h found v)
    ]
  ]
