-- ===== src/Protocol/Halted.antt =====
-- The calls of src/protocol.rs on an engine that is stopping.
use mathlib.Core.Path.{subst}
use cpa_stg.Base.Partial.{◌>>=◌}
use cpa_stg.Base.Result.{Result, Result-cases, err}
use cpa_stg.Base.{
  ℕ, String, true, not, ◌||◌, ◌==◌, string_eq, Option, none, some, List, ◌≡◌, refl, sym, ap, ◌∙◌,
  inl, inr, Option-cases, if_cases,
}
use cpa_stg.Engine.Stopped.{
  Stopping, halted, complete_loop-Stopping, begin-stopping, begin_child-stopping,
  start_attempt-stopping, reconfigure-stopping,
}
use cpa_stg.Engine.Types.{Rejection, request_ended, stopping}
use cpa_stg.Base.Map.{contains_key}
use cpa_stg.Engine.{Engine, begun, begin_child, complete, stop}
use cpa_stg.ErrorMapping.Delay.{Bytes}
use cpa_stg.Float.{F64}
use cpa_stg.Json.{Value, get, as_str}
use cpa_stg.Protocol.Handle.{
  Method, registers, before, after, completes, quiesces, unsupported, Answer, answer, at_once,
  parent_of, valid_credential, enroll, register, intercept_before, attempt_credential,
  intercept_after, finish_request, dispatch,
}
use cpa_stg.Protocol.{Codec, Request, request, read_config}
use cpa_stg.Runtime.{Round, Acquired, returned, acquire, follow}

module _ {T : Type 0} where
  -- It is stopping when the call ends, or there is a panic.
  unfoldable pub Halted {ℓ} : {A : Type ℓ} → Option (Engine T × A) → Type 0
  Halted none = Unit
  Halted (some (e, a)) = e.stopping ≡ true

  enroll-stopping : (e : Engine T) (req : Request) → e.stopping ≡ true → (enroll e req).0 ≡ e
  unfolding enroll
  enroll-stopping e req h = elim (Option-cases (parent_of req)) [
    | inl k ↦ rw (k, enroll) (ap (λ r. r.0) (begin-stopping e req.id h))
    | inr (parent, k) ↦ rw (k, enroll) (begin_child-stopping e req.id parent h)
  ]

module _ {T : Type 0} where
  begin_child-err :
      (e : Engine T) (id parent : String)
      → e.stopping ≡ true
      → (reason : Rejection) × ((begin_child e id parent).1 ≡ err reason)
  unfolding begin_child begun
  begin_child-err e id parent h =
      if_cases
        (λ (r : Engine T × Result Rejection (Unit {0})). (reason : Rejection) × (r.1 ≡ err reason))
        (id == parent || not (contains_key parent e.requests) || contains_key id e.requests) _ _
        (λ refused. (request_ended, refl))
        (λ fine. (stopping, ap (λ r. (begun id parent r).1) (begin-stopping e id h)))

  pub enroll-err :
      (e : Engine T) (req : Request)
      → e.stopping ≡ true
      → (reason : Rejection) × ((enroll e req).1 ≡ err reason)
  unfolding enroll
  enroll-err e req h = elim (Option-cases (parent_of req)) [
    | inl k ↦ rw (k, enroll) (stopping, ap (λ r. r.1) (begin-stopping e req.id h))
    | inr (parent, k) ↦ rw (k, enroll) (begin_child-err e req.id parent h)
  ]

module _ (c : Codec) {T : Type 0} ⦃f : F64 T⦄ (e : Engine T) (h : e.stopping ≡ true) where
  pub acquire-stopping :
      (id name : String) (now : ℕ) (rounds : List Round)
      → acquire e id name now rounds ≡ some (e, returned (err stopping))
  unfolding acquire follow
  acquire-stopping id name now rounds =
      ap (λ o. o >>= λ decision. follow id rounds decision) (start_attempt-stopping e id name now h)

  register-Halted : (now : ℕ) (raw : Bytes) → (register c e now raw).0.stopping ≡ true
  unfolding register
  register-Halted now raw = elim (Result-cases (read_config c raw)) [
    | inl (cfg, k) ↦ rw (k, register) (ap (λ x. x.stopping) (reconfigure-stopping e cfg now h) ∙ h)
    | inr (message, k) ↦ rw (k, register) h
  ]

  before-Halted : (raw : Bytes) → (intercept_before c e raw).0.stopping ≡ true
  unfolding intercept_before
  before-Halted raw = elim (Result-cases (request c raw)) [
    | inl (req, k) ↦ rw (k, intercept_before) (ap (λ x. x.stopping) (enroll-stopping e req h) ∙ h)
    | inr (response, k) ↦ rw (k, intercept_before) h
  ]

  credential-Halted :
      (req : Request) (value : Value) (now : ℕ) (rounds : List Round)
      → Halted (attempt_credential c e req value now rounds)
  unfolding attempt_credential Halted
  credential-Halted req value now rounds = elim (Option-cases (as_str value)) [
    | inl k ↦ rw (k, attempt_credential) h
    | inr (name, k) ↦
        rw (k, attempt_credential)
          (if_cases (Halted {T = T} {A = Answer}) (valid_credential name) _ _
            (λ good.
              subst (λ o. Halted (o >>= λ (x : Engine T × Acquired). some (x.0, answer c req x.1)))
                (sym (acquire-stopping req.id name now rounds)) h)
            (λ bad. h))
  ]

  after-Halted :
      (raw : Bytes) (now : ℕ) (rounds : List Round) → Halted (intercept_after c e raw now rounds)
  unfolding intercept_after Halted
  after-Halted raw now rounds = elim (Result-cases (request c raw)) [
    | inr (response, k) ↦ rw (k, intercept_after) h
    | inl (req, k) ↦ elim (Option-cases (get req.metadata "selected_auth_id")) [
      | inl absent ↦ rw (k, absent, intercept_after) h
      | inr (value, found) ↦ rw (k, found, intercept_after) (credential-Halted req value now rounds)
    ]
  ]

  finished-Halted :
      (o : Option (Engine T))
      → Stopping o
      → (v : Value) → Halted (o >>= (λ e'. some (e', v)) >>= at_once)
  unfolding Halted
  finished-Halted none s v = tt
  finished-Halted (some _) (halted e' k) v = k

  finish-Halted : (raw : Bytes) → Halted (finish_request c e raw >>= at_once)
  unfolding finish_request
  finish-Halted raw = elim (Result-cases (request c raw)) [
    | inr (response, k) ↦ rw (k, finish_request) (unfold Halted in h)
    | inl (req, k) ↦
        rw (k, finish_request)
          (finished-Halted (complete e req.id) (unfold complete in complete_loop-Stopping _ _ e h)
            _)
  ]

  pub dispatch-Halted :
      (method : Method) (raw : Bytes) (now : ℕ) (rounds : List Round)
      → Halted (dispatch c e method raw now rounds)
  unfolding dispatch Halted
  dispatch-Halted registers raw now rounds = register-Halted now raw
  dispatch-Halted before raw now rounds = before-Halted raw
  dispatch-Halted after raw now rounds = after-Halted raw now rounds
  dispatch-Halted completes raw now rounds = finish-Halted raw
  dispatch-Halted quiesces raw now rounds = unfold stop in refl
  dispatch-Halted unsupported raw now rounds = h
