-- ===== src/Protocol/Consistent.antt =====
-- The calls of src/protocol.rs and the consistency of the engine.
use cpa_stg.Base.Partial.{◌>>=◌}
use cpa_stg.Base.Result.{Result-cases}
use cpa_stg.Base.{ℕ, String, Option-cases, Option, none, some, List, inl, inr, if_cases}
use cpa_stg.Engine.Consistent.Lifecycle.{
  begin-Inv, begin_child-Inv, complete-Inv, stop-Inv, reconfigure-Inv,
}
use cpa_stg.Engine.Consistent.{Inv}
use cpa_stg.Engine.Family.Complete.{complete-total}
use cpa_stg.Engine.{Engine}
use cpa_stg.ErrorMapping.Delay.{Bytes}
use cpa_stg.Float.{F64}
use cpa_stg.Json
use cpa_stg.Json.{Value, as_str}
use cpa_stg.Protocol.Handle.{
  Answer, valid_credential, parent_of, enroll, register, intercept_before, attempt_credential,
  intercept_after, finish_request, handle, dispatch, method_of, Method, registers, before, after,
  completes, quiesces, unsupported, answer, at_once,
}
use cpa_stg.Protocol.{Codec, Request, request, read_config}
use cpa_stg.Runtime.Acquire.{KeepsInv, acquire-Inv}
use cpa_stg.Runtime.{Round, Acquired, acquire}

module _ {T : Type 0} where
  enroll-Inv : (e : Engine T) (req : Request) → Inv e → Inv (enroll e req).0
  unfolding enroll
  enroll-Inv e req v = elim (Option-cases (parent_of req)) [
    | inl h ↦ rw (h, enroll) (begin-Inv e req.id v)
    | inr (parent, h) ↦ rw (h, enroll) (begin_child-Inv e req.id parent v)
  ]

module _ (c : Codec) {T : Type 0} ⦃f : F64 T⦄ where
  register-Inv : (e : Engine T) (now : ℕ) (raw : Bytes) → Inv e → Inv (register c e now raw).0
  unfolding register
  register-Inv e now raw v = elim (Result-cases (read_config c raw)) [
    | inl (cfg, h) ↦ rw (h, register) (reconfigure-Inv e cfg now v)
    | inr (message, h) ↦ rw (h, register) v
  ]

  before-Inv : (e : Engine T) (raw : Bytes) → Inv e → Inv (intercept_before c e raw).0
  unfolding intercept_before
  before-Inv e raw v = elim (Result-cases (request c raw)) [
    | inl (req, h) ↦ rw (h, intercept_before) (enroll-Inv e req v)
    | inr (response, h) ↦ rw (h, intercept_before) v
  ]

  then_answer :
      (req : Request) (o : Option (Engine T × Acquired))
      → KeepsInv o
      → KeepsInv (o >>= λ (x : Engine T × Acquired). some (x.0, answer c req x.1))
  then_answer req none v = v
  then_answer req (some (e, a)) v = v

  credential-Inv :
      (e : Engine T) (req : Request) (value : Value) (now : ℕ) (rounds : List Round)
      → Inv e
      → KeepsInv (attempt_credential c e req value now rounds)
  unfolding attempt_credential
  credential-Inv e req value now rounds v = elim (Option-cases (as_str value)) [
    | inl h ↦ rw (h, attempt_credential) v
    | inr (name, h) ↦
        rw (h, attempt_credential)
          (if_cases (KeepsInv {T = T} {A = Answer}) (valid_credential name) _ _
            (λ good.
              then_answer req (acquire e req.id name now rounds)
                (acquire-Inv req.id e name now rounds v))
            (λ bad. v))
  ]

  after-Inv :
      (e : Engine T) (raw : Bytes) (now : ℕ) (rounds : List Round)
      → Inv e
      → KeepsInv (intercept_after c e raw now rounds)
  unfolding intercept_after
  after-Inv e raw now rounds v = elim (Result-cases (request c raw)) [
    | inr (response, h) ↦ rw (h, intercept_after) v
    | inl (req, h) ↦ elim (Option-cases (Json.get req.metadata "selected_auth_id")) [
      | inl absent ↦ rw (h, absent, intercept_after) v
      | inr (value, found) ↦
          rw (h, found, intercept_after) (credential-Inv e req value now rounds v)
    ]
  ]

  finish-Inv : (e : Engine T) (raw : Bytes) → Inv e → KeepsInv (finish_request c e raw >>= at_once)
  unfolding finish_request
  finish-Inv e raw v = elim (Result-cases (request c raw)) [
    | inr (response, h) ↦ rw (h, finish_request) v
    | inl (req, h) ↦
        let (e', done) = complete-total e req.id in
        rw (h, done, finish_request) (complete-Inv e req.id v done)
  ]

  dispatch-Inv :
      (e : Engine T) (method : Method) (raw : Bytes) (now : ℕ) (rounds : List Round)
      → Inv e
      → KeepsInv (dispatch c e method raw now rounds)
  unfolding dispatch
  dispatch-Inv e registers raw now rounds v = register-Inv e now raw v
  dispatch-Inv e before raw now rounds v = before-Inv e raw v
  dispatch-Inv e after raw now rounds v = after-Inv e raw now rounds v
  dispatch-Inv e completes raw now rounds v = finish-Inv e raw v
  dispatch-Inv e quiesces raw now rounds v = stop-Inv e v
  dispatch-Inv e unsupported raw now rounds v = v

  -- In a consistent engine no call of the host panics, whatever the method, the payload and the
  -- calls of other threads while it waits, and the engine it leaves is consistent.
  pub handle-Inv :
      (e : Engine T) (method : String) (raw : Bytes) (now : ℕ) (rounds : List Round)
      → Inv e
      → KeepsInv (handle c e method raw now rounds)
  unfolding handle
  handle-Inv e method raw now rounds v = dispatch-Inv e (method_of method) raw now rounds v
