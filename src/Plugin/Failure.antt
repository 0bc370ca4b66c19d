-- ===== src/Plugin/Failure.antt =====
-- src/lib.rs: the calls that are not served, for any handler.
use cpa_stg.Base.{
  ℕ, String, true, false, Option, none, some, ◌≡◌, refl, ◌∙◌, inl, inr, ◌⊎◌, if◌then◌else◌,
  Bool-cases,
}
use cpa_stg.ErrorMapping.Delay.{Bytes}
use cpa_stg.Json.{Value, index, get}
use cpa_stg.Plugin.{
  Incoming, wrote, oversized, raw_of, intercepts, attempt, conclude, plugin_call, over_limit,
  after_panic, limit_error, internal_error,
}
use cpa_stg.Plugin.Named.{served, plugin_call-served}
use cpa_stg.Protocol.Envelope.{Printer, terminate}
use cpa_stg.Protocol.Handle.{Answer}
use cpa_stg.Protocol.Verdict.{succeeded, passes, succeeded-terminate, passes-terminate}

-- An interception ends its request by a success, and any other call is an error.
abbrev pub Refused : String → Value → Type 0
Refused method v =
    (intercepts method ≡ true) × (succeeded v ≡ true) × (passes v ≡ false)
    ⊎ (intercepts method ≡ false) × (succeeded v ≡ false)

chosen-Refused :
    (p : Printer) (method : String) (n : ℕ) (s t : String) (other : Value)
    → succeeded other ≡ false
    → Refused method (if intercepts method then terminate p n s t else other)
chosen-Refused p method n s t other h = elim (Bool-cases (intercepts method)) [
  | inl k ↦ rw k (inl (refl, succeeded-terminate p n s t, passes-terminate p n s t))
  | inr k ↦ rw k (inr (refl, h))
]

limit_error-succeeded : succeeded limit_error ≡ false
unfolding succeeded index get limit_error
limit_error-succeeded = refl

internal_error-succeeded : succeeded internal_error ≡ false
unfolding succeeded index get internal_error
internal_error-succeeded = refl

module _ (p : Printer) {S : Type 0} (serve : S → String → Bytes → Option (S × Answer))
    (halt : S → S) (left_by_panic : S) where
  -- What is not served, and the state that the call leaves.
  pub data Unserved (s : S) (x : Incoming) (method : String) : S → Type 0 where
    too_large : oversized x ≡ true → Unserved s x method s
    panics :
        oversized x ≡ false
        → serve s method (raw_of x) ≡ none
        → Unserved s x method (halt left_by_panic)

  Unserved-served :
      (s s' : S) (x : Incoming) (method : String)
      → Unserved s x method s'
      → (v : Value) × (served p serve halt left_by_panic s x method ≡ wrote s' v) × Refused method v
  unfolding served attempt conclude
  Unserved-served s s' x method (too_large h) = (
    over_limit p serve halt left_by_panic method,
    rw h refl,
    chosen-Refused p method 413 _ _ limit_error limit_error-succeeded,
  )
  Unserved-served s s' x method (panics h k) = (
    after_panic p serve halt left_by_panic method,
    rw (h, k) refl,
    chosen-Refused p method 503 _ _ internal_error internal_error-succeeded,
  )

  -- A call whose payload is over the limit, or whose handler panics, is answered: an interception
  -- by a success that ends its request, any other call by an error. After a panic the state is
  -- the one that the panic left, halted; else it is as it was. The host has passed a place for the
  -- answer, and a method in UTF-8.
  pub plugin_call-Refused :
      (s s' : S) (x : Incoming) (method : String)
      → x.response_null ≡ false
      → x.method ≡ some (some method)
      → Unserved s x method s'
      → (v : Value) × (plugin_call p serve halt left_by_panic s x ≡ wrote s' v) × Refused method v
  plugin_call-Refused s s' x method present named unserved =
      let (v, same, refused) = Unserved-served s s' x method unserved in
      (v, plugin_call-served p serve halt left_by_panic s x method present named ∙ same, refused)
