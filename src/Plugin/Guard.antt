-- ===== src/Plugin/Guard.antt =====
-- src/lib.rs: the calls of the host that intercept a request.
use mathlib.Core.Path.{subst}
use cpa_stg.Base.Text.{starts_text, same_char}
use cpa_stg.Base.{
  true≢false, ℕ, String, true, false, Option, none, some, List, ◌≡◌, refl, sym, ◌∙◌, if_cases,
  string_eq,
}
use cpa_stg.Engine.Consistent.{Inv}
use cpa_stg.Engine.{Engine, stop}
use cpa_stg.ErrorMapping.Delay.{Bytes}
use cpa_stg.Float.{F64}
use cpa_stg.Plugin.{
  Incoming, Called, failed, wrote, waits, oversized, raw_of, intercepts, attempt, conclude,
  plugin_call, over_limit,
}
use cpa_stg.Plugin.Named.{served, plugin_call-served}
use cpa_stg.Protocol.Handle.{Answer, answered, blocked, method_of, dispatch, handle}
use cpa_stg.Protocol.Cleared.{AnswerVerdict, Cleared, intercept_after-Verdict}
use cpa_stg.Protocol.Verdict.{
  Verdict, Verdict-map, Verdict-terminate, Enrolled, intercept_before-Verdict,
}
use cpa_stg.Protocol.{Codec}
use cpa_stg.Runtime.{Round}

-- The methods that intercept a request.
pub data Interception : Type 0 where
  before_choice after_choice : Interception

abbrev pub name_of : Interception → String
name_of before_choice = "request.intercept_before"
name_of after_choice = "request.intercept_after"

name_of-intercepts : (i : Interception) → intercepts (name_of i) ≡ true
unfolding starts_text same_char
name_of-intercepts before_choice = refl
name_of-intercepts after_choice = refl

module _ (c : Codec) {T : Type 0} ⦃f : F64 T⦄ (e : Engine T) (now : ℕ) (rounds : List Round)
    (x : Incoming) (left_by_panic : Engine T) where
  -- The admission plugin serves the call.
  abbrev pub serve : Engine T → String → Bytes → Option (Engine T × Answer)
  serve e' method raw = handle c e' method raw now rounds

  -- The request of the payload may go on, by the engine that the call leaves.
  abbrev pub MayGoOn : Interception → Engine T → Type 0
  MayGoOn before_choice e' = Enrolled c e (raw_of x) e'
  MayGoOn after_choice e' = Cleared c e (raw_of x) now rounds e'

  -- The call waits, or it has written a success, which lets the request go on exactly if the
  -- payload is not oversized and the request may go on.
  abbrev pub Guarded : Interception → Called (Engine T) → Type 0
  Guarded i (failed e') = ⊥
  Guarded i (wrote e' v) = Verdict ((oversized x ≡ false) × MayGoOn i e') v
  Guarded i (waits e' deadline) = oversized x ≡ false

  serve-Verdict :
      (i : Interception) → Inv e → AnswerVerdict (MayGoOn i) (serve e (name_of i) (raw_of x))
  unfolding handle method_of dispatch
  serve-Verdict before_choice v = intercept_before-Verdict c e (raw_of x)
  serve-Verdict after_choice v = intercept_after-Verdict c e (raw_of x) now rounds v

  abbrev concluded : String → Option (Engine T × Answer) → Called (Engine T)
  concluded method o = conclude c.printer serve stop left_by_panic method o

  conclude-Guarded :
      (i : Interception) (method : String) (o : Option (Engine T × Answer))
      → oversized x ≡ false
      → AnswerVerdict (MayGoOn i) o
      → Guarded i (concluded method o)
  unfolding conclude
  conclude-Guarded i method none small v = absurd v
  conclude-Guarded i method (some (e', blocked deadline)) small v = small
  conclude-Guarded i method (some (e', answered value)) small v =
      Verdict-map (MayGoOn i e') ((oversized x ≡ false) × MayGoOn i e') value
        ((λ may. (small, may)), (λ both. both.1)) v

  over_limit-Guarded :
      (i : Interception)
      → oversized x ≡ true
      → Guarded i (
          concluded
            (name_of i)
            (some (e, answered (over_limit c.printer serve stop left_by_panic (name_of i)))))
  unfolding conclude
  over_limit-Guarded i large =
      rw (name_of-intercepts i)
        (Verdict-terminate _ c.printer 413 _ _ (λ h. true≢false (sym large ∙ h.0)))

  attempted : Interception → Called (Engine T)
  attempted i = served c.printer serve stop left_by_panic e x (name_of i)

  attempted-Guarded : (i : Interception) → Inv e → Guarded i (attempted i)
  unfolding attempted served attempt
  attempted-Guarded i v =
      if_cases (λ o. Guarded i (concluded (name_of i) o)) (oversized x) _ _
        (λ large. over_limit-Guarded i large)
        (λ small. conclude-Guarded i (name_of i) _ small (serve-Verdict i v))

  -- A call that intercepts a request, in a consistent engine: whatever the payload, an oversized
  -- one included, and whatever other threads do while it waits, the host gets a success when the
  -- call returns. The host goes on with the request exactly if the payload is within the limit and,
  -- before the choice of a credential, the engine has taken the request on, or, after the choice, no
  -- credential is selected or the engine has admitted the request to the selected one. The host has
  -- passed a place for the answer.
  pub plugin_call-Guarded :
      (i : Interception)
      → Inv e
      → x.response_null ≡ false
      → x.method ≡ some (some (name_of i))
      → Guarded i (plugin_call c.printer serve stop left_by_panic e x)
  plugin_call-Guarded i v present named =
      subst (Guarded i)
        (sym (plugin_call-served c.printer serve stop left_by_panic e x (name_of i) present named))
        (unfold attempted in attempted-Guarded i v)
