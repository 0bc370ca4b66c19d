-- ===== src/Plugin/Named.antt =====
-- src/lib.rs: the calls whose method can be read.
use cpa_stg.Base.{String, false, Option, none, some, ◌≡◌, ap, ◌∙◌, if◌then◌else◌}
use cpa_stg.ErrorMapping.Delay.{Bytes}
use cpa_stg.Plugin.{Incoming, Called, failed, attempt, conclude, plugin_call}
use cpa_stg.Protocol.Envelope.{Printer}
use cpa_stg.Protocol.Handle.{Answer}

module _ (p : Printer) {S : Type 0} (serve : S → String → Bytes → Option (S × Answer))
    (halt : S → S) (left_by_panic : S) where
  unfoldable pub served : S → Incoming → String → Called S
  served s x method =
      conclude p serve halt left_by_panic method (attempt p serve halt left_by_panic s method x)

  by_method : S → Incoming → Option (Option String) → Called S
  by_method s x name = elim name [
    | none ↦ failed s
    | some read ↦ elim read [ none ↦ failed s | some method ↦ served s x method ]
  ]

  pub plugin_call-served :
      (s : S) (x : Incoming) (method : String)
      → x.response_null ≡ false
      → x.method ≡ some (some method)
      → plugin_call p serve halt left_by_panic s x ≡ served s x method
  unfolding plugin_call by_method served
  plugin_call-served s x method present named =
      ap (λ b. if b then failed s else by_method s x x.method) present ∙ ap (by_method s x) named
