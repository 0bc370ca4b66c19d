-- ===== src/Engine/System.antt =====
-- src/engine.rs under a sequence of calls: what Runtime's mutex lets happen, one call at a time.
pub mod Consistent
pub mod Kept
use cpa_stg.Base.Partial.{◌>>=◌}
use cpa_stg.Base.{ℕ, String, Option, none, some, List, [], ◌∷◌}
use cpa_stg.Config.{Config}
use cpa_stg.Engine.Admission.{poll, start_attempt, reconfigure}
use cpa_stg.Engine.{Engine, begin, begin_child, complete, stop}
use cpa_stg.Float.{F64}

pub data Call : Type 0 where
  begins : String → Call
  begins_child : String → String → Call
  attempts : String → String → ℕ → Call
  polls : String → ℕ → Call
  completes : String → Call
  reconfigures : Config → ℕ → Call
  stops : Call

-- The engine that a call returning a decision leaves.
abbrev pub left {ℓ} : {T : Type 0} {R : Type ℓ} → Option (Engine T × R) → Option (Engine T)
left none = none
left (some (e, r)) = some e

module _ {T : Type 0} ⦃f : F64 T⦄ where
  unfoldable pub step : Engine T → Call → Option (Engine T)
  step e (begins id) = some (begin e id).0
  step e (begins_child id parent) = some (begin_child e id parent).0
  step e (attempts id name now) = left (start_attempt e id name now)
  step e (polls id now) = left (poll e id now)
  step e (completes id) = complete e id
  step e (reconfigures c now) = some (reconfigure e c now).0
  step e stops = some (stop e)

  unfoldable pub run : Engine T → List Call → Option (Engine T)
  unfolding step
  run e [] = some e
  run e (c ∷ cs) = do e' ← step e c; run e' cs
