-- ===== src/Engine/System/Kept.antt =====
-- What single buckets keep, over sequences of calls with no change of configuration.
use mathlib.Core.Path.{subst}
use cpa_stg.Base.Map.{get}
use cpa_stg.Base.Map.Totals.{total}
use cpa_stg.Base.{
  ℕ, ◌≤◌, Bool, true, false, Option, none, some, List, [], ◌∷◌, ◌≡◌, ◌≢◌, refl, arith, string_eq,
  ◌∙◌, sym,
}
use cpa_stg.Base.Partial.{>>=-eq-some}
use cpa_stg.Config
use cpa_stg.Config.{Config}
use cpa_stg.Engine.Admission.{Returned}
use cpa_stg.Engine.Buckets.{Bucket}
use cpa_stg.Engine.Consistent.Lifecycle.{new-Inv}
use cpa_stg.Engine.Consistent.{Inv, Returns, active_in, active_of}
use cpa_stg.Engine.Kept.{Closed, Good, poll-Good}
use cpa_stg.Engine.Kept.Calls.{
  begin-Good, begin_child-Good, start_attempt-Good, complete-Good, stop-Good,
}
use cpa_stg.Engine.Limits.{Within, Within-Closed}
use cpa_stg.Engine.System.{
  Call, begins, begins_child, attempts, polls, completes, reconfigures, stops, left, step, run,
}
use cpa_stg.Engine.System.Consistent.{step-Consistent, run-new-Consistent}
use cpa_stg.Engine.Tokens.{RatesFit, InBurst, InBurst-Closed}
use cpa_stg.Engine.Types.{ScopeKey, scope_eq, scope_name}
use cpa_stg.Engine.{Engine, new}
use cpa_stg.Float.Laws.{F64Laws}
use cpa_stg.Float.{F64}

abbrev pub changes_config : Call → Bool
changes_config (reconfigures c now) = true
changes_config _ = false

-- No call of the sequence changes the configuration.
abbrev pub IsSteady : List Call → Type 0
IsSteady [] = Unit
IsSteady (c ∷ cs) = (changes_config c ≡ false) × IsSteady cs

abbrev pub limit : Config → ScopeKey → ℕ
limit c k = (Config.policy c (scope_name k)).max_concurrency

module _ {T : Type 0} where
  pub moved : (P : Engine T → Type 0) {e e' : Engine T} → some e ≡ some e' → P e → P e'
  moved P {e} {e'} h p = let same : e ≡ e' = cc in subst P same p

  left-moved :
      (P : Engine T → Type 0) (r : Returned T) {e' : Engine T}
      → left r ≡ some e'
      → Returns P r
      → P e'
  left-moved P none h p = absurd p
  left-moved P (some (e, d)) h p = moved P h p

module _ {T : Type 0} ⦃f : F64 T⦄ (c : Config) (P : ScopeKey → Bucket T → Type 0)
    (closed : Closed c P) where
  abbrev Ok : Engine T → Type 0
  Ok = Good c P closed

  step-Good :
      (e : Engine T) (call : Call) {e' : Engine T}
      → Inv e
      → Ok e
      → changes_config call ≡ false
      → step e call ≡ some e'
      → Ok e'
  unfolding step
  step-Good e (begins id) v g s h = moved Ok h (begin-Good c P closed e id g)
  step-Good e (begins_child id parent) v g s h =
      moved Ok h (begin_child-Good c P closed e id parent g)
  step-Good e (attempts id name now) v g s h =
      left-moved Ok _ h (start_attempt-Good c P closed e id name now v g)
  step-Good e (polls id now) v g s h = left-moved Ok _ h (poll-Good c P closed e id now v g)
  step-Good e (completes id) v g s h = complete-Good c P closed e id v g h
  step-Good e (reconfigures c' now) v g s h = cc
  step-Good e stops v g s h = moved Ok h (stop-Good c P closed e g)

  run-Good :
      (e : Engine T) (cs : List Call) {e' : Engine T}
      → Inv e
      → Ok e
      → IsSteady cs
      → run e cs ≡ some e'
      → Ok e'
  unfolding run
  run-Good e [] v g s h = moved Ok h g
  run-Good e (call ∷ cs) v g s h =
      let (e1, first, rest) = >>=-eq-some (step e call) (λ e1. run e1 cs) h in
      let (e2, same, v2) = step-Consistent e call v in
      run-Good e1 cs (moved Inv (sym same ∙ first) v2) (step-Good e call v g s.0 first) s.1 rest

  new-Good : Ok (new c)
  unfolding new get
  new-Good = record { same_config = refl; every = λ k b h. cc }

  run-new-Good : (cs : List Call) {e : Engine T} → IsSteady cs → run (new c) cs ≡ some e → Ok e
  run-new-Good cs s h = run-Good (new c) cs (new-Inv c) new-Good s h

-- What holds of the bucket of a credential, if it has one.
abbrev pub AtBucket : {T : Type 0} → (Bucket T → Type 0) → Option (Bucket T) → Type 0
AtBucket P none = Unit
AtBucket P (some b) = P b

module _ {T : Type 0} ⦃f : F64 T⦄ where
  at_some :
      (P : Bucket T → Type 0) (o : Option (Bucket T))
      → ((b : Bucket T) → o ≡ some b → P b)
      → AtBucket P o
  at_some P none h = tt
  at_some P (some b) h = h b refl

  at_bucket :
      {c : Config} {P : ScopeKey → Bucket T → Type 0} {closed : Closed c P} {e : Engine T}
      → Good c P closed e
      → (k : ScopeKey) → AtBucket (P k) (get k e.buckets)
  at_bucket {P = P} {e = e} good k = at_some (P k) (get k e.buckets) (good.every k)

  active_le_limit :
      (c : Config) (k : ScopeKey) (o : Option (Bucket T))
      → ((b : Bucket T) → o ≡ some b → Within c k b)
      → limit c k ≢ 0
      → active_of o ≤ limit c k
  active_le_limit c k none w limited = omega arith
  active_le_limit c k (some b) w limited = ground (arith, (w b refl).in_force, (w b refl).active_le)

  -- Any calls on a new engine that leave its configuration as it is all return, and then the
  -- requests in the active phase on a credential are no more than the `max_concurrency` of its
  -- policy, where that is not 0.
  pub run-active-le :
      (c : Config) (cs : List Call) (k : ScopeKey)
      → IsSteady cs
      → limit c k ≢ 0
      → (e : Engine T) × (run (new c) cs ≡ some e) × (total (active_in k) e.requests ≤ limit c k)
  run-active-le c cs k s limited =
      let (e, h, v) = run-new-Consistent c cs in
      let good = run-new-Good c (Within c) (Within-Closed c) cs s h in
      (e, h, omega (arith, v.active_count k, active_le_limit c k (get k _) (good.every k) limited))

  -- After such calls, if a credential has a bucket, no more requests wait in its queue than the
  -- `max_queue` of the credential's policy, the bucket's policy is the one in force for the
  -- credential, and that is switched on.
  pub run-Within :
      (c : Config) (cs : List Call) (k : ScopeKey)
      → IsSteady cs
      → (e : Engine T) × (run (new c) cs ≡ some e) × AtBucket (Within c k) (get k e.buckets)
  run-Within c cs k s =
      let (e, h, v) = run-new-Consistent c cs in
      (e, h, at_bucket (run-new-Good c (Within c) (Within-Closed c) cs s h) k)

  -- After such calls, if a credential has a bucket, its tokens lie between 0 and its burst, where
  -- the rates of the configuration fit in 32 bits and the arithmetic has the laws of `F64Laws`.
  pub run-tokens-InBurst :
      (laws : F64Laws f) (c : Config) (cs : List Call) (k : ScopeKey)
      → RatesFit c
      → IsSteady cs
      → (e : Engine T) × (run (new c) cs ≡ some e) × AtBucket (InBurst k) (get k e.buckets)
  run-tokens-InBurst laws c cs k fit s =
      let (e, h, v) = run-new-Consistent c cs in
      (e, h, at_bucket (run-new-Good c InBurst (InBurst-Closed laws c fit) cs s h) k)
