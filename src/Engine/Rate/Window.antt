-- ===== src/Engine/Rate/Window.antt =====
-- The time of a sequence of calls on the engine of src/engine.rs and the requests that it admits
-- under one credential, in exact arithmetic.
use mathlib.Core.Path.{subst}
use cpa_stg.Base.Map.{get}
use cpa_stg.Base.{ℕ, ◌+◌, ◌-◌, ◌≤◌, false, Option, none, some, List, [], ◌∷◌, ◌≡◌, arith, string_eq}
use cpa_stg.Config.{Config}
use cpa_stg.Engine.Admission.{poll, start_attempt}
use cpa_stg.Engine.Buckets.{Bucket}
use cpa_stg.Engine.Consistent.{Inv}
use cpa_stg.Engine.Rate.{burst, earnings, credit-later}
use cpa_stg.Engine.Rate.Attempt.{start_attempt-After}
use cpa_stg.Engine.Rate.Lifecycle.{begin-Room, begin_child-Room, complete-Room, stop-Room}
use cpa_stg.Engine.Rate.Moves.{IsLimited, in_force, CoversAt, Room, grant}
use cpa_stg.Engine.Rate.Poll.{poll_grant, After, poll-After}
use cpa_stg.Engine.System.{
  Call, begins, begins_child, attempts, polls, completes, reconfigures, stops, left, step,
}
use cpa_stg.Engine.System.Kept.{changes_config, moved}
use cpa_stg.Engine.Types.{ScopeKey, credential, scope_eq, Decision}
use cpa_stg.Engine.{Engine}
use cpa_stg.Float.Fixed.{fixed}

-- The time after a call, from the time before it.
abbrev pub clock : ℕ → Call → ℕ
clock t (attempts id name now) = now
clock t (polls id now) = now
clock t (reconfigures c now) = now
clock t _ = t

abbrev pub finish : ℕ → List Call → ℕ
finish t [] = t
finish t (call ∷ cs) = finish (clock t call) cs

-- The times of the calls do not decrease, from `t` on.
abbrev pub InOrder : ℕ → List Call → Type 0
InOrder t [] = Unit
InOrder t (call ∷ cs) = (t ≤ clock t call) × InOrder (clock t call) cs

abbrev pub of_decision : (Decision → ℕ) → Option (Engine ℕ × Decision) → ℕ
of_decision count none = 0
of_decision count (some (e, d)) = count d

-- The requests that a call lets through under the policy of `k`: an attempt on it, or the poll of
-- a request that waits for it, which returns `admit`.
unfoldable pub call_admissions : ScopeKey → Engine ℕ → Call → ℕ
call_admissions k e (attempts id name now) =
    of_decision (grant k (credential name)) (start_attempt e id name now)
call_admissions k e (polls id now) = of_decision (poll_grant k (get id e.requests)) (poll e id now)
call_admissions k e _ = 0

unfoldable pub admissions : ScopeKey → Engine ℕ → List Call → ℕ
unfolding step
admissions k e [] = 0
admissions k e (call ∷ cs) =
    call_admissions k e call + elim (step e call) [ none ↦ 0 | some e' ↦ admissions k e' cs ]

pub le_finish : (t : ℕ) (cs : List Call) → InOrder t cs → t ≤ finish t cs
le_finish t [] o = omega arith
le_finish t (call ∷ cs) o = omega (arith, o.0, le_finish (clock t call) cs o.1)

module _ (c : Config) (k : ScopeKey) (l : IsLimited c k) where
  abbrev pub earned : ℕ → ℕ
  earned time = earnings (in_force c k) time

  abbrev pub full : ℕ
  full = burst (in_force c k)

  covers_later :
      (t now m n : ℕ) (o : Option (Bucket ℕ))
      → t ≤ now
      → CoversAt c k l t m n o
      → CoversAt c k l now (m + earned (now - t)) n o
  covers_later t now m n none later covers = omega arith
  covers_later t now m n (some b) later (same, past, covers) =
      (same, omega arith, omega (arith, credit-later (in_force c k) b t now past later))

  pub later-Room :
      (t now m n : ℕ) (e : Engine ℕ)
      → t ≤ now
      → Room c k l t m n e
      → Room c k l now (m + earned (now - t)) n e
  later-Room t now m n e later r = record {
    same_config = r.same_config;
    covers = covers_later t now m n (get k e.buckets) later r.covers;
  }

  left-Room :
      (now m n : ℕ) (count : Decision → ℕ) (o : Option (Engine ℕ × Decision)) {e' : Engine ℕ}
      → left o ≡ some e'
      → After c k l now m n count o
      → Room c k l now m (of_decision count o + n) e'
  left-Room now m n count none h a = absurd a
  left-Room now m n count (some (e, d)) h a = moved (Room c k l now m (count d + n)) h a

  untaken : (now m n : ℕ) (e : Engine ℕ) → Room c k l now m n e → Room c k l now m (0 + n) e
  untaken now m n e r =
      let same : n ≡ 0 + n = omega arith in subst (λ i. Room c k l now m i e) same r

  pub call-Room :
      (t m n : ℕ) (e : Engine ℕ) (call : Call) {e' : Engine ℕ}
      → Inv e
      → Room c k l (clock t call) m n e
      → changes_config call ≡ false
      → step e call ≡ some e'
      → Room c k l (clock t call) m (call_admissions k e call + n) e'
  unfolding step call_admissions
  call-Room t m n e (begins id) v r s h =
      moved (Room c k l t m (0 + n)) h (begin-Room c k l t m (0 + n) e id (untaken t m n e r))
  call-Room t m n e (begins_child id parent) v r s h =
      moved (Room c k l t m (0 + n)) h
        (begin_child-Room c k l t m (0 + n) e id parent (untaken t m n e r))
  call-Room t m n e (attempts id name now) v r s h =
      left-Room now m n _ _ h (start_attempt-After c k l now m n e id name v r)
  call-Room t m n e (polls id now) v r s h =
      left-Room now m n _ _ h (poll-After c k l now m n e id v r)
  call-Room t m n e (completes id) v r s h =
      complete-Room c k l t m (0 + n) e id (untaken t m n e r) h
  call-Room t m n e (reconfigures c' now) v r s h = cc
  call-Room t m n e stops v r s h =
      moved (Room c k l t m (0 + n)) h (stop-Room c k l t m (0 + n) e (untaken t m n e r))
