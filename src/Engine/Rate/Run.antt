-- ===== src/Engine/Rate/Run.antt =====
-- Sequences of calls on the engine of src/engine.rs and the rate of one credential, in exact
-- arithmetic.
use mathlib.Core.Path.{subst}
use cpa_stg.Base.Map.{get}
use cpa_stg.Base.Partial.{>>=-eq-some}
use cpa_stg.Base.{
  ℕ, ◌+◌, ◌-◌, ◌*◌, ◌≤◌, Option, none, some, List, [], ◌∷◌, ◌≡◌, refl, sym, ap, ◌∙◌, arith,
  string_eq,
}
use cpa_stg.Config.{Config}
use cpa_stg.Engine.Buckets.{Bucket}
use cpa_stg.Engine.Consistent.Lifecycle.{new-Inv}
use cpa_stg.Engine.Consistent.{Inv}
use cpa_stg.Engine.Rate.{credit, earnings-add}
use cpa_stg.Engine.Rate.Moves.{IsLimited, in_force, CoversAt, Room}
use cpa_stg.Engine.System.{Call, step, run}
use cpa_stg.Engine.System.Consistent.{step-Consistent, run-Consistent, run-new-Consistent}
use cpa_stg.Engine.System.Kept.{IsSteady, moved}
use cpa_stg.Engine.Types.{ScopeKey, scope_eq}
use cpa_stg.Engine.{Engine, new}
use cpa_stg.Float.Fixed.{fixed, parts}
use cpa_stg.Engine.Rate.Window.{
  clock, finish, InOrder, call_admissions, admissions, le_finish, earned, full, later-Room,
  call-Room,
}

module _ (c : Config) (k : ScopeKey) (l : IsLimited c k) where
  resized :
      {now m m' n n' : ℕ} {e : Engine ℕ}
      → m ≡ m'
      → n ≡ n'
      → Room c k l now m n e
      → Room c k l now m' n' e
  resized {now = now} {m} {m'} {n} {n'} {e} more counted r =
      subst (λ i. Room c k l now i n' e) more (subst (λ i. Room c k l now m i e) counted r)

  earned_none : (t : ℕ) → earned c k l (t - t) ≡ 0
  earned_none t =
      let none_passed : t - t ≡ 0 = omega arith in ap (earned c k l) none_passed ∙ omega arith

  earned_split :
      (t now end : ℕ)
      → t ≤ now
      → now ≤ end
      → earned c k l (end - t) ≡ earned c k l (now - t) + earned c k l (end - now)
  earned_split t now end h h' =
      let time : end - t ≡ (now - t) + (end - now) = omega arith in
      ap (earned c k l) time ∙ earnings-add (in_force c k) (now - t) (end - now)

  run-Room :
      (t m n : ℕ) (e : Engine ℕ) (cs : List Call) {e' : Engine ℕ}
      → Inv e
      → Room c k l t m n e
      → IsSteady cs
      → InOrder t cs
      → run e cs ≡ some e'
      → Room c k l (finish t cs) (m + earned c k l (finish t cs - t)) (admissions k e cs + n) e'
  unfolding run admissions
  run-Room t m n e [] v r s o h =
      let earned_nothing = earned_none t in
      moved (Room c k l t (m + earned c k l (t - t)) (0 + n)) h
        (resized (omega (arith, earned_nothing)) (omega arith) r)
  run-Room t m n e (call ∷ cs) {e'} v r s o h =
      let now = clock t call in
      let (e1, first, rest) = >>=-eq-some (step e call) (λ e1. run e1 cs) h in
      let (e2, same, v2) = step-Consistent e call v in
      let v1 = moved Inv (sym same ∙ first) v2 in
      let r1 =
        call-Room c k l t (m + earned c k l (now - t)) n e call v
          (later-Room c k l t now m n e o.0 r) s.0 first in
      let done =
        run-Room now (m + earned c k l (now - t)) (call_admissions k e call + n) e1 cs v1 r1 s.1 o.1
          rest in
      let spent : m + earned c k l (finish now cs - t)
          ≡ m + earned c k l (now - t) + earned c k l (finish now cs - now) =
        let parts_of = earned_split t now (finish now cs) o.0 (le_finish now cs o.1) in
        omega (arith, parts_of) in
      let taken : admissions k e (call ∷ cs) + n
          ≡ admissions k e1 cs + (call_admissions k e call + n) =
        rw first (omega arith) in
      resized (sym spent) (sym taken) done

  new-Room : Room c k l 0 (full c k l) 0 (new c)
  unfolding new get
  new-Room = record { same_config = refl; covers = omega arith }

  any-CoversAt :
      (t m n now : ℕ) (o : Option (Bucket ℕ))
      → t ≤ now
      → CoversAt c k l t m n o
      → CoversAt c k l now (full c k l) 0 o
  any-CoversAt t m n now none later covers = omega arith
  any-CoversAt t m n now (some b) later (same, past, covers) =
      (same, omega arith, unfold credit in omega arith)

  any-Room :
      (t m n now : ℕ) (e : Engine ℕ)
      → t ≤ now
      → Room c k l t m n e
      → Room c k l now (full c k l) 0 e
  any-Room t m n now e later r = record {
    same_config = r.same_config;
    covers = any-CoversAt t m n now (get k e.buckets) later r.covers;
  }

  spent-le : (now m n : ℕ) (o : Option (Bucket ℕ)) → CoversAt c k l now m n o → n * parts ≤ m
  spent-le now m n none covers = omega arith
  spent-le now m n (some b) (same, past, covers) = omega arith

-- Take any calls on a new engine, and then a window of calls, none of which changes the
-- configuration, at times that do not decrease, in nanoseconds; the window is not before `from`.
-- Take a credential whose policy is switched on and limits the rate. In exact arithmetic all
-- calls return, and the admissions of the credential within the window are no more than the
-- `burst` of the policy and the `requests_per_minute` for the time from `from` to the last call.
pub run-admissions-le :
    (c : Config) (k : ScopeKey)
    → IsLimited c k
    → (before : List Call) → IsSteady before
    → InOrder 0 before
    → (from : ℕ) (window : List Call) → finish 0 before ≤ from
    → IsSteady window
    → InOrder from window
    → (e e' : Engine ℕ) × (run (new c) before ≡ some e)
      × (run e window ≡ some e')
      × (admissions k e window * 60_000_000_000
          ≤ (in_force c k).burst * 60_000_000_000
            + (finish from window - from) * (in_force c k).requests_per_minute)
run-admissions-le c k l before s o from window later s' o' =
    let (e, h, v) = run-new-Consistent c before in
    let r = run-Room c k l 0 _ 0 (new c) before (new-Inv c) (new-Room c k l) s o h in
    let (e', h', v') = run-Consistent e window v in
    let r' = run-Room c k l from _ 0 e window v (any-Room c k l _ _ _ from e later r) s' o' h' in
    let within = spent-le c k l (finish from window) _ _ (get k e'.buckets) r'.covers in
    (e, e', h, h', omega (arith, within))
