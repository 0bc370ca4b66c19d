-- ===== src/Runtime/Notify/Silent.antt =====
-- src/runtime.rs: calls that notify nobody, and a request that waits, in exact
-- arithmetic.
use mathlib.Core.Path.{subst}
use cpa_stg.Base.Map.{get}
use cpa_stg.Base.Partial.{>>=-eq-some}
use cpa_stg.Base.Result.{Result-cases}
use cpa_stg.Base.{
  ℕ, ◌≤◌, ◌<◌, String, Bool, true, false, not, ◌&&◌, Option, none, some, List, [], ◌∷◌, ◌≡◌, refl,
  sym, ap, ◌∙◌, inl, inr, string_eq, leb, arith, if_cases, true≢false, &&_left, &&_right,
}
use cpa_stg.Config.{Config}
use cpa_stg.Engine.Admission.{poll, poll_queued, poll_bucket, reconfigure}
use cpa_stg.Engine.Buckets.{Bucket, refill, available}
use cpa_stg.Engine.Rate.Window.{clock, finish, InOrder}
use cpa_stg.Engine.Reconfigure.{reconfigure_refused}
use cpa_stg.Engine.System.{
  Call, begins, begins_child, attempts, polls, completes, reconfigures, stops, left, step, run,
}
use cpa_stg.Engine.System.Kept.{moved}
use cpa_stg.Engine.Types.{ScopeKey, scope_eq, Decision, admit, wait_until, reject, queued}
use cpa_stg.Engine.{Engine, is_front}
use cpa_stg.Float.Fixed.{fixed}
use cpa_stg.Runtime.Notify.{answers, accepted, notifies, silent, Slept, SleptIf, poll-Slept}
use cpa_stg.Runtime.Notify.Asleep.{Asleep, begin-Asleep, begin_child-Asleep, refilled}

module _ (id : String) (w : ℕ) where
  poll-Asleep :
      (s t w' : ℕ) (other : String) (e e' : Engine ℕ)
      → Slept other t e e' w'
      → s ≤ t
      → Asleep id w s e
      → Asleep id w t e'
  poll-Asleep s t w' other e e' z later a =
      subst (Asleep id w t) (sym z.moved) (refilled id w s t z.key z.bucket e z.found later a)

  rests :
      (t : ℕ) (other : String) (e : Engine ℕ) (o : Option (Engine ℕ × Decision)) {e' : Engine ℕ}
      → answers o ≡ false
      → left o ≡ some e'
      → SleptIf other t e o
      → (w' : ℕ) × Slept other t e e' w'
  rests t other e none q h z = absurd (ground (arith, q))
  rests t other e (some (x, admit)) q h z = absurd (ground (arith, q))
  rests t other e (some (x, reject reason)) q h z = absurd (ground (arith, q))
  rests t other e (some (x, wait_until w')) {e'} q h z =
      let same : x ≡ e' = cc in (w', subst (λ y. Slept other t e y w') same z)

  pub onward : (s t : ℕ) (e : Engine ℕ) → s ≤ t → Asleep id w s e → Asleep id w t e
  onward s t e later a = record {
    runs = a.runs;
    key = a.key;
    deadline = a.deadline;
    waits = a.waits;
    by_deadline = a.by_deadline;
    bucket = a.bucket;
    found = a.found;
    enabled = a.enabled;
    past = omega (arith, a.past);
    not_yet = λ u from early. a.not_yet u (omega (arith, from, later)) early;
  }

  reconfigure-Asleep :
      (s t : ℕ) (e : Engine ℕ) (c : Config)
      → accepted (reconfigure e c t).1 ≡ false
      → s ≤ t
      → Asleep id w s e
      → Asleep id w t (reconfigure e c t).0
  reconfigure-Asleep s t e c q later a = elim (Result-cases (reconfigure e c t).1) [
    | inl (u, h) ↦ absurd (true≢false (sym (ap accepted h) ∙ q))
    | inr (message, h) ↦
        subst (Asleep id w t) (sym (reconfigure_refused e c t message h)) (onward s t e later a)
  ]

  step-Asleep :
      (s : ℕ) (e : Engine ℕ) (call : Call) {e' : Engine ℕ}
      → notifies e call ≡ false
      → s ≤ clock s call
      → step e call ≡ some e'
      → Asleep id w s e
      → Asleep id w (clock s call) e'
  unfolding step notifies
  step-Asleep s e (begins other) q later h a =
      moved (Asleep id w s) h (begin-Asleep id w s e other a)
  step-Asleep s e (begins_child other parent) q later h a =
      moved (Asleep id w s) h (begin_child-Asleep id w s e other parent a)
  step-Asleep s e (attempts other name t) q later h a = cc
  step-Asleep s e (polls other t) q later h a =
      let (w', z) = rests t other e (poll e other t) q h (poll-Slept other t e) in
      poll-Asleep s t w' other e _ z later a
  step-Asleep s e (completes other) q later h a = cc
  step-Asleep s e (reconfigures c t) q later h a =
      moved (Asleep id w t) h (reconfigure-Asleep s t e c q later a)
  step-Asleep s e stops q later h a = cc

  abbrev silent_after : Option (Engine ℕ) → List Call → Bool
  silent_after o cs = elim o [ none ↦ true | some e' ↦ silent e' cs ]

  negated : (b : Bool) → not b ≡ true → b ≡ false
  negated b h = ground (arith, h)

  pub run-Asleep :
      (s : ℕ) (e : Engine ℕ) (cs : List Call) {e' : Engine ℕ}
      → silent e cs ≡ true
      → InOrder s cs
      → run e cs ≡ some e'
      → Asleep id w s e
      → Asleep id w (finish s cs) e'
  unfolding run silent
  run-Asleep s e [] q o h a = moved (Asleep id w s) h a
  run-Asleep s e (call ∷ cs) q o h a =
      let (e1, first, rest) = >>=-eq-some (step e call) (λ e1. run e1 cs) h in
      let quiet : notifies e call ≡ false =
        negated (notifies e call)
          (&&_left (not (notifies e call)) (silent_after (step e call) cs) q) in
      let follows = &&_right (not (notifies e call)) (silent_after (step e call) cs) q in
      let on : silent e1 cs ≡ true = subst (λ o. silent_after o cs ≡ true) first follows in
      run-Asleep (clock s call) e1 cs on o.1 rest (step-Asleep s e call quiet o.0 first a)

  abbrev Waits : Engine ℕ × Decision → Type 0
  Waits x = (r : Engine ℕ × ℕ) × (x ≡ (r.0, wait_until r.1))

  poll_bucket-Waits :
      (t : ℕ) (e : Engine ℕ) (key : ScopeKey) (d : ℕ) (b : Bucket ℕ)
      → b.policy.enabled ≡ true
      → (is_front id b.queue && available b) ≡ false
      → Waits (poll_bucket key d e id t b)
  unfolding poll_bucket
  poll_bucket-Waits t e key d b enabled busy =
      if_cases Waits (not b.policy.enabled) _ _ (λ off. absurd (ground (arith, off, enabled)))
        (λ on.
          if_cases Waits (is_front id b.queue && available b) _ _
            (λ room. absurd (true≢false (sym room ∙ busy))) (λ still. (_, refl)))

  abbrev WaitsIf : Option (Engine ℕ × Decision) → Type 0
  WaitsIf o = (r : Engine ℕ × ℕ) × (o ≡ some (r.0, wait_until r.1))

  poll_queued-Waits :
      (t : ℕ) (e : Engine ℕ) (key : ScopeKey) (d : ℕ) (b : Bucket ℕ)
      → t < d
      → get key e.buckets ≡ some b
      → Waits (poll_bucket key d e id t (refill b t))
      → WaitsIf (poll_queued key d e id t)
  unfolding poll_queued
  poll_queued-Waits t e key d b early found (r, same) =
      if_cases WaitsIf (leb d t) _ _ (λ late. absurd (ground arith))
        (λ in_time. rw found (r, ap some same))

  poll-WaitsIf :
      (t : ℕ) (e : Engine ℕ) (key : ScopeKey) (d : ℕ)
      → e.stopping ≡ false
      → get id e.requests ≡ some (queued key d)
      → WaitsIf (poll_queued key d e id t)
      → WaitsIf (poll e id t)
  unfolding poll
  poll-WaitsIf t e key d runs waits known =
      if_cases WaitsIf e.stopping _ _ (λ s. absurd (true≢false (sym s ∙ runs)))
        (λ s. rw waits known)

  pub poll-still :
      (t : ℕ) (e : Engine ℕ)
      → t < w
      → Asleep id w t e
      → (r : Engine ℕ × ℕ) × (poll e id t ≡ some (r.0, wait_until r.1))
  poll-still t e early a =
      let enabled : (refill a.bucket t).policy.enabled ≡ true = unfold refill in a.enabled in
      let same : (refill a.bucket t).queue ≡ a.bucket.queue = unfold refill in refl in
      let busy : (is_front id (refill a.bucket t).queue && available (refill a.bucket t)) ≡ false =
        subst (λ q. (is_front id q && available (refill a.bucket t)) ≡ false) (sym same)
          (a.not_yet t (omega arith) early) in
      poll-WaitsIf t e a.key a.deadline a.runs a.waits (
        poll_queued-Waits t e a.key a.deadline a.bucket (omega (arith, a.by_deadline, early))
          a.found (poll_bucket-Waits t e a.key a.deadline (refill a.bucket t) enabled busy))
