-- ===== src/Runtime/Notify.antt =====
-- src/runtime.rs: which calls notify the threads that wait, and what a thread that is not
-- notified has missed, in exact arithmetic.
pub mod Asleep
pub mod Silent
pub mod Told
use mathlib.Core.Path.{subst}
use cpa_stg.Base.Map.{get, insert, get-insert, contains_key}
use cpa_stg.Base.Partial.{◌>>=◌, >>=-eq-some}
use cpa_stg.Base.Result.{Result, ok, err}
use cpa_stg.Base.{
  ℕ, ◌≤◌, ◌<◌, String, Bool, true, false, not, ◌&&◌, ◌||◌, Option, none, some, List, [], ◌∷◌, ◌≡◌,
  refl, sym, ap, ◌∙◌, inl, inr, ◌==◌, ==_iff, string_eq, if◌then◌else◌, leb, arith, Bool-cases,
  Option-cases, if_cases,
}
use cpa_stg.Config.{Config}
use cpa_stg.Engine.Admission.{poll, poll_queued, poll_bucket, reconfigure, enter}
use cpa_stg.Engine.Buckets.{Bucket, refill, available, wake_at}
use cpa_stg.Engine.Rate.Wake.{refill-refill, wake_at-not_ready}
use cpa_stg.Engine.System.{
  Call, begins, begins_child, attempts, polls, completes, reconfigures, stops, left, step, run,
}
use cpa_stg.Engine.Types.{
  ScopeKey, scope_eq, Decision, admit, wait_until, reject, Phase, idle, active, queued,
  queue_timeout, request_ended, stopping,
}
use cpa_stg.Engine.{Engine, is_front, put_bucket, begin, begin_child, begun, link}
use cpa_stg.Float.Fixed.{fixed}
use cpa_stg.Float.{F64}

-- Whether a decision ends the wait of `acquire`.
abbrev pub decides : Decision → Bool
decides (wait_until t) = false
decides _ = true

abbrev pub answers : {T : Type 0} → Option (Engine T × Decision) → Bool
answers none = true
answers (some (e, d)) = decides d

abbrev pub accepted : Result String (Unit {0}) → Bool
accepted (ok u) = true
accepted (err message) = false

module _ {T : Type 0} ⦃f : F64 T⦄ where
  -- `changed.notify_all()`
  unfoldable pub notifies : Engine T → Call → Bool
  notifies e (begins id) = false
  notifies e (begins_child id parent) = false
  notifies e (attempts id name now) = true
  notifies e (polls id now) = answers (poll e id now)
  notifies e (completes id) = true
  notifies e (reconfigures c now) = accepted (reconfigure e c now).1
  notifies e stops = true

  -- No call of the sequence notifies.
  unfoldable pub silent : Engine T → List Call → Bool
  unfolding notifies step
  silent e [] = true
  silent e (call ∷ cs) =
      not (notifies e call) && elim (step e call) [ none ↦ true | some e' ↦ silent e' cs ]

-- A poll that makes the request wait.
pub record Slept (id : String) (now : ℕ) (e e' : Engine ℕ) (w : ℕ) : Type 0 where
  pub runs : e.stopping ≡ false
  pub key : ScopeKey
  pub deadline : ℕ
  pub waits : get id e.requests ≡ some (queued key deadline)
  pub early : now < deadline
  pub bucket : Bucket ℕ
  pub found : get key e.buckets ≡ some bucket
  pub enabled : bucket.policy.enabled ≡ true
  pub busy : (is_front id (refill bucket now).queue && available (refill bucket now)) ≡ false
  pub moved : e' ≡ put_bucket key (refill bucket now) e
  pub wake : w ≡ (
      if is_front id (refill bucket now).queue
      then wake_at (refill bucket now) now deadline
      else deadline)

abbrev pub SleptIf : String → ℕ → Engine ℕ → Option (Engine ℕ × Decision) → Type 0
SleptIf id now e none = Unit
SleptIf id now e (some (e', wait_until w)) = Slept id now e e' w
SleptIf id now e (some (e', admit)) = Unit
SleptIf id now e (some (e', reject reason)) = Unit

abbrev SleptPair : String → ℕ → Engine ℕ → Engine ℕ × Decision → Type 0
SleptPair id now e r = SleptIf id now e (some r)

poll_bucket-Slept :
    (id : String) (now : ℕ) (e : Engine ℕ) (key : ScopeKey) (d : ℕ) (b : Bucket ℕ)
    → e.stopping ≡ false
    → get id e.requests ≡ some (queued key d)
    → leb d now ≡ false
    → get key e.buckets ≡ some b
    → SleptPair id now e (poll_bucket key d e id now (refill b now))
unfolding poll_bucket
poll_bucket-Slept id now e key d b runs waits early found =
    if_cases (SleptPair id now e) (not (refill b now).policy.enabled) _ _ (λ off. tt)
      (λ on.
        if_cases (SleptPair id now e) (is_front id (refill b now).queue && available (refill b now))
          _ _ (λ room. tt)
          (λ busy. record {
            runs = runs;
            key = key;
            deadline = d;
            waits = waits;
            early = ground arith;
            bucket = b;
            found = found;
            enabled = unfold refill in ground (arith, on);
            busy = busy;
            moved = refl;
            wake = refl;
          }))

poll_queued-Slept :
    (id : String) (now : ℕ) (e : Engine ℕ) (key : ScopeKey) (d : ℕ)
    → e.stopping ≡ false
    → get id e.requests ≡ some (queued key d)
    → SleptIf id now e (poll_queued key d e id now)
unfolding poll_queued
poll_queued-Slept id now e key d runs waits =
    if_cases (SleptIf id now e) (leb d now) _ _ (λ late. tt)
      (λ early. elim (Option-cases (get key e.buckets)) [
        | inl gone ↦ rw gone tt
        | inr (b, found) ↦ rw found (poll_bucket-Slept id now e key d b runs waits early found)
      ])

pub poll-Slept : (id : String) (now : ℕ) (e : Engine ℕ) → SleptIf id now e (poll e id now)
unfolding poll
poll-Slept id now e =
    if_cases (SleptIf id now e) e.stopping _ _ (λ s. tt)
      (λ runs. elim (Option-cases (get id e.requests)) [
        | inl h ↦ rw h tt
        | inr (idle, h) ↦ rw h tt
        | inr (active key, h) ↦ rw h tt
        | inr (queued key d, h) ↦ rw h (poll_queued-Slept id now e key d runs h)
      ])
