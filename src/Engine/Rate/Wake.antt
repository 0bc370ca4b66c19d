-- ===== src/Engine/Rate/Wake.antt =====
-- The time at which a request at the head of a queue of src/engine.rs is to look again, in exact
-- arithmetic.
use native.Mathlib.Nat.{mul-le-mul_right}
use mathlib.Core.Path.{subst}
use cpa_stg.Base.{
  ℕ, zero, suc, ◌+◌, ◌-◌, ◌*◌, ◌/◌, ◌≤◌, ◌<◌, max, Bool, true, false, not, ◌&&◌, ◌||◌, ◌≡◌, ◌≢◌,
  refl, sym, ap, ◌∙◌, inl, inr, ◌==◌, ℕ_eq, ltb, arith, Bool-cases,
}
use cpa_stg.Config.{Policy}
use cpa_stg.Engine.Buckets.{Bucket, refill, available, wake_at}
use cpa_stg.Engine.Rate.{earnings, credit, earnings-add, refill-tokens}
use cpa_stg.Float.Fixed.{fixed, parts}

credit-again :
    (p : Policy) (b b' : Bucket ℕ) (s t : ℕ)
    → b.updated ≤ s
    → s ≤ t
    → b'.updated ≡ s
    → b'.tokens ≡ credit p s b
    → credit p t b' ≡ credit p t b
unfolding credit
credit-again p b b' s t past later fresh held =
    let time : t - b.updated ≡ (s - b.updated) + (t - s) = omega arith in
    let split = ap (earnings p) time ∙ earnings-add p (s - b.updated) (t - s) in
    let rest : earnings p (t - b'.updated) ≡ earnings p (t - s) =
      ap (λ u. earnings p (t - u)) fresh in
    omega (arith, split, rest, held)

-- The tokens after two refills are those after the later one.
tokens_again :
    (b : Bucket ℕ) (s t : ℕ)
    → b.updated ≤ s
    → s ≤ t
    → (refill (refill b s) t).tokens ≡ (refill b t).tokens
tokens_again b s t past later = elim (Bool-cases (b.policy.requests_per_minute == 0)) [
  | inl none_earned ↦ unfold refill in rw none_earned refl
  | inr earns ↦
      let limited : b.policy.requests_per_minute ≢ 0 = ground (arith, earns) in
      let p = b.policy in
      refill-tokens p (refill b s) t (unfold refill in refl) limited
      ∙ credit-again p b (refill b s) s t past later (unfold refill in refl)
          (refill-tokens p b s refl limited)
      ∙ sym (refill-tokens p b t refl limited)
]

pub refill-refill :
    (b : Bucket ℕ) (s t : ℕ) → b.updated ≤ s → s ≤ t → refill (refill b s) t ≡ refill b t
unfolding refill
refill-refill b s t past later =
    ap (λ (x : ℕ). record b { updated = t; tokens = x }) (tokens_again b s t past later)

long_wait : (q r k : ℕ) → 60 * k + 30 ≤ q → 60 * (k * r) + 30 * r ≤ q * r
long_wait q r k h =
    let times : (60 * k + 30) * r ≤ q * r = mul-le-mul_right r h in
    let split : (60 * k + 30) * r ≡ 60 * (k * r) + 30 * r = grind arith in
    omega (arith, times, split)

short_of : (q D r k : ℕ) → q * r ≤ D * 60 → r ≢ 0 → 0 < D → k < (max q 60 + 30) / 60 → k * r < D
short_of q D r zero within limited owed early = omega arith
short_of q D r (suc k) within limited owed early =
    let long : 60 * suc k + 30 ≤ q = omega arith in
    let spent = long_wait q r (suc k) long in omega (arith, spent)

-- The wait, rounded to the next nanosecond, is over before the token is there.
short :
    (D r k : ℕ)
    → r ≢ 0
    → 0 < D
    → k < (max (D * (60 * parts) / parts * parts / (r * parts)) 60 + 30) / 60
    → k * r < D
short D r k limited owed early =
    let seconds : D * (60 * parts) / parts * parts / (r * parts) ≡ D * 60 / r = grind arith in
    let quotient : (D * 60 / r) * r ≤ D * 60 = omega arith in
    short_of (D * 60 / r) D r k quotient limited owed
      (subst (λ q. k < (max q 60 + 30) / 60) seconds early)

abbrev has_slot : Bucket ℕ → Bool
has_slot b = b.policy.max_concurrency == 0 || ltb b.active b.policy.max_concurrency

no_slot : (b : Bucket ℕ) (t : ℕ) → has_slot b ≡ false → available (refill b t) ≡ false
unfolding available refill
no_slot b t none_free = ground (arith, none_free)

no_token :
    (b : Bucket ℕ) → b.policy.requests_per_minute ≢ 0 → b.tokens < parts → available b ≡ false
unfolding available
no_token b limited owed = ground arith

-- What is missing when a slot is free.
lacks :
    (b : Bucket ℕ)
    → available b ≡ false
    → has_slot b ≡ true
    → (b.policy.requests_per_minute ≢ 0) × (b.tokens < parts)
unfolding available
lacks b busy free = ground (arith, free)

wake_at-le :
    (b : Bucket ℕ) (now d : ℕ)
    → b.policy.requests_per_minute ≢ 0
    → b.tokens < parts
    → wake_at b now d
      ≤ now
        + (max
              ((parts - b.tokens)
                * (60 * parts)
                / parts
                * parts
                / (b.policy.requests_per_minute * parts))
              60
            + 30)
          / 60
unfolding wake_at
wake_at-le b now d limited owed =
    let short_now : not (b.policy.requests_per_minute == 0) && ltb b.tokens parts ≡ true =
      ground arith in
    rw short_now (omega arith)

-- A bucket that was not available is not before its wake time.
pub wake_at-not_ready :
    (b : Bucket ℕ) (now d t : ℕ)
    → b.updated ≡ now
    → available b ≡ false
    → now ≤ t
    → t < wake_at b now d
    → available (refill b t) ≡ false
wake_at-not_ready b now d t fresh busy later early = elim (Bool-cases (has_slot b)) [
  | inr none_free ↦ no_slot b t none_free
  | inl free ↦
      let (limited, owed) = lacks b busy free in
      let r = b.policy.requests_per_minute in
      let earned : (t - now) * r < parts - b.tokens =
        short (parts - b.tokens) r (t - now) limited (omega (arith, owed))
          (omega (arith, wake_at-le b now d limited owed, early, later)) in
      let held = refill-tokens b.policy b t refl limited in
      let passed : earnings b.policy (t - b.updated) ≡ (t - now) * r =
        ap (λ u. earnings b.policy (t - u)) fresh in
      no_token (refill b t) (unfold refill in limited)
        (unfold credit in omega (arith, held, passed, earned))
]
