-- ===== src/Engine/Rate.antt =====
-- The tokens of a bucket of src/engine.rs over time, in exact arithmetic: what a credential may
-- still spend, and what each operation on its bucket spends.
pub mod Moves
pub mod Poll
pub mod Attempt
pub mod Lifecycle
pub mod Wake
pub mod Window
pub mod Run
mod Tests
use mathlib.Core.Path.{subst}
use cpa_stg.Base.{
  ℕ, zero, suc, ◌+◌, ◌-◌, ◌*◌, ◌/◌, ◌≤◌, ◌<◌, min, Bool, true, false, not, ◌&&◌, ◌||◌, Option, none,
  some, List, [], ◌∷◌, ◌≡◌, ◌≢◌, refl, sym, ap, ◌∙◌, ◌==◌, ℕ_eq, if◌then◌else◌, ltb, leb, is_empty,
  arith, if_cases,
}
use cpa_stg.Base.Map.Totals.{keep_if}
use cpa_stg.Config.{Policy}
use cpa_stg.Engine.Admission.{in_use}
use cpa_stg.Engine.Buckets.{Bucket, new_bucket, refill, available, charge, capacity}
use cpa_stg.Float.Fixed.{fixed, parts}

regroup : (d r : ℕ) → d * 60 * (r * parts) ≡ d * r * (60 * parts)
regroup d r = grind arith

-- The arithmetic of `refill` is exact.
exact : (d r : ℕ) → d * 60 * (r * parts) / parts * parts / (60 * parts) ≡ d * r
exact d r = rw (regroup d r) (omega arith)

≢0 : (n : ℕ) → n ≢ 0 → (n == 0) ≡ false
≢0 n h = ground arith

-- Of a policy that limits the rate.
module _ (p : Policy) where
  abbrev pub burst : ℕ
  burst = p.burst * parts

  -- What is earned in a time.
  abbrev pub earnings : ℕ → ℕ
  earnings time = time * p.requests_per_minute

  -- What can be spent at a time, when the bucket was updated before.
  unfoldable pub credit : ℕ → Bucket ℕ → ℕ
  credit now b = min (b.tokens + earnings (now - b.updated)) burst

  earnings-add : (a b : ℕ) → earnings (a + b) ≡ earnings a + earnings b
  earnings-add a b = grind arith

  -- Time earns no more than the rate.
  pub credit-later :
      (b : Bucket ℕ) (t now : ℕ)
      → b.updated ≤ t
      → t ≤ now
      → credit now b ≤ credit t b + earnings (now - t)
  unfolding credit
  credit-later b t now past later =
      let split = earnings-add (t - b.updated) (now - t) in
      let time : now - b.updated ≡ (t - b.updated) + (now - t) = omega arith in
      let earned : earnings (now - b.updated) ≡ earnings (t - b.updated) + earnings (now - t) =
        ap earnings time ∙ split in
      omega (arith, earned)

  refill-tokens :
      (b : Bucket ℕ) (now : ℕ)
      → b.policy ≡ p
      → p.requests_per_minute ≢ 0
      → (refill b now).tokens ≡ credit now b
  unfolding refill credit
  refill-tokens b now is limited =
      subst
        (λ (q : Policy).
          (if q.requests_per_minute == 0
            then q.burst * parts
            else min
                (b.tokens
                  + (now - b.updated)
                    * 60
                    * (q.requests_per_minute * parts)
                    / parts
                    * parts
                    / (60 * parts))
                (q.burst * parts))
          ≡ credit now b)
        (sym is)
        (rw (≢0 p.requests_per_minute limited)
          (rw (exact (now - b.updated) p.requests_per_minute) refl))

-- At one time, for a credential under a policy that limits its rate.
module _ (p : Policy) (limited : p.requests_per_minute ≢ 0) (now : ℕ) where
  -- Of `m`, `n` tokens are spent, and the rest covers what the bucket can still spend; a
  -- credential without a bucket can spend the burst.
  abbrev pub Covers : ℕ → ℕ → Option (Bucket ℕ) → Type 0
  Covers m n none = n * parts + burst p ≤ m
  Covers m n (some b) = (b.policy ≡ p) × (b.updated ≤ now) × (n * parts + credit p now b ≤ m)

  -- The bucket is up to date.
  pub record Fresh (b : Bucket ℕ) : Type 0 where
    pub is_now : b.updated ≡ now
    pub full_at_most : b.tokens ≤ burst p

  pub refill-Fresh : (b : Bucket ℕ) → b.policy ≡ p → Fresh (refill b now)
  unfolding credit
  refill-Fresh b is = record {
    is_now = unfold refill in refl;
    full_at_most = omega (arith, refill-tokens p b now is limited);
  }

  credit-Fresh : (b : Bucket ℕ) → Fresh b → credit p now b ≡ b.tokens
  unfolding credit
  credit-Fresh b fresh =
      let nothing : earnings p (now - b.updated) ≡ 0 =
        let passed : now - b.updated ≡ 0 = omega (arith, fresh.is_now) in
        ap (earnings p) passed ∙ omega arith in
      omega (arith, nothing, fresh.full_at_most)

  pub refill-Covers :
      (m n : ℕ) (b : Bucket ℕ) → Covers m n (some b) → Covers m n (some (refill b now))
  refill-Covers m n b (is, past, covers) =
      let fresh = refill-Fresh b is in
      (
        unfold refill in is,
        omega (arith, fresh.is_now),
        omega (arith, credit-Fresh (refill b now) fresh, refill-tokens p b now is limited),
      )

  charge-tokens :
      (b : Bucket ℕ) → b.policy ≡ p → available b ≡ true → (charge b).tokens + parts ≡ b.tokens
  unfolding charge available
  charge-tokens b is room =
      let rate = ap (λ (q : Policy). q.requests_per_minute) is in ground (arith, rate)

  charge-Fresh : (b : Bucket ℕ) → Fresh b → (charge b).tokens + parts ≡ b.tokens → Fresh (charge b)
  charge-Fresh b fresh spent = record {
    is_now = unfold charge in fresh.is_now;
    full_at_most = omega (arith, fresh.full_at_most, spent);
  }

  -- A token is there and is spent.
  pub charge-Covers :
      (m n : ℕ) (b : Bucket ℕ)
      → Fresh b
      → available b ≡ true
      → Covers m n (some b)
      → Covers m (suc n) (some (charge b))
  charge-Covers m n b fresh room (is, past, covers) =
      let spent = charge-tokens b is room in
      let fresh' = charge-Fresh b fresh spent in
      (
        unfold charge in is,
        omega (arith, fresh'.is_now),
        omega (arith, credit-Fresh b fresh, credit-Fresh (charge b) fresh', spent),
      )

  pub new_bucket-Covers : (m n : ℕ) → Covers m n none → Covers m n (some (new_bucket p now))
  unfolding new_bucket
  new_bucket-Covers m n covers = (
    refl,
    omega arith,
    omega (
      arith,
      credit-Fresh (new_bucket p now) (record { is_now = refl; full_at_most = omega arith }),
    ),
  )

  refill-policy : (b : Bucket ℕ) (at : ℕ) → b.policy ≡ p → (refill b at).policy ≡ p
  unfolding refill
  refill-policy b at is = is

  idle_full : (b : Bucket ℕ) → in_use b ≡ false → b.policy.burst * parts ≤ b.tokens
  unfolding in_use
  idle_full b idle = ground arith

  idle-Covers :
      (m n : ℕ) (b : Bucket ℕ)
      → b.policy ≡ p
      → in_use (refill b now) ≡ false
      → n * parts + credit p now b ≤ m
      → Covers m n none
  idle-Covers m n b is idle within = omega (
    arith,
    refill-tokens p b now is limited,
    idle_full (refill b now) idle,
    ap (λ (q : Policy). q.burst * parts) (refill-policy b now is),
  )

  -- What the eviction drops could spend the burst.
  pub dropped-Covers :
      (m n : ℕ) (o : Option (Bucket ℕ))
      → Covers m n o
      → Covers m n (keep_if (λ b. refill b now) in_use o)
  dropped-Covers m n none covers = covers
  dropped-Covers m n (some b) covers =
      if_cases (Covers m n) (in_use (refill b now)) _ _ (λ used. refill-Covers m n b covers)
        (λ idle. let (is, past, within) = covers in idle-Covers m n b is idle within)
