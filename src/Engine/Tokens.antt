-- ===== src/Engine/Tokens.antt =====
-- The tokens of a bucket of src/engine.rs and its burst, and the buckets that eviction drops.
use cpa_stg.Base.{ℕ, ◌-◌, ◌^◌, ◌<◌, ◌≢◌, String, true, false, ◌≡◌, ◌==◌, ℕ_eq, arith, if_cases}
use cpa_stg.Config
use cpa_stg.Config.{Config}
use cpa_stg.Engine.Admission.{in_use}
use cpa_stg.Engine.Buckets.{Bucket, new_bucket, refill, available, charge, capacity}
use cpa_stg.Engine.Kept.{Closed}
use cpa_stg.Engine.Types.{ScopeKey, scope_name}
use cpa_stg.Float.{F64}
use cpa_stg.Float.Laws.{F64Laws}

-- The rate of every policy is a `u32`.
abbrev pub RatesFit : Config → Type 0
RatesFit c = (name : String) → (Config.policy c name).requests_per_minute < 2 ^ 32

module _ {T : Type 0} ⦃f : F64 T⦄ where
  open f use {of_ℕ, le, lt, add, mul, div, as_secs, minimum}

  pub record InBurst (k : ScopeKey) (b : Bucket T) : Type 0 where
    pub nonneg : le (of_ℕ 0) b.tokens ≡ true
    pub at_most : le b.tokens (capacity b.policy) ≡ true
    -- The rate is a `u32`.
    pub rate_fits : b.policy.requests_per_minute < 2 ^ 32

  module _ (laws : F64Laws f) where
    earned_nonneg :
        (k : ScopeKey) (b : Bucket T) (now : ℕ)
        → InBurst k b
        → b.policy.requests_per_minute ≢ 0
        → le (of_ℕ 0) (
            add b.tokens
              (div (mul (as_secs (now - b.updated)) (of_ℕ b.policy.requests_per_minute)) (of_ℕ 60)))
          ≡ true
    earned_nonneg k b now h limited =
        laws.add_nonneg _ _ h.nonneg
          (laws.rate_nonneg (now - b.updated) b.policy.requests_per_minute limited h.rate_fits)

    pub refill-InBurst :
        (k : ScopeKey) (b : Bucket T) (now : ℕ) → InBurst k b → InBurst k (refill b now)
    unfolding refill
    refill-InBurst k b now h = record {
      nonneg =
          if_cases (λ (t : T). le (of_ℕ 0) t ≡ true) (b.policy.requests_per_minute == 0) _ _
            (λ _. laws.of_ℕ_nonneg b.policy.burst)
            λ limited.
              laws.min_nonneg _ _ (earned_nonneg k b now h (ground (arith, limited)))
                (laws.of_ℕ_nonneg b.policy.burst);
      at_most =
          if_cases (λ (t : T). le t (capacity b.policy) ≡ true) (b.policy.requests_per_minute == 0)
            _ _ (λ _. laws.le_refl b.policy.burst)
            λ limited.
              laws.min_le_right _ _ (earned_nonneg k b now h (ground (arith, limited)))
                (laws.of_ℕ_nonneg b.policy.burst);
      rate_fits = h.rate_fits;
    }

    charge-InBurst :
        (k : ScopeKey) (b : Bucket T) → available b ≡ true → InBurst k b → InBurst k (charge b)
    unfolding charge available
    charge-InBurst k b room h = record {
      nonneg =
          if_cases (λ (t : T). le (of_ℕ 0) t ≡ true) (b.policy.requests_per_minute == 0) _ _
            (λ _. h.nonneg) λ limited. laws.sub_nonneg b.tokens (ground arith);
      at_most =
          if_cases (λ (t : T). le t (capacity b.policy) ≡ true) (b.policy.requests_per_minute == 0)
            _ _ (λ _. h.at_most) λ _. laws.sub_le b.tokens (capacity b.policy) h.at_most;
      rate_fits = h.rate_fits;
    }

    pub InBurst-Closed : (c : Config) → RatesFit c → Closed c InBurst
    unfolding new_bucket
    InBurst-Closed c fit = record {
      of_new = λ k now on. record {
        nonneg = laws.of_ℕ_nonneg _;
        at_most = laws.le_refl _;
        rate_fits = fit (scope_name k);
      };
      of_refill = refill-InBurst;
      of_charge = charge-InBurst;
      of_release =
          λ k b pos h. record { nonneg = h.nonneg; at_most = h.at_most; rate_fits = h.rate_fits };
      of_cancel =
          λ k b id h. record { nonneg = h.nonneg; at_most = h.at_most; rate_fits = h.rate_fits };
      of_serve =
          λ k b h. record { nonneg = h.nonneg; at_most = h.at_most; rate_fits = h.rate_fits };
      of_join = λ k b id space h. record {
        nonneg = h.nonneg;
        at_most = h.at_most;
        rate_fits = h.rate_fits;
      };
    }

    idle_is_new :
        (k : ScopeKey) (b : Bucket T)
        → InBurst k b
        → b.policy.burst ≢ 0
        → in_use b ≡ false
        → b ≡ new_bucket b.policy b.updated
    unfolding in_use new_bucket
    idle_is_new k b h some_burst idle =
        ground (arith, laws.le_antisymm b.tokens b.policy.burst some_burst h.at_most)

    -- A bucket that the eviction drops, refilled to the present, is the bucket that its credential
    -- would get anew under the same policy. So the eviction erases no debt. The tokens are within
    -- the burst, which is not 0, the rate fits in 32 bits, and the arithmetic has the laws of
    -- `F64Laws`.
    pub dropped_is_new :
        (k : ScopeKey) (b : Bucket T) (now : ℕ)
        → InBurst k b
        → b.policy.burst ≢ 0
        → in_use (refill b now) ≡ false
        → refill b now ≡ new_bucket b.policy now
    unfolding refill
    dropped_is_new k b now h some_burst idle =
        idle_is_new k (refill b now) (refill-InBurst k b now h) some_burst idle
