-- ===== src/Engine/Buckets.antt =====
-- src/engine.rs: `Bucket`, the tokens and the queue of one credential.
use cpa_stg.Base.{
  ℕ, ◌+◌, ◌-◌, min, String, Bool, not, ◌&&◌, ◌||◌, List, [], ◌==◌, ℕ_eq, if◌then◌else◌, ltb,
}
use cpa_stg.Config.{Policy}
use cpa_stg.Float.{F64}

pub record Bucket (T : Type 0) : Type 0 where
  pub policy : Policy
  pub tokens : T
  pub updated : ℕ
  pub active : ℕ
  pub queue : List String

module _ {T : Type 0} ⦃f : F64 T⦄ where
  open f use {of_ℕ, nano, add, sub, mul, div, minimum, maximum, le, lt, as_secs, from_secs}

  -- `policy.burst as f64`
  abbrev pub capacity : Policy → T
  capacity p = of_ℕ p.burst

  unfoldable pub new_bucket : Policy → ℕ → Bucket T
  new_bucket p now = record {
    policy = p;
    tokens = capacity p;
    updated = now;
    active = 0;
    queue = [];
  }

  -- `now - updated` stops at 0, as `saturating_duration_since` does.
  abbrev earned : Bucket T → ℕ → T
  earned b now =
      add b.tokens
        (div (mul (as_secs (now - b.updated)) (of_ℕ b.policy.requests_per_minute)) (of_ℕ 60))

  unfoldable pub refill : Bucket T → ℕ → Bucket T
  refill b now = record b {
    updated = now;
    tokens =
        if b.policy.requests_per_minute == 0
        then capacity b.policy
        else minimum (earned b now) (capacity b.policy);
  }

  unfoldable pub available : Bucket T → Bool
  available b =
      (b.policy.max_concurrency == 0 || ltb b.active b.policy.max_concurrency)
      && (b.policy.requests_per_minute == 0 || le (of_ℕ 1) b.tokens)

  unfoldable pub charge : Bucket T → Bucket T
  charge b = record b {
    tokens = if b.policy.requests_per_minute == 0 then b.tokens else sub b.tokens (of_ℕ 1);
    active = b.active + 1;
  }

  unfoldable pub wake_at : Bucket T → ℕ → ℕ → ℕ
  wake_at b now deadline =
      if not (b.policy.requests_per_minute == 0) && lt b.tokens (of_ℕ 1)
      then (let seconds =
            div (mul (sub (of_ℕ 1) b.tokens) (of_ℕ 60)) (of_ℕ b.policy.requests_per_minute) in
          min (now + from_secs (maximum seconds nano)) deadline)
      else deadline
