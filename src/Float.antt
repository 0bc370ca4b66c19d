-- ===== src/Float.antt =====
-- The `f64` arithmetic of the token buckets and the conversions of `Duration`, as an interface:
-- the engine is written over any type with these operations. A time or a duration is a natural
-- number of nanoseconds.
pub mod Fixed
pub mod Laws
use cpa_stg.Base.{ℕ, Bool, true, ◌≡◌}

pub record F64 (T : Type 0) : Type 0 where
  -- `n as f64`
  pub of_ℕ : ℕ → T
  -- 0.000_000_001
  pub nano : T
  pub add : T → T → T
  pub sub : T → T → T
  pub mul : T → T → T
  pub div : T → T → T
  pub minimum : T → T → T
  pub maximum : T → T → T
  -- `a <= b` and `a < b`
  pub le : T → T → Bool
  pub lt : T → T → Bool
  -- `Duration::as_secs_f64` and `Duration::from_secs_f64`
  pub as_secs : ℕ → T
  pub from_secs : T → ℕ
