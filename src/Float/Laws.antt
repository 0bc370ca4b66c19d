-- ===== src/Float/Laws.antt =====
-- Laws of arithmetic that the bounds on tokens use. IEEE 754 has each of them for all operands that
-- its premises allow: a comparison with 0 keeps NaN out, and no premise is met by an operation
-- that yields NaN.
use cpa_stg.Base.{ℕ, ◌<◌, ◌^◌, ◌≢◌, true, false, ◌≡◌, arith}
use cpa_stg.Float.Fixed.{fixed}
use cpa_stg.Float.{F64}

pub record F64Laws {T : Type 0} (f : F64 T) : Type 0 where
  pub of_ℕ_nonneg : (n : ℕ) → f.le (f.of_ℕ 0) (f.of_ℕ n) ≡ true
  pub le_refl : (n : ℕ) → f.le (f.of_ℕ n) (f.of_ℕ n) ≡ true
  pub add_nonneg :
      (a b : T)
      → f.le (f.of_ℕ 0) a ≡ true
      → f.le (f.of_ℕ 0) b ≡ true
      → f.le (f.of_ℕ 0) (f.add a b) ≡ true
  -- A time, which may be infinite, by a rate, which is finite and not 0.
  pub rate_nonneg :
      (time rate : ℕ)
      → rate ≢ 0
      → rate < 2 ^ 32
      → f.le (f.of_ℕ 0) (f.div (f.mul (f.as_secs time) (f.of_ℕ rate)) (f.of_ℕ 60)) ≡ true
  pub min_le_right :
      (a b : T)
      → f.le (f.of_ℕ 0) a ≡ true
      → f.le (f.of_ℕ 0) b ≡ true
      → f.le (f.minimum a b) b ≡ true
  pub min_nonneg :
      (a b : T)
      → f.le (f.of_ℕ 0) a ≡ true
      → f.le (f.of_ℕ 0) b ≡ true
      → f.le (f.of_ℕ 0) (f.minimum a b) ≡ true
  pub sub_nonneg : (a : T) → f.le (f.of_ℕ 1) a ≡ true → f.le (f.of_ℕ 0) (f.sub a (f.of_ℕ 1)) ≡ true
  pub sub_le : (a c : T) → f.le a c ≡ true → f.le (f.sub a (f.of_ℕ 1)) c ≡ true
  -- A value that is neither above nor below a whole number is that number, which is not 0, as 0 has
  -- two signs.
  pub le_antisymm :
      (a : T) (n : ℕ) → n ≢ 0 → f.le a (f.of_ℕ n) ≡ true → f.lt a (f.of_ℕ n) ≡ false → a ≡ f.of_ℕ n

pub fixed_laws : F64Laws fixed
fixed_laws = record {
  of_ℕ_nonneg = λ n. ground arith;
  le_refl = λ n. ground arith;
  add_nonneg = λ a b p q. ground arith;
  rate_nonneg = λ time rate p q. ground arith;
  min_le_right = λ a b p q. ground arith;
  min_nonneg = λ a b p q. ground arith;
  sub_nonneg = λ a p. ground arith;
  sub_le = λ a c p. ground arith;
  le_antisymm = λ a n p q r. ground arith;
}
