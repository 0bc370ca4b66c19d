-- ===== src/Float/Fixed.antt =====
-- Exact arithmetic in the place of `f64`: a number stands for that many parts of 60 * 10^9, so
-- that a nanosecond times a rate per minute is a whole number of parts.
use cpa_stg.Base.{ℕ, ◌+◌, ◌-◌, ◌*◌, ◌/◌, min, max, ltb, leb}
use cpa_stg.Float.{F64}

abbrev pub parts : ℕ
parts = 60_000_000_000

instance abbrev pub fixed : F64 ℕ
fixed = record {
  of_ℕ = λ n. n * parts;
  nano = 60;
  add = λ a b. a + b;
  sub = λ a b. a - b;
  mul = λ a b. a * b / parts;
  div = λ a b. a * parts / b;
  minimum = min;
  maximum = max;
  le = leb;
  lt = ltb;
  as_secs = λ n. n * 60;
  from_secs = λ a. (a + 30) / 60;
}
