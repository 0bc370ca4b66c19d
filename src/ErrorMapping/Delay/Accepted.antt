-- ===== src/ErrorMapping/Delay/Accepted.antt =====
-- What `deserialize_delay` of src/error_mapping.rs accepts.
use cpa_stg.Base.Partial.{>>=-eq-some}
use cpa_stg.Base.Result.{ok}
use mathlib.Core.Path.{subst}
use cpa_stg.Base.{
  ◌+◌, suc, true≢false, Option, ◌-◌, ◌^◌, ◌≢◌, ◌++◌, length, [], ◌∷◌, refl, sym, none, if_cases, ap,
  ◌∙◌, ℕ, ◌*◌, ◌≤◌, true, false, some, ◌≡◌, inl, inr, ℕ_eq, arith, Option-cases, is_empty,
}
use cpa_stg.ErrorMapping.Delay.{
  Bytes, deserialize_delay, split_unit, parse_delay, delay_ms, to_u64, decimal_from, all_digits,
  strip_suffix, equal_bytes,
}

-- The number of the digits, times the unit, in milliseconds; it is at most five minutes.
record Ms (digits : Bytes) (unit ms : ℕ) : Type 0 where
  value : ms ≡ decimal_from 0 digits * unit
  bound : ms ≤ 300_000

delay_ms-Ms :
    (digits : Bytes) (unit : ℕ) {ms : ℕ} → delay_ms digits unit ≡ some ms → Ms digits unit ms
unfolding delay_ms to_u64
delay_ms-Ms digits unit h =
    let (n, first, h1) = >>=-eq-some (to_u64 (decimal_from 0 digits)) _ h in
    let (ms, second, h2) = >>=-eq-some (to_u64 (n * unit)) _ h1 in
    let n_is : n ≡ decimal_from 0 digits = ground (arith, first) in
    let ms_is : ms ≡ n * unit = ground (arith, second) in
    record {
      value = ground (arith, h2) ∙ ms_is ∙ ap (λ k. k * unit) n_is;
      bound = ground (arith, h2);
    }

-- A unit's spelling and its milliseconds.
pub data UnitOf : Bytes → ℕ → Type 0 where
  milliseconds : UnitOf (b'm' ∷ b's' ∷ []) 1
  seconds : UnitOf (b's' ∷ []) 1000
  minutes : UnitOf (b'm' ∷ []) 60_000

-- Decimal digits, in ASCII.
abbrev pub Digits : Bytes → Type 0
Digits [] = Unit
Digits (c ∷ cs) = (48 ≤ c) × (c ≤ 57) × Digits cs

-- The number that digits stand for, each by its place.
abbrev pub number : Bytes → ℕ
number [] = 0
number (c ∷ cs) = (c - 48) * 10 ^ length cs + number cs

-- An accepted text is digits, at least one, and a unit; the delay in nanoseconds is their number
-- in that unit, at most five minutes.
pub record Accepted (raw : Bytes) (d : ℕ) : Type 0 where
  pub digits : Bytes
  pub spelling : Bytes
  pub unit : ℕ
  pub text : raw ≡ digits ++ spelling
  pub known : UnitOf spelling unit
  pub some_digits : digits ≢ []
  pub only_digits : Digits digits
  pub value : d ≡ number digits * unit * 1_000_000
  pub bound : d ≤ 300_000_000_000

equal_bytes-≡ : (xs ys : Bytes) → equal_bytes xs ys ≡ true → xs ≡ ys
unfolding equal_bytes
equal_bytes-≡ [] [] h = refl
equal_bytes-≡ [] (y ∷ ys) h = absurd (ground (arith, h))
equal_bytes-≡ (x ∷ xs) [] h = absurd (ground (arith, h))
equal_bytes-≡ (x ∷ xs) (y ∷ ys) h =
    let first : x ≡ y = ground (arith, h) in
    let rest = equal_bytes-≡ xs ys (ground (arith, h)) in cc

-- What is left in front of the suffix, if anything is.
abbrev Stripped : Bytes → Bytes → Option Bytes → Type 0
Stripped suffix raw none = Unit
Stripped suffix raw (some digits) = raw ≡ digits ++ suffix

Stripped-cons :
    (suffix cs : Bytes) (c : ℕ) (o : Option Bytes)
    → Stripped suffix cs o
    → Stripped suffix (c ∷ cs) (elim o [ none ↦ none | some r ↦ some (c ∷ r) ])
Stripped-cons suffix cs c none h = tt
Stripped-cons suffix cs c (some r) h = ap (λ (x : Bytes). c ∷ x) h

strip_suffix-Stripped : (suffix raw : Bytes) → Stripped suffix raw (strip_suffix suffix raw)
unfolding strip_suffix
strip_suffix-Stripped suffix [] =
    if_cases (Stripped suffix []) (equal_bytes [] suffix) _ _ (λ all. equal_bytes-≡ [] suffix all)
      (λ differs. tt)
strip_suffix-Stripped suffix (c ∷ cs) =
    if_cases (Stripped suffix (c ∷ cs)) (equal_bytes (c ∷ cs) suffix) _ _
      (λ all. equal_bytes-≡ (c ∷ cs) suffix all)
      (λ differs.
        Stripped-cons suffix cs c (strip_suffix suffix cs) (strip_suffix-Stripped suffix cs))

-- The parts of a text.
abbrev Parts : Bytes → Option (Bytes × ℕ) → Type 0
Parts raw none = Unit
Parts raw (some (digits, unit)) =
    (spelling : Bytes) × (raw ≡ digits ++ spelling) × UnitOf spelling unit

with_unit :
    (raw spelling : Bytes) (unit : ℕ) (o : Option Bytes) (other : Option (Bytes × ℕ))
    → UnitOf spelling unit
    → Stripped spelling raw o
    → Parts raw other
    → Parts raw (elim o [ some n ↦ some (n, unit) | none ↦ other ])
with_unit raw spelling unit none other known h later = later
with_unit raw spelling unit (some n) other known h later = (spelling, h, known)

split_unit-Parts : (raw : Bytes) → Parts raw (split_unit raw)
unfolding split_unit
split_unit-Parts raw =
    with_unit raw (b'm' ∷ b's' ∷ []) 1 (strip_suffix (b'm' ∷ b's' ∷ []) raw) _ milliseconds
      (strip_suffix-Stripped (b'm' ∷ b's' ∷ []) raw)
      (with_unit raw (b's' ∷ []) 1000 (strip_suffix (b's' ∷ []) raw) _ seconds
        (strip_suffix-Stripped (b's' ∷ []) raw)
        (with_unit raw (b'm' ∷ []) 60_000 (strip_suffix (b'm' ∷ []) raw) none minutes
          (strip_suffix-Stripped (b'm' ∷ []) raw) tt))

all_digits-Digits : (cs : Bytes) → all_digits cs ≡ true → Digits cs
unfolding all_digits
all_digits-Digits [] h = tt
all_digits-Digits (c ∷ cs) h =
    (ground (arith, h), ground (arith, h), all_digits-Digits cs (ground (arith, h)))

place : (acc x p : ℕ) → (acc * 10 + x) * p ≡ acc * (10 * p) + x * p
place acc x p = grind arith

pow_suc : (n : ℕ) → 10 ^ suc n ≡ 10 * 10 ^ n
pow_suc n = grind arith

decimal_from-number :
    (acc : ℕ) (cs : Bytes) → decimal_from acc cs ≡ acc * 10 ^ length cs + number cs
unfolding decimal_from
decimal_from-number acc [] = omega arith
decimal_from-number acc (c ∷ cs) =
    decimal_from-number (acc * 10 + (c - 48)) cs
    ∙ omega
        (arith, place acc (c - 48) (10 ^ length cs), ap (λ (p : ℕ). acc * p) (pow_suc (length cs)))

parse_delay-ms :
    (digits : Bytes) (unit : ℕ) {d : ℕ}
    → parse_delay (digits, unit) ≡ ok (some d)
    → (is_empty digits ≡ false)
      × (all_digits digits ≡ true)
      × ((ms : ℕ) × (delay_ms digits unit ≡ some ms) × (d ≡ ms * 1_000_000))
unfolding parse_delay
parse_delay-ms digits unit h = elim (Option-cases (delay_ms digits unit)) [
  | inl none_ms ↦ absurd (ground (arith, h, none_ms))
  | inr (ms, found) ↦ (ground (arith, h), ground (arith, h), (ms, found, ground (arith, h, found)))
]

-- If a delay is read from a text, the text is made of decimal digits, at least one, and behind them
-- "ms", "s" or "m", and the delay is the number of the digits in that unit, and at most five
-- minutes.
pub deserialize_delay-Accepted :
    (raw : Bytes) (d : ℕ) → deserialize_delay (some raw) ≡ ok (some d) → Accepted raw d
unfolding deserialize_delay
deserialize_delay-Accepted raw d h = elim (Option-cases (split_unit raw)) [
  | inl no_unit_here ↦ absurd (ground (arith, h, no_unit_here))
  | inr ((digits, unit), found) ↦
      let read_ok : parse_delay (digits, unit) ≡ ok (some d) = ground (arith, h, found) in
      let (full, numeric, (ms, read, d_is)) = parse_delay-ms digits unit read_ok in
      let m = delay_ms-Ms digits unit read in
      let (spelling, text, known) = subst (Parts raw) found (split_unit-Parts raw) in
      let number_is : decimal_from 0 digits ≡ number digits =
        decimal_from-number 0 digits ∙ omega arith in
      record {
        digits = digits;
        spelling = spelling;
        unit = unit;
        text = text;
        known = known;
        some_digits = λ none_there. true≢false (ap is_empty (sym none_there) ∙ full);
        only_digits = all_digits-Digits digits numeric;
        value = d_is ∙ ap (λ k. k * 1_000_000) (m.value ∙ ap (λ n. n * unit) number_is);
        bound = omega (arith, m.bound);
      }
]
