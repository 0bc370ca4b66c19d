-- ===== src/ErrorMapping/Delay.antt =====
-- src/error_mapping.rs: `deserialize_delay`, over the bytes of the configured text.
pub mod Accepted
use cpa_stg.Base.{
  ℕ, ◌+◌, ◌-◌, ◌*◌, ◌^◌, Bool, true, false, not, ◌&&◌, ◌||◌, Option, none, some, List, [], ◌∷◌,
  ◌==◌, ℕ_eq, if◌then◌else◌, ltb, leb, is_empty,
}
use cpa_stg.Base.Partial.{◌>>=◌}
use cpa_stg.Base.Result.{Result, ok, err}

abbrev pub Bytes : Type 0
Bytes = List ℕ

unfoldable pub equal_bytes : Bytes → Bytes → Bool
equal_bytes [] [] = true
equal_bytes (x ∷ xs) (y ∷ ys) = x == y && equal_bytes xs ys
equal_bytes _ _ = false

-- `str::strip_suffix`
unfoldable pub strip_suffix : Bytes → Bytes → Option Bytes
strip_suffix suffix [] = if equal_bytes [] suffix then some [] else none
strip_suffix suffix (c ∷ cs) =
    let rest = strip_suffix suffix cs in
    if equal_bytes (c ∷ cs) suffix
    then some []
    else elim rest [ none ↦ none | some r ↦ some (c ∷ r) ]

unfoldable pub all_digits : Bytes → Bool
all_digits [] = true
all_digits (c ∷ cs) = (leb b'0' c && leb c b'9') && all_digits cs

unfoldable pub decimal_from : ℕ → Bytes → ℕ
decimal_from acc [] = acc
decimal_from acc (c ∷ cs) = decimal_from (acc * 10 + (c - b'0')) cs

-- `n` as a `u64`, if it is one.
unfoldable pub to_u64 : ℕ → Option ℕ
to_u64 n = if ltb n (2 ^ 64) then some n else none

pub data DelayError : Type 0 where
  no_unit not_an_integer too_long : DelayError

-- The digits in front of the unit, and the unit in milliseconds.
unfoldable pub split_unit : Bytes → Option (Bytes × ℕ)
split_unit raw = elim (strip_suffix (b'm' ∷ b's' ∷ []) raw) [
  | some n ↦ some (n, 1)
  | none ↦ elim (strip_suffix (b's' ∷ []) raw) [
    | some n ↦ some (n, 1000)
    | none ↦ elim (strip_suffix (b'm' ∷ []) raw) [ some n ↦ some (n, 60_000) | none ↦ none ]
  ]
]

unfoldable pub delay_ms : Bytes → ℕ → Option ℕ
delay_ms digits multiplier = do
  n ← to_u64 (decimal_from 0 digits)
  ms ← to_u64 (n * multiplier)
  if leb ms 300_000 then some ms else none

unfoldable pub parse_delay : Bytes × ℕ → Result DelayError (Option ℕ)
parse_delay (digits, multiplier) =
    if is_empty digits || not (all_digits digits)
    then err not_an_integer
    else elim (delay_ms digits multiplier) [
      | none ↦ err too_long
      | some ms ↦ ok (some (ms * 1_000_000))
    ]

-- `none` stands for a field that is null.
unfoldable pub deserialize_delay : Option Bytes → Result DelayError (Option ℕ)
deserialize_delay none = ok none
deserialize_delay (some raw) = elim (split_unit raw) [
  | none ↦ err no_unit
  | some parts ↦ parse_delay parts
]
