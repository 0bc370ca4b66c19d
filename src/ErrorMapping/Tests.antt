-- ===== src/ErrorMapping/Tests.antt =====
-- The mapping of src/error_mapping.rs at one failure event, and a stream that carries it.
use cpa_stg.Base.{true, false, none, some, List, [], ◌∷◌, ◌≡◌, refl, arith, string_eq}
use cpa_stg.ErrorMapping.Delay.{
  Bytes, deserialize_delay, split_unit, parse_delay, delay_ms, to_u64, decimal_from, all_digits,
  strip_suffix, equal_bytes,
}
use cpa_stg.Base.Result.{ok}
use cpa_stg.ErrorMapping.Delay.Accepted.{Accepted, deserialize_delay-Accepted}
use cpa_stg.ErrorMapping.Rewrite.{Rewritten, Chosen, map_error-rewrite, map_error-Chosen}
use cpa_stg.ErrorMapping.Sse.{Library, new}
use cpa_stg.ErrorMapping.Sse.Chunks.{pass_chunks, Fits}
use cpa_stg.ErrorMapping.Sse.Frames.{feed}
use cpa_stg.ErrorMapping.Sse.Oversize.{pass, pass_chunks-total}
use cpa_stg.ErrorMapping.Sse.Push.{frame_of}
use cpa_stg.ErrorMapping.{
  ErrorMapping, RetryableError, map_error, map_failed, error_object, is_mapped, find_rule, matches,
  detail, rewrite,
}
use cpa_stg.Json.{Value, Fields, object, string, field, end, get, get_field}

abbrev slow_down : RetryableError
slow_down = record { message = "slow down"; delay = some 2_000_000_000 }

abbrev limits : ErrorMapping
limits = record {
  enabled = true;
  rules =
      record {
        name = "limit";
        matcher = record {
          codes = "rate_limit" ∷ [];
          types = [];
          http_statuses = [];
          message_contains = none;
        };
        retryable = slow_down;
      }
      ∷ [];
}

abbrev limited_error : Fields
limited_error = field "code" (string "rate_limit") end

abbrev failure : Value
failure = object (
    field "type" (string "response.failed")
      (field "response" (object (field "error" (object limited_error) end)) end))

failure-mapped : map_error limits 0 failure ≡ some slow_down
unfolding map_error map_failed error_object is_mapped find_rule matches get get_field
failure-mapped = refl

map_error-rewrite_example :
    (v' : Value) × (rewrite slow_down failure ≡ some v')
    × Rewritten slow_down v'
    × (is_mapped (detail slow_down) ≡ true)
    × (map_error limits 400 v' ≡ none)
map_error-rewrite_example = map_error-rewrite limits 0 failure slow_down limits 400 failure-mapped

map_error-Chosen_example :
    (fs : Fields) × (error_object failure ≡ some fs)
    × (is_mapped fs ≡ false)
    × Chosen limits.rules 0 fs slow_down
map_error-Chosen_example = map_error-Chosen limits 0 failure slow_down failure-mapped

-- Every frame is the failure above.
abbrev library : Library
library = record {
  from_utf8 = λ bytes. some "data: x";
  from_str = λ text. some failure;
  from_slice = λ bytes. none;
  print = λ v. 120 ∷ [];
}

-- A frame whose end is cut, and the start of a second one.
abbrev chunks : List Bytes
chunks = (120 ∷ 13 ∷ 10 ∷ []) ∷ (13 ∷ []) ∷ (10 ∷ 121 ∷ []) ∷ []

chunks-Fits : Fits (frame_of library limits) [] chunks
unfolding feed
chunks-Fits = (omega arith, (omega arith, (omega arith, tt)))

pass_chunks-total_example :
    pass_chunks library (new limits) chunks ≡ some (pass (frame_of library limits) [] chunks)
pass_chunks-total_example = pass_chunks-total library limits chunks

two_seconds : deserialize_delay (some (50 ∷ 115 ∷ [])) ≡ ok (some 2_000_000_000)
unfolding deserialize_delay split_unit parse_delay delay_ms to_u64 decimal_from all_digits
    strip_suffix equal_bytes
two_seconds = refl

deserialize_delay-Accepted_example : Accepted (50 ∷ 115 ∷ []) 2_000_000_000
deserialize_delay-Accepted_example =
    deserialize_delay-Accepted (50 ∷ 115 ∷ []) 2_000_000_000 two_seconds
