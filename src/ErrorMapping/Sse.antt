-- ===== src/ErrorMapping/Sse.antt =====
-- src/error_mapping.rs: `failure_from_message` and `SseMapper`, which rewrites the failure events
-- of a stream that arrives in chunks. A panic is `none`.
pub mod Frames
pub mod Loop
pub mod Resume
pub mod Push
pub mod Chunks
pub mod Oversize
use cpa_stg.Base.Partial.{◌>>=◌}
use cpa_stg.Base.Text.{append, strip_prefix, lines, join_lines, trim}
use cpa_stg.Base.{
  ℕ, zero, suc, ◌+◌, ◌-◌, ◌*◌, String, Bool, true, false, not, ◌&&◌, ◌||◌, Option, none, some, List,
  [], ◌∷◌, ◌++◌, ◌==◌, ℕ_eq, string_eq, if◌then◌else◌, ltb, leb, length, is_empty, any, take, drop,
  filter_map,
}
use cpa_stg.Base.Map.{is_some}
use cpa_stg.ErrorMapping.Delay.{Bytes}
use cpa_stg.ErrorMapping.{ErrorMapping, map_error, rewrite, is_some_and}
use cpa_stg.Json.{Value, object, string, Fields, end, field, get, index, as_str, is_object}

-- What the source calls of the standard library and of serde_json: `str::from_utf8`,
-- `serde_json::from_str` and `from_slice`, and the bytes of a value that is printed.
pub record Library : Type 0 where
  pub from_utf8 : Bytes → Option String
  pub from_str : String → Option Value
  pub from_slice : Bytes → Option Value
  pub print : Value → Bytes

-- The value is this text.
abbrev is_text : Value → String → Bool
is_text v s = is_some_and (λ t. t == s) (as_str v)

abbrev failed_event : Value → Value
failed_event error = object (
    field "type" (string "response.failed")
      (field "response" (object (field "status" (string "failed") (field "error" error end))) end))

-- `value.get("error")`, if it is an object.
abbrev error_body : Value → Option Value
error_body v = do error ← get v "error"; if is_object error then some error else none

-- `value.pointer("/response/error").is_some_and(Value::is_object)`
abbrev has_error : Value → Bool
has_error v = is_some_and is_object (get v "response" >>= λ response. get response "error")

plain_failure : String → Value
plain_failure message = failed_event (object (field "message" (string message) end))

failure_from : String → Value → Value
unfolding plain_failure
failure_from message v =
    if is_text (index v "type") "response.failed" && has_error v
    then v
    else elim (error_body v) [ none ↦ plain_failure message | some error ↦ failed_event error ]

unfoldable pub failure_from_message : Library → String → Value
unfolding failure_from plain_failure
failure_from_message library message = elim (library.from_str message) [
  | none ↦ plain_failure message
  | some v ↦ failure_from message v
]

-- The UTF-8 bytes of "event: response.failed" and "data: ", each on a line of its own.
abbrev event_line : Bytes
event_line =
    101 ∷ 118 ∷ 101 ∷ 110 ∷ 116 ∷ 58 ∷ 32 ∷ 114 ∷ 101 ∷ 115 ∷ 112 ∷ 111 ∷ 110 ∷ 115 ∷ 101 ∷ 46 ∷ 102
    ∷ 97 ∷ 105 ∷ 108 ∷ 101 ∷ 100 ∷ 10 ∷ []

abbrev data_prefix : Bytes
data_prefix = 100 ∷ 97 ∷ 116 ∷ 97 ∷ 58 ∷ []

unfoldable pub sse : Library → Value → Bytes
sse library event = event_line ++ data_prefix ++ 32 ∷ library.print event ++ 10 ∷ 10 ∷ []

pub record SseMapper : Type 0 where
  pub mapping : ErrorMapping
  pub pending : Bytes
  pub bypass : Bool
  pub scan : ℕ

unfoldable pub new : ErrorMapping → SseMapper
new mapping = record { mapping = mapping; pending = []; bypass = false; scan = 0 }

-- The text behind "data:" and one space in a line.
data_of : String → Option String
unfolding strip_prefix
data_of line = do
  v ← strip_prefix "data:" line
  some (elim (strip_prefix " " v) [ none ↦ v | some w ↦ w ])

-- The failure in an event of a frame, if it is one.
failure_of : Library → String → Value → Option Value
unfolding failure_from_message
failure_of library body v =
    if is_text (index v "type") "response.failed"
    then some v
    else if is_text (index v "type") "error" && is_object (index v "error")
    then some (failure_from_message library body)
    else none

-- The part behind the decoding of the event; `none` inside is a frame that stays as it is.
unfoldable pub mapped_frame : Library → ErrorMapping → Bytes → Option Value → Option Bytes
mapped_frame library mapping frame none = some frame
mapped_frame library mapping frame (some failure) = elim (map_error mapping 0 failure) [
  | none ↦ some frame
  | some mapped ↦ do event ← rewrite mapped failure; some (sse library event)
]

-- The text of the frame's data lines.
abbrev data_text : String → String
data_text text = join_lines (filter_map data_of (lines text))

unfoldable pub event_of : Library → Bytes → Option Value
unfolding data_of failure_of lines join_lines
event_of library frame = do
  text ← library.from_utf8 frame
  v ← library.from_str (data_text text)
  failure_of library (data_text text) v

unfoldable pub rewrite_frame : Library → ErrorMapping → Bytes → Option Bytes
rewrite_frame library mapping frame = mapped_frame library mapping frame (event_of library frame)

-- `[T]::starts_with`, of the second argument.
abbrev pub starts_with : Bytes → Bytes → Bool
starts_with [] bytes = true
starts_with (p ∷ ps) [] = false
starts_with (p ∷ ps) (c ∷ cs) = p == c && starts_with ps cs

-- The length of a frame's end at the start of the bytes, 0 for none.
abbrev pub delimiter : Bytes → ℕ
delimiter bytes =
    if starts_with (13 ∷ 10 ∷ 13 ∷ 10 ∷ []) bytes
    then 4
    else if starts_with (10 ∷ 10 ∷ []) bytes
    then 2
    else 0

-- The loop of `push`: where the unfinished frame starts, and the output. The rewriting of a frame
-- is `f`.
unfoldable pub scan_frames : (Bytes → Option Bytes) → ℕ → Bytes → ℕ → ℕ → Bytes → Option (ℕ × Bytes)
scan_frames f zero pending start cursor output = none
scan_frames f (suc fuel) pending start cursor output = elim (leb (length pending) cursor) [
  | true ↦ some (start, output)
  | false ↦ elim (delimiter (drop cursor pending)) [
    | zero ↦ scan_frames f fuel pending start (cursor + 1) output
    | suc n ↦
        let over = cursor + suc n in
        do
          rewritten ← f (take (over - start) (drop start pending))
          scan_frames f fuel pending over over (output ++ rewritten)
  ]
]

abbrev pub max_pending : ℕ
max_pending = 1024 * 1024

-- The part of `push` behind the loop.
unfoldable pub keep_rest : SseMapper → Bytes → ℕ × Bytes → SseMapper × Bytes
keep_rest m pending (start, output) =
    let rest = drop start pending in
    if ltb max_pending (length rest)
    then (record m { pending = []; bypass = true; scan = length rest - 3 }, output ++ rest)
    else (record m { pending = rest; scan = length rest - 3 }, output)

unfoldable pub push : Library → SseMapper → Bytes → Option (SseMapper × Bytes)
push library m bytes = if m.bypass then some (m, bytes) else do
  result ←
      scan_frames (rewrite_frame library m.mapping) (length (m.pending ++ bytes) + 1)
        (m.pending ++ bytes) 0 m.scan []
  some (keep_rest m (m.pending ++ bytes) result)

unfoldable pub finish : SseMapper → SseMapper × Bytes
finish m = (record m { scan = 0; pending = [] }, m.pending)

-- `[T]::strip_prefix`
strip_bytes : Bytes → Bytes → Option Bytes
strip_bytes [] bytes = some bytes
strip_bytes (p ∷ ps) [] = none
strip_bytes (p ∷ ps) (c ∷ cs) = if p == c then strip_bytes ps cs else none

-- A data line of the host that is whole: the end marker, or JSON.
is_whole : Library → Bytes → Bool
unfolding trim
is_whole library body =
    trim (elim (library.from_utf8 body) [ none ↦ "" | some text ↦ text ]) == "[DONE]"
    || is_some (library.from_slice body)

-- The bytes that `push_host_chunk` passes to `push`.
unfoldable pub host_record : Library → Bytes → Bytes
unfolding strip_bytes is_whole
host_record library bytes =
    if any (λ c. c == 10 || c == 13) bytes then bytes else elim (strip_bytes data_prefix bytes) [
      | some body ↦ if is_whole library body then bytes ++ 10 ∷ 10 ∷ [] else bytes
      | none ↦
          if starts_with (101 ∷ 118 ∷ 101 ∷ 110 ∷ 116 ∷ 58 ∷ []) bytes
          then bytes ++ 10 ∷ []
          else bytes
    ]

unfoldable pub push_host_chunk : Library → SseMapper → Bytes → Option (SseMapper × Bytes)
push_host_chunk library m bytes = push library m (host_record library bytes)
