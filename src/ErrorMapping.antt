-- ===== src/ErrorMapping.antt =====
-- src/error_mapping.rs: the rules of the error mapping, their validation, the choice of a rule
-- for a failure event and the rewriting of the event. A `Duration` is a number of nanoseconds.
pub mod Delay
pub mod Sse
pub mod Rewrite
mod Tests
use text.Mathlib.Text.{find?}
use cpa_stg.Base.Map.{is_some}
use cpa_stg.Base.Partial
use cpa_stg.Base.Partial.{◌>>=◌}
use cpa_stg.Base.Result.{Result, ok, err}
use cpa_stg.Base.Text.{byte_len, is_empty_text, trim}
use cpa_stg.Base.{
  ℕ, ◌*◌, ◌/◌, ◌%◌, ◌^◌, String, Bool, true, false, not, ◌&&◌, ◌||◌, Option, none, some, List, [],
  ◌∷◌, ◌++◌, ◌==◌, ℕ_eq, string_eq, if◌then◌else◌, ltb, leb, length, is_empty, any,
}
use cpa_stg.Json.{
  Value, number, unsigned, string, object, Fields, end, field, get, get_field, set_index, index,
  as_str, as_object,
}

abbrev pub retryable_code : String
retryable_code = "cpa_retryable"

pub record RetryableError : Type 0 where
  pub message : String
  pub delay : Option ℕ

pub record ErrorMatch : Type 0 where
  pub codes : List String
  pub types : List String
  pub http_statuses : List ℕ
  pub message_contains : Option String

pub record ErrorRule : Type 0 where
  pub name : String
  pub matcher : ErrorMatch
  pub retryable : RetryableError

pub record ErrorMapping : Type 0 where
  pub enabled : Bool
  pub rules : List ErrorRule

abbrev pub default_mapping : ErrorMapping
default_mapping = record { enabled = false; rules = [] }

-- `is_some_and`
abbrev pub is_some_and {ℓ} : {A : Type ℓ} → (A → Bool) → Option A → Bool
is_some_and p none = false
is_some_and p (some a) = p a

-- `is_none_or`
abbrev is_none_or {ℓ} : {A : Type ℓ} → (A → Bool) → Option A → Bool
is_none_or p none = true
is_none_or p (some a) = p a

abbrev second : ℕ
second = 1_000_000_000

-- `needle` stands somewhere in `s`.
abbrev pub contains : String → String → Bool
contains s needle = is_some (find? s needle)

abbrev bad_text : ℕ → String → Bool
bad_text limit v = is_empty_text v || ltb limit (byte_len v)

validate_name : List String → ErrorRule → Bool
validate_name names rule =
    not (is_empty_text (trim rule.name))
    && leb (byte_len rule.name) 128
    && not (any (λ n. n == rule.name) names)

validate_condition : ErrorMatch → Bool
validate_condition m = not (
    is_empty m.codes
    && is_empty m.types
    && is_empty m.http_statuses
    && not (is_some m.message_contains))

validate_limits : ErrorMatch → Bool
validate_limits m = not (
    ltb 64 (length m.codes)
    || ltb 64 (length m.types)
    || ltb 200 (length m.http_statuses)
    || any (bad_text 256) (m.codes ++ m.types)
    || any (λ s. not (leb 400 s && leb s 599)) m.http_statuses
    || is_some_and (bad_text 4096) m.message_contains)

validate_message : RetryableError → Bool
validate_message r = not (is_empty_text (trim r.message) || ltb 4096 (byte_len r.message))

validate_delay : RetryableError → Bool
validate_delay r =
    not (is_some_and (λ d. ltb (300 * second) d || not (d % second % 1_000_000 == 0)) r.delay)
  where
    open r use {delay}

-- The checks of one rule, in the order of the source; `names` holds the names seen before it.
validate_rule : List String → ErrorRule → Result String (Unit {0})
unfolding validate_name validate_condition validate_limits validate_message validate_delay
validate_rule names rule =
    if not (validate_name names rule)
    then err "error mapping rule names must be nonempty, unique, and at most 128 bytes"
    else if not (validate_condition rule.matcher)
    then err "error mapping requires at least one match condition"
    else if not (validate_limits rule.matcher)
    then err "invalid error mapping match condition"
    else if not (validate_message rule.retryable)
    then err "retryable message must be nonempty and at most 4096 bytes"
    else if not (validate_delay rule.retryable)
    then err "retryable delay must use millisecond precision and not exceed 5 minutes"
    else ok tt

-- `for rule in &self.rules`
unfoldable pub validate_rules : List String → List ErrorRule → Result String (Unit {0})
unfolding validate_rule
validate_rules names [] = ok tt
validate_rules names (rule ∷ rules) =
    let rest = validate_rules (rule.name ∷ names) rules in
    elim (validate_rule names rule) [ ok _ ↦ rest | err e ↦ err e ]

unfoldable pub validate : ErrorMapping → Result String (Unit {0})
unfolding validate_rules
validate m =
    if ltb 128 (length m.rules)
    then err "error_mapping supports at most 128 rules"
    else if m.enabled && is_empty m.rules
    then err "enabled error_mapping requires rules"
    else validate_rules [] m.rules

-- A text field of the error object is in the list, or the list is empty.
matches_text : List String → Option Value → Bool
matches_text wanted found =
    is_empty wanted || is_some_and (λ s. any (λ c. c == s) wanted) (found >>= as_str)

unfoldable pub matches : ErrorMatch → ℕ → Fields → Bool
unfolding matches_text
matches m status error =
    matches_text m.codes (get_field error "code")
    && matches_text m.types (get_field error "type")
    && (is_empty m.http_statuses || any (λ s. s == status) m.http_statuses)
    && is_none_or
        (λ needle. is_some_and (λ s. contains s needle) (get_field error "message" >>= as_str))
        m.message_contains

-- `rules.iter().find(..).map(..)`
unfoldable pub find_rule : List ErrorRule → ℕ → Fields → Option RetryableError
find_rule [] status error = none
find_rule (rule ∷ rules) status error =
    if matches rule.matcher status error then some rule.retryable else find_rule rules status error

-- `failure.pointer("/response/error")?.as_object()?`
unfoldable pub error_object : Value → Option Fields
error_object failure = do
  response ← get failure "response"
  error ← get response "error"
  as_object error

unfoldable pub is_mapped : Fields → Bool
is_mapped error = is_some_and (λ c. c == retryable_code) (get_field error "code" >>= as_str)

-- The part behind the event's type.
unfoldable pub map_failed : ErrorMapping → ℕ → Value → String → Option RetryableError
map_failed m status failure kind = do
  error ← (if kind == "response.failed" then error_object failure else none)
  if is_mapped error then none else find_rule m.rules status error

unfoldable pub map_error : ErrorMapping → ℕ → Value → Option RetryableError
map_error m status failure =
    if not m.enabled
    then none
    else do kind ← get failure "type"; name ← as_str kind; map_failed m status failure name

-- The last field of the detail, if there is a delay.
abbrev pub retry_after : Option ℕ → Fields
retry_after none = end
retry_after (some d) = field "retry_after_ms" (number (unsigned (d / 1_000_000 % 2 ^ 64))) end

unfoldable pub detail : RetryableError → Fields
detail r = field "type" (string "server_error") (
    field "code" (string retryable_code) (field "message" (string r.message) (retry_after r.delay)))

-- `failure["response"][key] = v`; `none` is a panic.
unfoldable pub set_response : Value → String → Value → Option Value
set_response failure key v = do
  response ← set_index (index failure "response") key v
  set_index failure "response" response

unfoldable pub rewrite : RetryableError → Value → Option Value
rewrite r failure = do
  failure' ← set_response failure "error" (object (detail r))
  set_response failure' "status" (string "failed")
