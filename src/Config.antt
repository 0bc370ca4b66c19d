-- ===== src/Config.antt =====
-- src/config.rs: the policies, their defaults and their validation. What serde_yaml does is a
-- parameter of `parse`.
pub mod Valid
use cpa_stg.Base.Int.{ℤ, pos}
use cpa_stg.Base.Map.{Map, get, size}
use cpa_stg.Base.Result.{Result, ok, err, ◌>>=◌, ◌>>◌}
use cpa_stg.Base.Text.{byte_len, is_empty_text, trim}
use cpa_stg.Base.{
  ℕ, String, Bool, true, not, ◌&&◌, ◌||◌, Option, none, some, [], ◌∷◌, ◌==◌, ℕ_eq, string_eq,
  if◌then◌else◌, ltb, leb, is_empty,
}
use cpa_stg.ErrorMapping.Delay.{Bytes}
use cpa_stg.ErrorMapping.{ErrorMapping, default_mapping}
use cpa_stg.ErrorMapping
use cpa_stg.Json.{Value}

pub record Policy : Type 0 where
  pub enabled : Bool
  pub requests_per_minute : ℕ
  pub burst : ℕ
  pub max_concurrency : ℕ
  pub max_queue : ℕ
  pub queue_timeout_ms : ℕ

abbrev pub default_policy : Policy
default_policy = record {
  enabled = true;
  requests_per_minute = 60;
  burst = 1;
  max_concurrency = 2;
  max_queue = 100;
  queue_timeout_ms = 30_000;
}

unfoldable pub validate_policy : Policy → Result String (Unit {0})
validate_policy p =
    if p.burst == 0 || ltb 1_000_000 p.burst
    then err "burst must be between 1 and 1000000"
    else if ltb 60_000_000 p.requests_per_minute
    then err "requests_per_minute exceeds 60000000"
    else if ltb 100_000 p.max_concurrency || ltb 100_000 p.max_queue
    then err "max_concurrency and max_queue must not exceed 100000"
    else if p.queue_timeout_ms == 0 || ltb 300_000 p.queue_timeout_ms
    then err "queue_timeout_ms must be between 1 and 300000"
    else ok tt

pub record CredentialPolicies : Type 0 where
  pub default : Policy
  pub overrides : Map String Policy

pub record Config : Type 0 where
  pub enabled : Bool
  pub priority : ℤ
  pub store : Option Value
  pub max_tracked_requests : ℕ
  pub max_credentials : ℕ
  pub credentials : CredentialPolicies
  pub error_mapping : ErrorMapping
  pub api_keys : Map String Value

abbrev pub default_config : Config
default_config = record {
  enabled = true;
  priority = pos 100;
  store = none;
  max_tracked_requests = 10_000;
  max_credentials = 10_000;
  credentials = record { default = default_policy; overrides = [] };
  error_mapping = default_mapping;
  api_keys = [];
}

unfoldable pub valid_identifier : String → Bool
valid_identifier id = not (is_empty_text id || not (trim id == id) || ltb 1024 (byte_len id))

-- `for (id, policy) in &self.credentials.overrides`
unfoldable pub validate_overrides : Map String Policy → Result String (Unit {0})
validate_overrides [] = ok tt
validate_overrides ((id, policy) ∷ rest) =
    let later = validate_overrides rest in
    if valid_identifier id
    then validate_policy policy >>= (λ _. later)
    else err "invalid credential override identifier"

unfoldable pub in_range : ℕ → Bool
in_range n = leb 1 n && leb n 100_000

unfoldable pub validate_limits : Config → Result String (Unit {0})
validate_limits c =
    if not (is_empty c.api_keys)
    then err "api_keys policies are reserved and not implemented in phase one"
    else if not (in_range c.max_tracked_requests) || not (in_range c.max_credentials)
    then err "tracking limits must be between 1 and 100000"
    else ok tt

unfoldable pub validate_count : Config → Result String (Unit {0})
validate_count c =
    if ltb c.max_credentials (size c.credentials.overrides)
    then err "too many credential overrides"
    else ok tt

unfoldable pub validate : Config → Result String (Unit {0})
validate c = do
  ErrorMapping.validate c.error_mapping
  validate_limits c
  validate_policy c.credentials.default
  validate_count c
  validate_overrides c.credentials.overrides

-- `from_yaml` is `serde_yaml::from_slice`, `none` for its error.
unfoldable pub parse : (Bytes → Option Config) → Bytes → Result String Config
parse from_yaml yaml = do
  config ←
      (if is_empty yaml
        then ok default_config
        else elim (from_yaml yaml) [ none ↦ err "invalid policy YAML" | some c ↦ ok c ])
  validate config
  ok config

abbrev or_default : Policy → Option Policy → Policy
or_default p none = p
or_default p (some q) = q

-- The policy in force for a credential: its own or the default one, off where all is off.
unfoldable pub policy : Config → String → Policy
policy c credential =
    let found = or_default c.credentials.default (get credential c.credentials.overrides) in
    record found { enabled = found.enabled && c.enabled }
