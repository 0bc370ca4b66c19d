-- ===== src/Plugin.antt =====
-- src/lib.rs: the entry points of the plugin, `cliproxy_plugin_init` and `plugin_call`. Which
-- handler serves a call is the build's choice, so it is a parameter, and so is the state that a
-- panic leaves. What is written to the host's memory is here the value that is printed there.
pub mod Named
pub mod Guard
pub mod Failure
pub mod Buffers
pub mod Routed
mod Tests
use cpa_stg.Base.Text.{starts_text}
use cpa_stg.Base.{
  ℕ, ◌*◌, String, Bool, true, false, not, ◌&&◌, ◌||◌, Option, none, some, List, [], ◌∷◌, ◌==◌, ℕ_eq,
  if◌then◌else◌, ltb,
}
use cpa_stg.ErrorMapping.Delay.{Bytes}
use cpa_stg.Json.{Value, bool, number, unsigned, string, object, end, field}
use cpa_stg.Protocol.Envelope.{Printer, terminate}
use cpa_stg.Protocol.Handle.{Answer, answered, blocked}

abbrev abi_version : ℕ
abi_version = 1

abbrev max_request_bytes : ℕ
max_request_bytes = 64 * 1024 * 1024

-- `CliproxyHostApi`, as far as it is read: whether the two functions are there.
pub record HostApi : Type 0 where
  pub abi_version : ℕ
  pub call : Bool
  pub free_buffer : Bool

-- `host::install`, where `installed` is whether a table is kept already: whether one is kept
-- afterwards, and whether the call succeeds.
unfoldable pub install : Bool → HostApi → Bool × Bool
install installed api =
    if not api.call || not api.free_buffer then (installed, false) else (true, not installed)

-- `cliproxy_plugin_init` of a build with or without the router: whether a host table is kept
-- afterwards, whether the plugin's table is written, and the code.
unfoldable pub plugin_init : Bool → Bool → Option HostApi → Bool → Bool × Bool × ℕ
plugin_init router installed none plugin_null = (installed, false, 1)
plugin_init router installed (some api) plugin_null =
    if plugin_null || not (api.abi_version == abi_version)
    then (installed, false, 1)
    else if router
    then (let (installed', done) = install installed api in
        if done then (installed', true, 0) else (installed', false, 1))
    else (installed, true, 0)

-- A method's name that is not UTF-8 is `some none`. A request that is no null pointer has
-- `request_len` bytes.
pub record Incoming : Type 0 where
  pub method : Option (Option String)
  pub request : Option Bytes
  pub request_len : ℕ
  pub response_null : Bool

-- The call returns 1, or it returns 0 and has written a value, or its thread waits:
-- until a time, or without one.
pub data Called (S : Type 0) : Type 0 where
  failed : S → Called S
  wrote : S → Value → Called S
  waits : S → Option ℕ → Called S

abbrev pub is_null : Option Bytes → Bool
is_null none = true
is_null (some bytes) = false

unfoldable pub oversized : Incoming → Bool
oversized x = ltb max_request_bytes x.request_len || is_null x.request && not (x.request_len == 0)

abbrev or_nil : Option Bytes → Bytes
or_nil none = []
or_nil (some bytes) = bytes

unfoldable pub raw_of : Incoming → Bytes
raw_of x = if x.request_len == 0 then [] else or_nil x.request

abbrev pub intercepts : String → Bool
intercepts method = starts_text "request.intercept_" method

abbrev limit_message : String
limit_message = "Plugin payload exceeds the 64 MiB limit or is invalid"

unfoldable pub limit_error : Value
limit_error = object (
    field "ok" (bool false) (
      field "error"
        (object (
          field "code" (string "cpa_payload_limit") (
            field "message" (string limit_message)
              (field "http_status" (number (unsigned 413)) end))))
        end))

unfoldable pub internal_error : Value
internal_error = object (
    field "ok" (bool false) (
      field "error"
        (object (
          field "code" (string "cpa_internal_error")
            (field "message" (string "Policy plugin stopped") end)))
        end))

module _ (p : Printer) {S : Type 0} (serve : S → String → Bytes → Option (S × Answer))
    (halt : S → S) (left_by_panic : S) where
  abbrev pub over_limit : String → Value
  over_limit method =
      if intercepts method then terminate p 413 "cpa_payload_limit" limit_message else limit_error

  -- What runs under `catch_unwind`.
  unfoldable pub attempt : S → String → Incoming → Option (S × Answer)
  attempt s method x =
      if oversized x then some (s, answered (over_limit method)) else serve s method (raw_of x)

  abbrev pub after_panic : String → Value
  after_panic method =
      if intercepts method
      then terminate p 503 "cpa_internal_error" "Policy plugin stopped after an internal failure"
      else internal_error

  -- A panic stops the engine.
  unfoldable pub conclude : String → Option (S × Answer) → Called S
  conclude method none = wrote (halt left_by_panic) (after_panic method)
  conclude method (some (s, answered v)) = wrote s v
  conclude method (some (s, blocked deadline)) = waits s deadline

  unfoldable pub plugin_call : S → Incoming → Called S
  plugin_call s x = if x.response_null then failed s else elim x.method [
    | none ↦ failed s
    | some name ↦ elim name [ none ↦ failed s | some method ↦ conclude method (attempt s method x) ]
  ]
