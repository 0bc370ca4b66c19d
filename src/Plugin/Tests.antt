-- ===== src/Plugin/Tests.antt =====
-- A call of src/lib.rs that waits and is served, on a small engine.
use cpa_stg.Base.{ℕ, String, false, Option, none, some, [], ◌∷◌, ◌≡◌, refl}
use cpa_stg.Base.Memory.{unused, get-unused}
use cpa_stg.Plugin.Buffers.{Responds, plugin_call_in, plugin_call_in-free}
use cpa_stg.Engine.Samples.{contended, contended-Inv}
use cpa_stg.Engine.{stop}
use cpa_stg.Float.Fixed.{fixed}
use cpa_stg.Plugin.Guard.{Guarded, serve, after_choice, plugin_call-Guarded}
use cpa_stg.ErrorMapping.Delay.{Bytes}
use cpa_stg.Json.{Value}
use cpa_stg.Plugin.Failure.{Refused, panics, plugin_call-Refused}
use cpa_stg.Protocol.Handle.{Answer}
use cpa_stg.Plugin.{Incoming, plugin_call, wrote, oversized}
use cpa_stg.Protocol.Samples.{codec, raw, wakes}

abbrev incoming : Incoming
incoming = record {
  method = some (some "request.intercept_after");
  request = some raw;
  request_len = 1;
  response_null = false;
}

plugin_call-Guarded_example : Guarded codec contended 6 wakes incoming contended after_choice (
    plugin_call codec.printer
      (serve codec contended 6 wakes incoming contended)
      stop
      contended
      contended
      incoming)
plugin_call-Guarded_example =
    plugin_call-Guarded codec contended 6 wakes incoming contended after_choice contended-Inv refl
      refl

-- A handler that panics.
abbrev panicking : ℕ → String → Bytes → Option (ℕ × Answer)
panicking s method bytes = none

abbrev execution : Incoming
execution = record {
  method = some (some "executor.execute_stream");
  request = some raw;
  request_len = 1;
  response_null = false;
}

abbrev halt : ℕ → ℕ
halt s = 0

within_limit : oversized execution ≡ false
unfolding oversized
within_limit = refl

plugin_call-Refused_example :
    (v : Value) × (plugin_call codec.printer panicking halt 5 7 execution ≡ wrote 0 v)
    × Refused "executor.execute_stream" v
plugin_call-Refused_example =
    plugin_call-Refused codec.printer panicking halt 5 7 0 execution "executor.execute_stream" refl
      refl (panics within_limit refl)

plugin_call_in-free_example :
    Responds unused codec.printer.print
      ((0, 7 ∷ []) ∷ [])
      (plugin_call codec.printer panicking halt 5 7 execution)
      (plugin_call_in unused codec.printer.print codec.printer panicking halt 5
        ((0, 7 ∷ []) ∷ [])
        7
        execution)
plugin_call_in-free_example =
    plugin_call_in-free codec.printer panicking halt 5 unused ((0, 7 ∷ []) ∷ [])
      (get-unused ((0, 7 ∷ []) ∷ [])) 7 execution
