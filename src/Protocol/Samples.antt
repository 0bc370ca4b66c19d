-- ===== src/Protocol/Samples.antt =====
-- Requests of src/protocol.rs to try its calls on.
use cpa_stg.Base.{true, none, some, List, [], ◌∷◌, ◌==◌, string_eq, ℕ_eq, if◌then◌else◌}
use cpa_stg.Engine.System.{completes}
use cpa_stg.ErrorMapping.Delay.{Bytes}
use cpa_stg.Float.Fixed.{fixed}
use cpa_stg.Json.{null, string, object, field, end}
use cpa_stg.Protocol.Handle.{mark_headers}
use cpa_stg.Protocol.{Codec, Request}
use cpa_stg.Runtime.{Round}

abbrev pub outer : Request
outer = record {
  id = "a";
  metadata = object (field "selected_auth_id" (string "one") end);
  source_format = "openai-response";
  stream = true;
  headers = null;
}

-- What the host makes on behalf of the plugin for "a".
abbrev pub inner : Request
inner = record {
  id = "c";
  metadata = object (field "source" (string "plugin_host_model_callback") end);
  source_format = "openai-response";
  stream = true;
  headers = mark_headers "a";
}

-- A payload is one byte here: 1 is `outer`, and any other `inner`.
abbrev pub codec : Codec
codec = record {
  read_registration = λ raw. some (record { schema_version = 2; config_yaml = none });
  read_request = λ raw. elim raw [ [] ↦ none | b ∷ _ ↦ some (if b == 1 then outer else inner) ];
  decode = λ text. some [];
  from_yaml = λ raw. none;
  printer = record { print = λ v. 123 ∷ []; encode = λ bytes. "ew==" };
}

abbrev pub raw : Bytes
raw = 1 ∷ []

abbrev pub wakes : List Round
wakes = (completes "b" ∷ [], 8) ∷ []
