-- ===== src/Router/Pump/Relay.antt =====
-- The worker of src/router.rs: that it does not panic, and what reaches the downstream.
use cpa_stg.Base.Result.{Result, ok, err}
use cpa_stg.Base.{String, Bool, true, Option, none, some, List, [], ◌++◌, ◌≡◌, any}
use cpa_stg.ErrorMapping.Delay.{Bytes}
use cpa_stg.ErrorMapping.Sse.{SseMapper, failure_from_message, sse}
use cpa_stg.ErrorMapping.{ErrorMapping, RetryableError, map_error, rewrite}
use cpa_stg.Host.{Fault, new_fault, Host, Journal, decode_reply}
use cpa_stg.Json.{Value, index, as_str}
use cpa_stg.Router.Pump.Fed.{Fed, whole}
use cpa_stg.Router.Pump.Traffic.{sent, received, terminal}
use cpa_stg.Router.Pump.{Pumped, ended, running}
use cpa_stg.Router.{Codec}

module _ (c : Codec) (host : Host) (mapping : ErrorMapping) (nested downstream : String)
    (flags : List Bool) where
  -- What downstream gets of the payloads so far when nothing is left out.
  abbrev pub complete_output : Journal → Bytes
  complete_output j = whole c.library mapping (received c host nested j)

  abbrev pub FedTo : Journal → SseMapper → Type 0
  FedTo j m = Fed c.library mapping (received c host nested j) m (sent c downstream j)

  -- What downstream gets behind the payloads, by the terminal error in the host's last answer: the
  -- rewritten event of an error that is mapped, and nothing where there is no error.
  pub data Terminal : Option String → Bytes → Type 0 where
    no_error : Terminal none []
    mapped_error :
        (message : String) (mapped : RetryableError) (event : Value)
        → map_error mapping 0 (failure_from_message c.library message) ≡ some mapped
        → rewrite mapped (failure_from_message c.library message) ≡ some event
        → Terminal (some message) (sse c.library event)

  -- Why the loop fails: the host has refused the newest call, or it has answered with a payload that
  -- is not in base64, or with a terminal error that is not mapped.
  pub data Cause (j : Journal) : Fault → Type 0 where
    refused : (fault : Fault) → decode_reply c.library (host.reply j) ≡ err fault → Cause j fault
    garbled :
        (chunk : Value) (text : String)
        → decode_reply c.library (host.reply j) ≡ ok chunk
        → as_str (index chunk "payload") ≡ some text
        → c.decode text ≡ none
        → Cause j (new_fault "Invalid host stream encoding")
    unmapped :
        (message : String)
        → terminal c host nested j ≡ some message
        → map_error mapping 0 (failure_from_message c.library message) ≡ none
        → Cause j (new_fault message)

  -- What was sent, by how the loop stands.
  pub data Relayed : Pumped → Type 0 where
    on_its_way : {j : Journal} {m : SseMapper} → FedTo j m → Relayed (running j m)
    done :
        {j : Journal} (event : Bytes)
        → Terminal (terminal c host nested j) event
        → sent c downstream j ≡ complete_output j ++ event
        → Relayed (ended j (ok tt))
    halted :
        {j : Journal} (rest : Bytes)
        → any (λ flag. flag) flags ≡ true
        → sent c downstream j ++ rest ≡ complete_output j
        → Relayed (ended j (ok tt))
    failed :
        {j : Journal} (fault : Fault) (event : Bytes)
        → Terminal (terminal c host nested j) event
        → sent c downstream j ≡ complete_output j ++ event
        → Cause j fault
        → Relayed (ended j (err fault))
    broken :
        {j : Journal} (fault : Fault) (rest : Bytes)
        → sent c downstream j ++ rest ≡ complete_output j
        → Cause j fault
        → Relayed (ended j (err fault))

  -- It returns, and what was sent is right.
  abbrev pub Leads : Option Pumped → Type 0
  Leads o = (s : Pumped) × (o ≡ some s) × Relayed s
