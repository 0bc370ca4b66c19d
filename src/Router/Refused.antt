-- ===== src/Router/Refused.antt =====
-- src/router.rs: a request whose stream the host does not open.
use cpa_stg.Base.Result.{Result, ok, err}
use cpa_stg.Base.{ℕ, suc, ap, Bool, true, none, some, ◌≡◌, refl, inl, inr, Option-cases}
use cpa_stg.ErrorMapping.Rewrite.{map_error-rewrite, rewrite-map_error}
use cpa_stg.ErrorMapping.Sse.{failure_from_message, sse}
use cpa_stg.ErrorMapping.{ErrorMapping, RetryableError, map_error, rewrite, detail, is_mapped}
use cpa_stg.Host.{Fault, Host, Journal}
use cpa_stg.Json.{Value, array, cons, nil, string, object, field, end, index, get}
use cpa_stg.Engine.{minus_one}
use cpa_stg.Router.Execute.{Prepared, settled, settle, fail_open, single_event}
use cpa_stg.Router.{Worker, Router, Codec}

module _ (c : Codec) (host : Host) (finished : Worker → Bool) (spawned : Bool) (p : Prepared)
    (fault : Fault) where
  -- The event that stands for the fault's message.
  abbrev pub failure : Value
  failure = failure_from_message c.library fault.message

  -- What the request answers: the fault, or one event that tells to try again.
  pub data Refusal : Result Fault Value → Type 0 where
    reported : map_error p.mapping fault.status failure ≡ none → Refusal (err fault)
    retried :
        (mapped : RetryableError) (event : Value)
        → map_error p.mapping fault.status failure ≡ some mapped
        → rewrite mapped failure ≡ some event
        → is_mapped (detail mapped) ≡ true
        → ((later : ErrorMapping) (status : ℕ) → map_error later status event ≡ none)
        → (answer : Value)
        → index (index answer "headers") "Content-Type"
          ≡ array (cons (string "text/event-stream") nil)
        → index answer "chunks"
          ≡ array
              (cons (object (field "Payload" (string (c.encode (sse c.library event))) end)) nil)
        → Refusal (ok answer)

  fail_open-Refusal :
      (result : Result Fault Value) × (fail_open c host finished spawned p fault ≡ some result)
      × Refusal result
  unfolding fail_open single_event index get
  fail_open-Refusal = elim (Option-cases (map_error p.mapping fault.status failure)) [
    | inl h ↦ rw (h, fail_open) (err fault, refl, reported h)
    | inr (mapped, h) ↦
        let (event, done, _, marked, _) =
          map_error-rewrite p.mapping fault.status failure mapped p.mapping 0 h in
        rw (h, done, fail_open)
          (
            _,
            refl,
            retried mapped event h done marked
                (λ later status. rewrite-map_error mapped failure later status done)
                (single_event c (sse c.library event)) refl refl,
          )
  ]

  -- When the host does not open the stream of a request that holds a slot, the execution returns,
  -- the count of active executions is one less, and nothing else of the router changes; it calls
  -- the host no more and starts no thread. It answers the host's fault, or, where a rule of the
  -- request's mapping takes the fault with its status, an event stream of one chunk: the event that
  -- is rewritten by that rule, marked as retryable and mapped by no later mapping.
  pub settle-Refusal :
      (r : Router) (j : Journal) (n : ℕ)
      → r.active ≡ suc n
      → (result : Result Fault Value) × (settle c host finished spawned r j p (err fault)
          ≡ some (record {
            router = record r { active = n };
            journal = j;
            started = none;
            result = result;
          }))
        × Refusal result
  unfolding settle settled
  settle-Refusal r j n held =
      let (result, h, refusal) = fail_open-Refusal in
      let freed : minus_one r.active ≡ n = ap minus_one held in
      (
        result,
        rw (h, settle)
            (ap
              (λ (k : ℕ). some (record {
                router = record r { active = k };
                journal = j;
                started = none;
                result = result;
              }))
              freed),
        refusal,
      )
