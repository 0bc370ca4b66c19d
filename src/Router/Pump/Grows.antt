-- ===== src/Router/Pump/Grows.antt =====
-- The rounds and the end of a worker of src/router.rs, and the calls that close a stream.
use cpa_stg.Base.Partial.{◌>>=◌}
use cpa_stg.Base.Result.{Result, ok, err}
use cpa_stg.Base.{
  ◌+◌, ◌≤◌, String, true, Option, none, some, ◌≡◌, inl, inr, string_eq, arith, if_cases,
  Option-cases,
}
use cpa_stg.ErrorMapping.Delay.{Bytes}
use cpa_stg.ErrorMapping.Sse.{SseMapper, finish, failure_from_message, push_host_chunk, sse}
use cpa_stg.ErrorMapping.{ErrorMapping, map_error, rewrite}
use cpa_stg.Host.{Fault, Host, Journal, call}
use cpa_stg.Json.{Value, index, as_str, is_true}
use cpa_stg.Router.Pump.{
  Pumped, ended, running, send_failure, end_failed, keep, send_payload, stop_at, after_payload,
  take_chunk, round, leave, farewell,
}
use cpa_stg.Router.{Emitted, Codec, text_field, stream_id, close, emit}
use cpa_stg.Router.Closings.{
  closes, Grows, call-Grows, close-Grows, close-closes, emit-Grows, Grows-trans, stays,
}

abbrev pub journal_of : Pumped → Journal
journal_of (ended j r) = j
journal_of (running j m) = j

-- If the step returns, the journal that it leaves has grown.
abbrev pub Later {ℓ} : {A : Type ℓ} → (A → Journal) → Journal → Option A → Type 0
Later at j none = Unit
Later at j (some a) = Grows j (at a)

abbrev pub written {ℓ} : {A : Type ℓ} → Journal × A → Journal
written (j, a) = j

module _ (c : Codec) (host : Host) (mapping : ErrorMapping) (nested downstream : String) where
  emits : (j : Journal) (payload : Bytes) → Grows j (emit c host j downstream payload).0
  emits j payload = emit-Grows c host j downstream payload

  event-Later :
      (j : Journal) (o : Option Value)
      → Later written j (do event ← o; some (emit c host j downstream (sse c.library event)))
  event-Later j none = tt
  event-Later j (some event) = emits j (sse c.library event)

  send_failure-Later :
      (j : Journal) (message : String)
      → Later written j (send_failure c host mapping nested downstream j message)
  unfolding send_failure
  send_failure-Later j message =
      let failure = failure_from_message c.library message in
      elim (Option-cases (map_error mapping 0 failure)) [
        | inl h ↦ rw (h, send_failure) (stays j)
        | inr (mapped, h) ↦ rw (h, send_failure) (event-Later j (rewrite mapped failure))
      ]

  Later-trans :
      {A : Type 0} (at : A → Journal) (i j : Journal) (o : Option A)
      → Grows i j
      → Later at j o
      → Later at i o
  Later-trans at i j none g h = tt
  Later-trans at i j (some a) g h = Grows-trans i j (at a) g h

  after_finish :
      (j : Journal) (r : Emitted) (message : String)
      → Grows j r.0
      → Later written j (elim r.1 [
        | err fault ↦ some (r.0, err fault)
        | ok _ ↦ send_failure c host mapping nested downstream r.0 message
      ])
  after_finish j (j', err fault) message g = g
  after_finish j (j', ok u) message g = Later-trans written j j' _ g (send_failure-Later j' message)

  end_failed-Later :
      (j : Journal) (m : SseMapper) (message : String)
      → Later written j (end_failed c host mapping nested downstream j m message)
  unfolding end_failed
  end_failed-Later j m message =
      after_finish j (emit c host j downstream (finish m).1) message (emits j (finish m).1)

  kept-Later :
      (j : Journal) (m : SseMapper) (r : Emitted)
      → Grows j r.0
      → Grows j (keep c host mapping nested downstream m r).0
  kept-Later j m (j', ok u) g = g
  kept-Later j m (j', err fault) g = g

  pushed-Later :
      (j : Journal) (o : Option (SseMapper × Bytes))
      → Later written j (do
        (m', out) ← o
        some (keep c host mapping nested downstream m' (emit c host j downstream out)))
  pushed-Later j none = tt
  pushed-Later j (some (m', out)) = kept-Later j m' (emit c host j downstream out) (emits j out)

  send_payload-Later :
      (j : Journal) (m : SseMapper) (o : Option String)
      → Later written j (send_payload c host mapping nested downstream j m o)
  unfolding send_payload
  send_payload-Later j m none = stays j
  send_payload-Later j m (some encoded) = elim (Option-cases (c.decode encoded)) [
    | inl h ↦ rw (h, send_payload) (stays j)
    | inr (bytes, h) ↦ rw (h, send_payload) (pushed-Later j (push_host_chunk c.library m bytes))
  ]

  stop_at-Grows :
      (j : Journal) (r : Emitted)
      → Grows j r.0
      → Grows j (journal_of (stop_at c host mapping nested downstream r))
  stop_at-Grows j (j', r) g = g

  after_payload-Grows :
      (chunk : Value) (r : Journal × Result Fault SseMapper)
      → Grows r.0 (journal_of (after_payload c host mapping nested downstream chunk r))
  unfolding after_payload
  after_payload-Grows chunk (j, err fault) = stays j
  after_payload-Grows chunk (j, ok m) =
      if_cases (λ s. Grows j (journal_of s)) (is_true (index chunk "done")) _ _
        (λ last. stop_at-Grows j (emit c host j downstream (finish m).1) (emits j (finish m).1))
        (λ more. stays j)

  stopped-Later :
      (j : Journal) (o : Option Emitted)
      → Later written j o
      → Later journal_of j (do r ← o; some (stop_at c host mapping nested downstream r))
  stopped-Later j none g = tt
  stopped-Later j (some r) g = stop_at-Grows j r g

  sent-Later :
      (j : Journal) (chunk : Value) (o : Option (Journal × Result Fault SseMapper))
      → Later written j o
      → Later journal_of j (do r ← o; some (after_payload c host mapping nested downstream chunk r))
  sent-Later j chunk none g = tt
  sent-Later j chunk (some r) g = Grows-trans j r.0 _ g (after_payload-Grows chunk r)

  take_chunk-Later :
      (j : Journal) (m : SseMapper) (chunk : Value)
      → Later journal_of j (take_chunk c host mapping nested downstream j m chunk)
  unfolding take_chunk
  take_chunk-Later j m chunk = elim (Option-cases (text_field chunk "error")) [
    | inl h ↦
        rw (h, take_chunk)
          (sent-Later j chunk _ (send_payload-Later j m (as_str (index chunk "payload"))))
    | inr (message, h) ↦ rw (h, take_chunk) (stopped-Later j _ (end_failed-Later j m message))
  ]

  answered-Later :
      (j : Journal) (m : SseMapper) (r : Journal × Result Fault Value)
      → Grows j r.0
      → Later journal_of j (elim r.1 [
        | err fault ↦ some (ended r.0 (err fault))
        | ok chunk ↦ take_chunk c host mapping nested downstream r.0 m chunk
      ])
  answered-Later j m (j', err fault) g = g
  answered-Later j m (j', ok chunk) g =
      Later-trans journal_of j j' _ g (take_chunk-Later j' m chunk)

  pub round-Later :
      (j : Journal) (m : SseMapper)
      → Later journal_of j (round c host mapping nested downstream j m)
  unfolding round
  round-Later j m =
      answered-Later j m (call c.library host j "host.model.stream_read" (stream_id nested))
        (call-Grows c host j "host.model.stream_read" (stream_id nested))

  -- A thread that ends closes its stream.
  pub leave-closes :
      (j : Journal) (message : String)
      → host.installed ≡ true
      → 1 + closes nested j ≤ closes nested (leave c host mapping nested downstream j message)
  unfolding leave
  leave-closes j message there =
      let closed = close c host j "host.model.stream_close" nested in
      omega (
        arith,
        close-closes c host j nested there,
        call-Grows c host closed "host.stream.close"
            (farewell c host mapping nested downstream message) nested,
      )

  pub leave-Grows :
      (j : Journal) (message : String) → Grows j (leave c host mapping nested downstream j message)
  unfolding leave
  leave-Grows j message id =
      let closed = close c host j "host.model.stream_close" nested in
      omega (
        arith,
        close-Grows c host j "host.model.stream_close" nested id,
        call-Grows c host closed "host.stream.close"
            (farewell c host mapping nested downstream message) id,
      )
