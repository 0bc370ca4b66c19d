-- ===== src/Router/Streams/Closed.antt =====
-- The streams that the host opens for src/router.rs, and the calls that close them.
use mathlib.Core.Path.{subst}
use cpa_stg.Base.Result.{Result, ok, err}
use cpa_stg.Base.{
  ◌+◌, ◌≤◌, String, true, Option, none, some, List, ◌++◌, ◌≡◌, refl, ap, inl, inr, ◌==◌, string_eq,
  arith, Bool-cases, ==_iff,
}
use cpa_stg.ErrorMapping.Sse.{SseMapper}
use cpa_stg.Host.{Fault, new_fault, Host, Journal}
use cpa_stg.Router.Execute.{Prepared, execution}
use cpa_stg.Router.Handle.{shutdown}
use cpa_stg.Router.Pump.{Pumped, message_of}
use cpa_stg.Router.Closings.{closes, Grows, call-Grows, close_all-Grows, closes-append}
use cpa_stg.Router.Pump.Grows.{Later, journal_of, round-Later, leave-closes, leave-Grows}
use cpa_stg.Router.Streams.{
  reading, leaving, Thread, spawned_threads, asking, answered, House, empty_house, round_of,
  leave_of, Step, refuses, asks, calls, settles, halts, reads, quits, panics, leaves, configures,
  stops, Run, here, step,
}
use cpa_stg.Router.{Worker, Router, Codec}
use cpa_stg.Router.Streams.Account.{
  opens, waits_with, serves, tally, tally-split, tally-move, tally-take, Accounted, handed, Passes,
  settle-Passes,
}

module _ (c : Codec) (host : Host) (there : host.installed ≡ true) where
  shutdown-Grows : (r : Router) (j : Journal) → Grows j (shutdown c host r j).1
  unfolding shutdown
  shutdown-Grows r j = close_all-Grows c host r.workers j

  served_by :
      (id : String) (p : Prepared) (started : Option Worker) (threads : List Thread)
      → tally (serves id) (spawned_threads p started ++ threads)
        ≡ handed id started + tally (serves id) threads
  served_by id p none threads = omega arith
  served_by id p (some worker) threads = refl

  left_by :
      (t : Thread) (j : Journal) (result : Result Fault (Unit {0})) (id : String)
      → serves id t + closes id j ≤ closes id (leave_of c host t j result)
  left_by t j result id =
      let goodbye = message_of c host t.mapping t.worker.nested t.worker.downstream result in
      elim (Bool-cases (t.worker.nested == id)) [
        | inl is ↦
            let same : t.worker.nested ≡ id = (==_iff t.worker.nested id).0 is in
            let closed =
              leave-closes c host t.mapping t.worker.nested t.worker.downstream j goodbye there in
            rw is (subst (λ n. 1 + closes n j ≤ closes n (leave_of c host t j result)) same closed)
        | inr ne ↦ rw ne (
            omega (
              arith,
              leave-Grows c host t.mapping t.worker.nested t.worker.downstream j goodbye id,
            ))
      ]

  round-Grows :
      {s : Pumped} (t : Thread) (j : Journal) (m : SseMapper)
      → round_of c host t j m ≡ some s
      → Grows j (journal_of s)
  round-Grows t j m made =
      subst (Later journal_of j) made
        (round-Later c host t.mapping t.worker.nested t.worker.downstream j m)

  Step-Accounted : {h h' : House} → Step c host h h' → Accounted h → Accounted h'
  Step-Accounted (refuses req fault k) a id = a id
  Step-Accounted (asks req p k) a id = omega (arith, a id)
  Step-Accounted {h} (calls before after req p answer k made) a id = omega (
    arith,
    a id,
    tally-take (waits_with id) h.pending before after (asking req p) k,
    tally-split (waits_with id) before after (answered p answer),
    call-Grows c host h.journal "host.model.execute_stream" (execution req p.callback) id,
    ap (λ r. closes id r.0) made,
  )
  Step-Accounted {h} (settles {s} finished spawned before after p answer k made) a id = omega (
    arith,
    a id,
    tally-take (waits_with id) h.pending before after (answered p answer) k,
    served_by id p s.started h.threads,
    subst (Passes id answer h.journal) made
        (settle-Passes c host there finished spawned h.router h.journal p answer id),
  )
  Step-Accounted {h} (halts before after t m k is halted) a id = omega (
    arith,
    a id,
    tally-move (serves id) h.threads before after t (record t { progress = leaving (ok tt) }) k
        refl,
  )
  Step-Accounted {h} (reads {m' = m'} before after t m k is goes made) a id = omega (
    arith,
    a id,
    tally-move (serves id) h.threads before after t (record t { progress = reading m' }) k refl,
    round-Grows t h.journal m made id,
  )
  Step-Accounted {h} (quits {result = result} before after t m k is goes made) a id = omega (
    arith,
    a id,
    tally-move (serves id) h.threads before after t (record t { progress = leaving result }) k refl,
    round-Grows t h.journal m made id,
  )
  Step-Accounted {h} (panics before after t m made k is panic) a id = omega (
    arith,
    a id,
    tally-move (serves id) h.threads before after t
        (record t { progress = leaving (err (new_fault "Error mapping worker failed")) }) k refl,
    closes-append id made h.journal,
  )
  Step-Accounted {h} (leaves before after t result k is) a id = omega (
    arith,
    a id,
    tally-take (serves id) h.threads before after t k,
    left_by t h.journal result id,
  )
  Step-Accounted (configures req) a id = a id
  Step-Accounted {h} stops a id = omega (arith, a id, shutdown-Grows h.router h.journal id)

  pub run-Accounted : (h : House) → Run c host empty_house h → Accounted h
  run-Accounted h here id = omega arith
  run-Accounted h (step {m} before last) id = Step-Accounted last (run-Accounted m before) id

  -- In every state that the threads can reach from the start, in whatever order they take their
  -- turns, a nested stream is closed as often as the host has opened it, or more often, save for
  -- the answers that a request is about to take up and for the threads that still serve it. The
  -- host is there.
  pub run-opens-le :
      (h : House)
      → Run c host empty_house h
      → (id : String)
      → tally (opens id) h.answers
        ≤ closes id h.journal + tally (waits_with id) h.pending + tally (serves id) h.threads
  run-opens-le h run id = run-Accounted h run id
