-- ===== src/Router/Streams.antt =====
-- src/router.rs under threads that take turns: the requests that have a slot, the threads of the
-- workers, and the calls of the host by all of them, one after the other.
pub mod Account
pub mod Closed
pub mod Drains
pub mod Turns
mod Tests
use cpa_stg.Base.Result.{Result, ok, err}
use cpa_stg.Base.{ℕ, String, Bool, true, false, Option, none, some, List, [], ◌∷◌, ◌++◌, ◌≡◌}
use cpa_stg.ErrorMapping.Sse.{SseMapper, new}
use cpa_stg.ErrorMapping.{ErrorMapping}
use cpa_stg.Host.{Fault, new_fault, Host, HostCall, Journal, call}
use cpa_stg.Json.{Value}
use cpa_stg.Router.Execute.{Prepared, Settlement, prepare, release, settle, execution}
use cpa_stg.Router.Handle.{register, shutdown}
use cpa_stg.Router.Pump.{Pumped, ended, running, round, leave, message_of}
use cpa_stg.Router.{Worker, Router, Codec, initial}

-- Where a thread stands: in the loop, or behind it.
pub data Progress : Type 0 where
  reading : SseMapper → Progress
  leaving : Result Fault (Unit {0}) → Progress

pub record Thread : Type 0 where
  pub worker : Worker
  pub mapping : ErrorMapping
  pub progress : Progress

-- The thread of a worker at its start.
abbrev pub spawned_threads : Prepared → Option Worker → List Thread
spawned_threads p none = []
spawned_threads p (some worker) =
    record { worker = worker; mapping = p.mapping; progress = reading (new p.mapping) } ∷ []

-- A request that has its slot is about to ask the host, or has the answer.
pub data Pending : Type 0 where
  asking : Value → Prepared → Pending
  answered : Prepared → Result Fault Value → Pending

-- `answers` are all that the host gave to the requests for a stream.
pub record House : Type 0 where
  pub router : Router
  pub journal : Journal
  pub answers : List (Result Fault Value)
  pub pending : List Pending
  pub threads : List Thread

abbrev pub empty_house : House
empty_house = record { router = initial; journal = []; answers = []; pending = []; threads = [] }

module _ (c : Codec) (host : Host) where
  abbrev pub round_of : Thread → Journal → SseMapper → Option Pumped
  round_of t = round c host t.mapping t.worker.nested t.worker.downstream

  -- A thread's last calls.
  abbrev pub leave_of : Thread → Journal → Result Fault (Unit {0}) → Journal
  leave_of t j r =
      leave c host t.mapping t.worker.nested t.worker.downstream j
        (message_of c host t.mapping t.worker.nested t.worker.downstream r)

  -- What one thread does in one go. The code of a request on either side of its call of the host is
  -- one step. A round of a worker's loop is one step, with the check of the flag in front of it, and
  -- so are the last calls of a worker's thread, and a shutdown up to the joins.
  pub data Step (h : House) : House → Type 0 where
    refuses :
        {r : Router} (req : Value) (fault : Fault)
        → prepare h.router req ≡ (r, err fault)
        → Step h (record h { router = r })
    asks :
        {r : Router} (req : Value) (p : Prepared)
        → prepare h.router req ≡ (r, ok p)
        → Step h (record h { router = r; pending = asking req p ∷ h.pending })
    calls :
        {j : Journal} (before after : List Pending) (req : Value) (p : Prepared)
        (answer : Result Fault Value)
        → h.pending ≡ before ++ asking req p ∷ after
        → call c.library host h.journal "host.model.execute_stream" (execution req p.callback)
          ≡ (j, answer)
        → Step h (record h {
          journal = j;
          answers = answer ∷ h.answers;
          pending = before ++ answered p answer ∷ after;
        })
    settles :
        {s : Settlement} (finished : Worker → Bool) (spawned : Bool) (before after : List Pending)
        (p : Prepared) (answer : Result Fault Value)
        → h.pending ≡ before ++ answered p answer ∷ after
        → settle c host finished spawned h.router h.journal p answer ≡ some s
        → Step h (record h {
          router = s.router;
          journal = s.journal;
          pending = before ++ after;
          threads = spawned_threads p s.started ++ h.threads;
        })
    halts :
        (before after : List Thread) (t : Thread) (m : SseMapper)
        → h.threads ≡ before ++ t ∷ after
        → t.progress ≡ reading m
        → h.router.stopping ≡ true
        → Step h (record h { threads = before ++ record t { progress = leaving (ok tt) } ∷ after })
    reads :
        {j : Journal} {m' : SseMapper} (before after : List Thread) (t : Thread) (m : SseMapper)
        → h.threads ≡ before ++ t ∷ after
        → t.progress ≡ reading m
        → h.router.stopping ≡ false
        → round_of t h.journal m ≡ some (running j m')
        → Step h (record h {
          journal = j;
          threads = before ++ record t { progress = reading m' } ∷ after;
        })
    quits :
        {j : Journal} {result : Result Fault (Unit {0})} (before after : List Thread) (t : Thread)
        (m : SseMapper)
        → h.threads ≡ before ++ t ∷ after
        → t.progress ≡ reading m
        → h.router.stopping ≡ false
        → round_of t h.journal m ≡ some (ended j result)
        → Step h (record h {
          journal = j;
          threads = before ++ record t { progress = leaving result } ∷ after;
        })
    panics :
        (before after : List Thread) (t : Thread) (m : SseMapper) (made : List HostCall)
        → h.threads ≡ before ++ t ∷ after
        → t.progress ≡ reading m
        → round_of t h.journal m ≡ none
        → Step h (record h {
          journal = made ++ h.journal;
          threads =
              before
              ++ record t { progress = leaving (err (new_fault "Error mapping worker failed")) }
                ∷ after;
        })
    leaves :
        (before after : List Thread) (t : Thread) (result : Result Fault (Unit {0}))
        → h.threads ≡ before ++ t ∷ after
        → t.progress ≡ leaving result
        → Step h (record h {
          router = release h.router;
          journal = leave_of t h.journal result;
          threads = before ++ after;
        })
    configures : (req : Value) → Step h (record h { router = (register c h.router req).0 })
    stops : Step h (record h {
      router = (shutdown c host h.router h.journal).0;
      journal = (shutdown c host h.router h.journal).1;
    })

  pub data Run (h : House) : House → Type 0 where
    here : Run h h
    step : {m n : House} → Run h m → Step m n → Run h n
