-- ===== src/Router/Streams/Drains.antt =====
-- The end of the threads of src/router.rs once the router is stopping.
use mathlib.Core.Path.{subst}
use cpa_stg.Base.Result.{Result, ok}
use cpa_stg.Base.{
  ◌≤◌, String, true, false, some, List, [], ◌∷◌, ◌≡◌, refl, ap, ◌∙◌, inl, inr, ◌⊎◌, arith,
}
use cpa_stg.ErrorMapping.Sse.{SseMapper}
use cpa_stg.Host.{Fault, Host, Journal, call}
use cpa_stg.Json.{Value}
use cpa_stg.Router.Execute.{Prepared, Settlement, release, settle, execution}
use cpa_stg.Router.Outcome.{settle-Returns}
use cpa_stg.Router.Slots.{Fate, FateOf, settle-Fate}
use cpa_stg.Router.Streams.Account.{tally, opens, waits_with, serves}
use cpa_stg.Router.Streams.Closed.{run-Accounted}
use cpa_stg.Router.Closings.{closes}
use cpa_stg.Router.Streams.{
  Progress, reading, leaving, Thread, Pending, asking, answered, House, empty_house, leave_of,
  calls, settles, halts, leaves, Run, here, step,
}
use cpa_stg.Router.{Router, Codec}

Progress-cases :
    (p : Progress)
    → ((m : SseMapper) × (p ≡ reading m)) ⊎ ((r : Result Fault (Unit {0})) × (p ≡ leaving r))
Progress-cases (reading m) = inl (m, refl)
Progress-cases (leaving r) = inr (r, refl)

module _ (c : Codec) (host : Host) where
  run_on : {g h i : House} → Run c host g h → Run c host h i → Run c host g i
  run_on before here = before
  run_on before (step later last) = step (run_on before later) last

  -- A stopping router without threads, from `h`.
  abbrev Empties : House → List Pending → Type 0
  Empties h pending =
      (h' : House) × Run c host h h'
      × (h'.threads ≡ [])
      × (h'.pending ≡ pending)
      × (h'.router.stopping ≡ true)

  onward :
      (h i : House) (pending : List Pending)
      → Run c host h i
      → Empties i pending
      → Empties h pending
  onward h i pending run (h', later, gone, same, halted) =
      (h', run_on run later, gone, same, halted)

  thread_ends :
      (ts : List Thread) (h : House)
      → h.threads ≡ ts
      → h.router.stopping ≡ true
      → Empties h h.pending
  thread_ends [] h none_left halted = (h, here, none_left, refl, halted)
  thread_ends (t ∷ ts) h same halted = elim (Progress-cases t.progress) [
    | inr (result, is) ↦
        let i : House = record h {
          router = release h.router;
          journal = leave_of c host t h.journal result;
          threads = ts;
        } in
        onward h i h.pending (step here (leaves [] ts t result same is))
          (thread_ends ts i refl halted)
    | inl (m, is) ↦
        let t' : Thread = record t { progress = leaving (ok tt) } in
        let i : House = record h { threads = t' ∷ ts } in
        let k : House = record i {
          router = release h.router;
          journal = leave_of c host t' h.journal (ok tt);
          threads = ts;
        } in
        onward h k h.pending
          (step (step here (halts [] ts t m same is halted)) (leaves [] ts t' (ok tt) refl refl))
          (thread_ends ts k refl halted)
  ]

  abbrev Settles : House → Type 0
  Settles h = (h' : House) × Run c host h h' × (h'.pending ≡ []) × (h'.router.stopping ≡ true)

  settled_on : (h i : House) → Run c host h i → Settles i → Settles h
  settled_on h i run (h', later, gone, halted) = (h', run_on run later, gone, halted)

  still_stopping :
      (r : Router) (j : Journal) (p : Prepared) (answer : Result Fault Value) (s : Settlement)
      → settle c host (λ w. false) true r j p answer ≡ some s
      → r.stopping ≡ true
      → s.router.stopping ≡ true
  unfolding Fate
  still_stopping r j p answer s done halted =
      let fate : Fate r s =
        subst (FateOf r) done (settle-Fate c host (λ w. false) true r j p answer) in
      fate.1 ∙ halted

  answered_settles :
      (p : Prepared) (answer : Result Fault Value) (ps : List Pending) (h : House)
      → h.pending ≡ answered p answer ∷ ps
      → h.router.stopping ≡ true
      → (i : House) × Run c host h i × (i.pending ≡ ps) × (i.router.stopping ≡ true)
  answered_settles p answer ps h same halted =
      let (s, done) = settle-Returns c host (λ w. false) true h.router h.journal p answer in
      (
        _,
        step here (settles (λ w. false) true [] ps p answer same done),
        refl,
        still_stopping h.router h.journal p answer s done halted,
      )

  requests_end :
      (ps : List Pending) (h : House) → h.pending ≡ ps → h.router.stopping ≡ true → Settles h
  requests_end [] h same halted = (h, here, same, halted)
  requests_end (answered p answer ∷ ps) h same halted =
      let (i, run, left, halted') = answered_settles p answer ps h same halted in
      settled_on h i run (requests_end ps i left halted')
  requests_end (asking req p ∷ ps) h same halted =
      let (j, answer) =
        call c.library host h.journal "host.model.execute_stream" (execution req p.callback) in
      let i : House = record h {
        journal = j;
        answers = answer ∷ h.answers;
        pending = answered p answer ∷ ps;
      } in
      let (k, run, left, halted') = answered_settles p answer ps i refl halted in
      settled_on h k (run_on (step here (calls [] ps req p answer same refl)) run)
        (requests_end ps k left halted')

  -- Once the router is stopping, in any state that the threads can reach, a run leads on to where
  -- no request is under way and no thread is left; and there every nested stream is closed as
  -- often as the host has opened it, or more often. The host is there.
  pub run-drains :
      host.installed ≡ true
      → (h : House) → Run c host empty_house h
      → h.router.stopping ≡ true
      → (h' : House) × Run c host h h'
        × (h'.pending ≡ [])
        × (h'.threads ≡ [])
        × ((id : String) → tally (opens id) h'.answers ≤ closes id h'.journal)
  run-drains there h run halted =
      let (i, to_i, no_request, halted') = requests_end h.pending h refl halted in
      let (k, to_k, no_thread, same, _) = thread_ends i.threads i refl halted' in
      let accounted = run-Accounted c host there k (run_on run (run_on to_i to_k)) in
      (
        k,
        run_on to_i to_k,
        same ∙ no_request,
        no_thread,
        λ id. omega (
          arith,
          accounted id,
          ap (tally (waits_with id)) (same ∙ no_request),
          ap (tally (serves id)) no_thread,
        ),
      )
