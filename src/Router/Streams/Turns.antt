-- ===== src/Router/Streams/Turns.antt =====
-- How many turns the threads of src/router.rs take once the router is stopping.
use mathlib.Core.Path.{subst}
use cpa_stg.Base.Result.{Result, Result-cases, ok, err}
use cpa_stg.Base.{
  ℕ, ◌+◌, ◌*◌, ◌≤◌, true, not, Option, none, some, List, [], ◌∷◌, ◌++◌, ◌≡◌, refl, sym, ap, ◌∙◌,
  inl, inr, arith, if_cases, true≢false, length,
}
use cpa_stg.Host.{Fault, new_fault, Host}
use cpa_stg.Json.{Value}
use cpa_stg.Router.Execute.{Prepared, prepare}
use cpa_stg.Router.Handle.{register, read_config, shutdown}
use cpa_stg.Router.Slots.{threads, FateOf, settle-Fate}
use cpa_stg.Router.Slots.Stopped.{settled-Stopped}
use cpa_stg.Router.Streams.Account.{tally, tally-split, tally-take}
use cpa_stg.Router.Streams.{
  Progress, reading, leaving, Thread, spawned_threads, Pending, asking, answered, House, Step,
  refuses, asks, calls, settles, halts, reads, quits, panics, leaves, configures, stops, Run, here,
  step,
}
use cpa_stg.Router.{Worker, Router, Codec, is_stream_request}

abbrev turns_of : Progress → ℕ
turns_of (reading m) = 2
turns_of (leaving r) = 1

-- The turns that are left to a thread, and to a request, of a stopping router.
abbrev thread_turns : Thread → ℕ
thread_turns t = turns_of t.progress

abbrev request_turns : Pending → ℕ
request_turns (asking req p) = 2
request_turns (answered p answer) = 1

abbrev work : House → ℕ
work h = tally request_turns h.pending + tally thread_turns h.threads

refusal :
    (r : Router) (req : Value)
    → r.stopping ≡ true
    → (fault : Fault) × (prepare r req ≡ (r, err fault))
unfolding prepare
refusal r req halted =
    if_cases (λ x. (fault : Fault) × (x ≡ (r, err fault))) (not (is_stream_request req)) _ _
      (λ bad. (_, refl))
      (λ good.
        if_cases (λ x. (fault : Fault) × (x ≡ (r, err fault))) r.stopping _ _ (λ stops. (_, refl))
          (λ goes. absurd (true≢false (sym halted ∙ goes))))

register-stopping :
    (c : Codec) (r : Router) (req : Value) → (register c r req).0.stopping ≡ r.stopping
unfolding register
register-stopping c r req = elim (Result-cases (read_config c req)) [
  | inr (message, h) ↦ rw (h, register) refl
  | inl (config, h) ↦
      rw (h, register)
        (if_cases (λ (x : Router × Value). x.0.stopping ≡ r.stopping) r.stopping _ _ (λ s. refl)
          (λ s. refl))
]

no_thread :
    (p : Prepared) (started : Option Worker) (ts : List Thread)
    → threads started ≡ 0
    → tally thread_turns (spawned_threads p started ++ ts) ≡ tally thread_turns ts
no_thread p none ts h = refl
no_thread p (some worker) ts h = absurd (omega (arith, h))

module _ (c : Codec) (host : Host) where
  -- Whether a step is a turn of a request with a slot, or of a worker's thread.
  abbrev pub is_turn : {h h' : House} → Step c host h h' → ℕ
  is_turn (refuses req fault k) = 0
  is_turn (asks req p k) = 1
  is_turn (calls before after req p answer k made) = 1
  is_turn (settles finished spawned before after p answer k made) = 1
  is_turn (halts before after t m k is halted) = 1
  is_turn (reads before after t m k is goes made) = 1
  is_turn (quits before after t m k is goes made) = 1
  is_turn (panics before after t m made k is panic) = 1
  is_turn (leaves before after t result k is) = 1
  is_turn (configures req) = 0
  is_turn stops = 0

  abbrev pub turns : {g h : House} → Run c host g h → ℕ
  turns here = 0
  turns (step before last) = turns before + is_turn last

  record Spends (h h' : House) (n : ℕ) : Type 0 where
    stays : h'.router.stopping ≡ true
    less : n + work h' ≤ work h

  moved_on :
      (h : House) (before after : List Thread) (t t' : Thread)
      → h.threads ≡ before ++ t ∷ after
      → thread_turns t ≡ 2
      → thread_turns t' ≡ 1
      → 1 + tally thread_turns (before ++ t' ∷ after) ≤ tally thread_turns h.threads
  moved_on h before after t t' k two one = omega (
    arith,
    tally-take thread_turns h.threads before after t k,
    tally-split thread_turns before after t',
    two,
    one,
  )

  Step-Spends :
      {h h' : House} (s : Step c host h h') → h.router.stopping ≡ true → Spends h h' (is_turn s)
  Step-Spends {h} (refuses {r} req fault k) halted =
      let (fault', refused) = refusal h.router req halted in
      let same : h.router ≡ r =
        ap (λ (x : Router × Result Fault Prepared). x.0) (sym refused ∙ k) in
      record { stays = subst (λ (x : Router). x.stopping ≡ true) same halted; less = omega arith }
  Step-Spends {h} (asks req p k) halted =
      let (fault', refused) = refusal h.router req halted in
      let same : err fault' ≡ ok p =
        ap (λ (x : Router × Result Fault Prepared). x.1) (sym refused ∙ k) in
      cc
  Step-Spends {h} (calls before after req p answer k made) halted = record {
    stays = halted;
    less = omega (
      arith,
      tally-take request_turns h.pending before after (asking req p) k,
      tally-split request_turns before after (answered p answer),
    );
  }
  Step-Spends {h} (settles {s} finished spawned before after p answer k made) halted =
      let fate =
        subst (FateOf h.router) made
          (settle-Fate c host finished spawned h.router h.journal p answer) in
      let (still, nothing) = settled-Stopped h.router s fate halted in
      record {
        stays = still;
        less = omega (
          arith,
          tally-take request_turns h.pending before after (answered p answer) k,
          no_thread p s.started h.threads nothing,
        );
      }
  Step-Spends {h} (halts before after t m k is halted') halted = record {
    stays = halted;
    less = omega (
      arith,
      moved_on h before after t (record t { progress = leaving (ok tt) }) k (ap turns_of is) refl,
    );
  }
  Step-Spends (reads before after t m k is goes made) halted =
      absurd (true≢false (sym halted ∙ goes))
  Step-Spends (quits before after t m k is goes made) halted =
      absurd (true≢false (sym halted ∙ goes))
  Step-Spends {h} (panics before after t m made k is panic) halted = record {
    stays = halted;
    less = omega (
      arith,
      moved_on h before after t
          (record t { progress = leaving (err (new_fault "Error mapping worker failed")) }) k
          (ap turns_of is) refl,
    );
  }
  Step-Spends {h} (leaves before after t result k is) halted = record {
    stays = halted;
    less = omega (arith, tally-take thread_turns h.threads before after t k, ap turns_of is);
  }
  Step-Spends {h} (configures req) halted = record {
    stays = register-stopping c h.router req ∙ halted;
    less = omega arith;
  }
  Step-Spends stops halted = record { stays = unfold shutdown in refl; less = omega arith }

  run-Spends :
      {h h' : House} (run : Run c host h h') → h.router.stopping ≡ true → Spends h h' (turns run)
  run-Spends here halted = record { stays = halted; less = omega arith }
  run-Spends (step before last) halted =
      let first = run-Spends before halted in
      let then_last = Step-Spends last first.stays in
      record { stays = then_last.stays; less = omega (arith, first.less, then_last.less) }

  request_turns-le : (ps : List Pending) → tally request_turns ps ≤ 2 * length ps
  request_turns-le [] = omega arith
  request_turns-le (asking req p ∷ ps) = omega (arith, request_turns-le ps)
  request_turns-le (answered p answer ∷ ps) = omega (arith, request_turns-le ps)

  turns_of-le : (p : Progress) → turns_of p ≤ 2
  turns_of-le (reading m) = omega arith
  turns_of-le (leaving r) = omega arith

  thread_turns-le : (ts : List Thread) → tally thread_turns ts ≤ 2 * length ts
  thread_turns-le [] = omega arith
  thread_turns-le (t ∷ ts) = omega (arith, turns_of-le t.progress, thread_turns-le ts)

  -- Once the router is stopping, the requests with a slot and the threads of the workers take in
  -- any run no more than two turns for each of them that there is at the start of the run, in
  -- whatever order, whatever the host answers and whatever it calls meanwhile.
  pub run-turns-le :
      (h h' : House) (run : Run c host h h')
      → h.router.stopping ≡ true
      → turns run ≤ 2 * (length h.pending + length h.threads)
  run-turns-le h h' run halted =
      omega
        (arith, (run-Spends run halted).less, request_turns-le h.pending, thread_turns-le h.threads)
