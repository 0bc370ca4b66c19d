-- ===== src/Router/Outcome.antt =====
-- src/router.rs: that `execute` returns, what becomes of a stream that the host has opened, and the
-- calls of `shutdown`.
use mathlib.Core.List.{append_assoc, Perm}
use cpa_stg.Base.Result.{Result, Result-cases, ok, err}
use cpa_stg.Base.{
  String, Bool, true, false, not, Option, none, some, ℕ, suc, ◌⊎◌, List, [], ◌∷◌, ◌++◌, ◌≡◌, refl,
  sym, ap, ◌∙◌, inl, inr, Option-cases, if_cases, arith,
}
use cpa_stg.ErrorMapping.Rewrite.{map_error-rewrite}
use cpa_stg.ErrorMapping.Sse.{failure_from_message}
use cpa_stg.ErrorMapping.{map_error}
use cpa_stg.Engine.{minus_one}
use cpa_stg.Host.{Fault, new_fault, Host, HostCall, Journal, call}
use cpa_stg.Json.{Value, index, get}
use cpa_stg.Router.Execute.{
  Prepared, Settlement, prepare, settled, launched, start, settle, fail_open, execute, worker_of,
  give_up,
}
use cpa_stg.Router.Handle.{close_all, shutdown}
use cpa_stg.Router.Reap.{unfinished, reap-unfinished}
use cpa_stg.Router.{Worker, Router, Codec, text_field, stream_id, close}

-- It returns.
abbrev pub Returns {ℓ} : {A : Type ℓ} → Option A → Type ℓ
Returns {A = A} o = (a : A) × (o ≡ some a)

module _ (c : Codec) (host : Host) (finished : Worker → Bool) (spawned : Bool) where
  fail_open-Returns :
      (p : Prepared) (fault : Fault) → Returns (fail_open c host finished spawned p fault)
  unfolding fail_open
  fail_open-Returns p fault =
      let failure = failure_from_message c.library fault.message in
      elim (Option-cases (map_error p.mapping fault.status failure)) [
        | inl h ↦ rw (h, fail_open) (_, refl)
        | inr (mapped, h) ↦
            let (v, done, _, _, _) =
              map_error-rewrite p.mapping fault.status failure mapped p.mapping 0 h in
            rw (h, done, fail_open) (_, refl)
      ]

  pub settle-Returns :
      (r : Router) (j : Journal) (p : Prepared) (answer : Result Fault Value)
      → Returns (settle c host finished spawned r j p answer)
  unfolding settle
  settle-Returns r j p (err fault) =
      let (v, done) = fail_open-Returns p fault in rw (done, settle) (_, refl)
  settle-Returns r j p (ok upstream) = elim (Option-cases (text_field upstream "stream_id")) [
    | inl h ↦ rw (h, settle) (_, refl)
    | inr (nested, h) ↦ rw (h, settle) (_, refl)
  ]

  pub execute-Returns :
      (r : Router) (meanwhile : Router → Router) (j : Journal) (req : Value)
      → Returns (execute c host finished spawned r meanwhile j req)
  unfolding execute
  execute-Returns r meanwhile j req = elim (Result-cases (prepare r req).1) [
    | inr (fault, h) ↦ rw (h, execute) (_, refl)
    | inl (p, h) ↦ rw (h, execute) (settle-Returns _ _ p _)
  ]

module _ (c : Codec) (host : Host) (there : host.installed ≡ true) where
  close-journal :
      (j : Journal) (method id : String) → close c host j method id ≡ (method, stream_id id) ∷ j
  unfolding close call
  close-journal j method id = rw (there, call) refl

module _ (c : Codec) (host : Host) (finished : Worker → Bool) (spawned : Bool) where
  -- The stream that the host opened has a worker that is started and listed last, and the client
  -- gets its headers; or it is closed again, the slot is free and the client gets an error. Of the
  -- other workers those are listed whose threads are not finished.
  pub data Owned (r : Router) (j : Journal) (p : Prepared) (upstream : Value) (nested : String)
      (s : Settlement) : Type 0 where
    with_worker :
        (others : List Worker) (answer : Value)
        → Perm others (unfinished finished r.workers)
        → r.stopping ≡ false
        → spawned ≡ true
        → s.started ≡ some (record { nested = nested; downstream = p.downstream })
        → s.router ≡ record r {
          workers = others ++ record { nested = nested; downstream = p.downstream } ∷ [];
        }
        → s.journal ≡ j
        → s.result ≡ ok answer
        → index answer "headers" ≡ index upstream "headers"
        → Owned r j p upstream nested s
    closed :
        (others : List Worker) (n : ℕ) (fault : Fault)
        → Perm others (unfinished finished r.workers)
        → (r.stopping ≡ true) ⊎ (spawned ≡ false)
        → s.started ≡ none
        → r.active ≡ suc n
        → s.router ≡ record r { workers = others; active = n }
        → s.journal ≡ ("host.model.stream_close", stream_id nested) ∷ j
        → s.result ≡ err fault
        → Owned r j p upstream nested s

  module _ (there : host.installed ≡ true) (r : Router) (j : Journal) (p : Prepared)
      (upstream : Value) (nested : String) where
    give_up-Owned :
        (n : ℕ) (workers : List Worker) (message : String)
        → Perm workers (unfinished finished r.workers)
        → r.active ≡ suc n
        → (r.stopping ≡ true) ⊎ (spawned ≡ false)
        → Owned r j p upstream nested
            (give_up c host finished spawned (record r { workers = workers }) j nested message)
    unfolding settled
    give_up-Owned n workers message left held why =
        closed workers n (new_fault message) left why refl held
          (ap (λ k. record r { workers = workers; active = minus_one k }) held)
          (close-journal c host there j "host.model.stream_close" nested) refl

    launched-Owned :
        (workers : List Worker)
        → Perm workers (unfinished finished r.workers)
        → r.stopping ≡ false
        → spawned ≡ true
        → Owned r j p upstream nested
            (launched (record r { workers = workers }) j (worker_of p nested) upstream)
    unfolding launched index get
    launched-Owned workers left goes fine =
        with_worker workers _ left goes fine refl refl refl refl refl

    start-Owned :
        (n : ℕ)
        → r.active ≡ suc n
        → Owned r j p upstream nested (start c host finished spawned r j p nested upstream)
    unfolding start
    start-Owned n held =
        let left = reap-unfinished finished r.workers in
        if_cases (Owned r j p upstream nested) r.stopping _ _
          (λ halted. give_up-Owned n _ _ left held (inl halted))
          (λ goes.
            if_cases (Owned r j p upstream nested) (not spawned) _ _
              (λ failed. give_up-Owned n _ _ left held (inr (ground (arith, failed))))
              (λ fine. launched-Owned _ left goes (ground (arith, fine))))

  -- Let the host open a stream for a request that holds a slot. Its execution ends in one of two
  -- ways. Either a thread is started for the stream, its worker stands at the end of the router's
  -- list, and the answer has the headers of the stream; then the router is not stopping, the thread
  -- keeps the slot, and the host is not called again. Or the router is stopping or the thread cannot
  -- be started; then no worker is added, the host is asked to close the stream and nothing else, the
  -- slot is given back, and the answer is an error. Either way the other workers of the list stay,
  -- up to order, except those whose threads are finished.
  pub settle-Owned :
      (r : Router) (j : Journal) (p : Prepared) (upstream : Value) (nested : String) (n : ℕ)
      → host.installed ≡ true
      → r.active ≡ suc n
      → text_field upstream "stream_id" ≡ some nested
      → (s : Settlement) × (settle c host finished spawned r j p (ok upstream) ≡ some s)
        × Owned r j p upstream nested s
  unfolding settle
  settle-Owned r j p upstream nested n there held h =
      rw (h, settle) (_, refl, start-Owned there r j p upstream nested n held)

-- The two calls that close a worker's streams, the newest first.
abbrev pub closings : Worker → List HostCall
closings w =
    ("host.model.stream_close", stream_id w.nested)
    ∷ ("host.stream.close", stream_id w.downstream)
    ∷ []

-- The calls for all workers, the newest first.
abbrev pub all_closings : List Worker → List HostCall
all_closings [] = []
all_closings (w ∷ ws) = all_closings ws ++ closings w

module _ (c : Codec) (host : Host) (there : host.installed ≡ true) where
  close_all-journal :
      (ws : List Worker) (j : Journal) → close_all c host j ws ≡ all_closings ws ++ j
  unfolding close_all
  close_all-journal [] j = refl
  close_all-journal (w ∷ ws) j =
      close_all-journal ws _
      ∙ ap (λ x. all_closings ws ++ x)
          (close-journal c host there _ "host.model.stream_close" w.nested
            ∙ ap (λ x. ("host.model.stream_close", stream_id w.nested) ∷ x)
                (close-journal c host there j "host.stream.close" w.downstream))
      ∙ sym (append_assoc (all_closings ws) (closings w) j)

  -- A shutdown leaves the router stopping and without workers, and the host is asked to close both
  -- streams of every worker that was listed, and nothing else, in the order of the list.
  pub shutdown-closes :
      (r : Router) (j : Journal)
      → ((shutdown c host r j).0.stopping ≡ true)
        × ((shutdown c host r j).0.workers ≡ [])
        × ((shutdown c host r j).1 ≡ all_closings r.workers ++ j)
  unfolding shutdown
  shutdown-closes r j = (refl, refl, close_all-journal r.workers j)
