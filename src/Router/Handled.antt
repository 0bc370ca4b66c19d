-- ===== src/Router/Handled.antt =====
-- src/router.rs: that `handle` returns, or waits in the joins of `shutdown`.
use cpa_stg.Base.{
  String, Bool, true, false, Option, none, some, List, [], ◌∷◌, ◌++◌, ◌≡◌, refl, ap, inl, inr,
  Option-cases, Bool-cases, arith,
}
use cpa_stg.ErrorMapping.Delay.{Bytes}
use cpa_stg.Host.{Host, Journal}
use cpa_stg.Json.{Value}
use cpa_stg.Router.Handle.{
  Method, registers, routing, identifier, executes, stops, unsupported, method_of, shutdown,
  join_all, Answered, dispatch, handle,
}
use cpa_stg.Router.Outcome.{execute-Returns}
use cpa_stg.Router.{Worker, Router, Codec}

module _ (c : Codec) (host : Host) (finished : Worker → Bool) (spawned : Bool) where
  -- There is a worker among these whose thread has not ended.
  pub record Joining (ws : List Worker) : Type 0 where
    pub before : List Worker
    pub worker : Worker
    pub after : List Worker
    pub listed : ws ≡ before ++ worker ∷ after
    pub running : finished worker ≡ false

  -- There is an answer, or a stopping method waits for the thread of one of the workers that were
  -- listed, with the router stopping.
  pub data Handled (method : Method) (r : Router) : Option Answered → Type 0 where
    answers : (r' : Router) (j : Journal) (v : Value) → Handled method r (some (r', j, some v))
    joins :
        (r' : Router) (j : Journal)
        → method ≡ stops
        → r'.stopping ≡ true
        → Joining r.workers
        → Handled method r (some (r', j, none))

  join_all-Joining : (ws : List Worker) → join_all c host finished spawned ws ≡ false → Joining ws
  unfolding join_all
  join_all-Joining [] h = cc
  join_all-Joining (w ∷ ws) h = elim (Bool-cases (finished w)) [
    | inl done ↦
        let k : join_all c host finished spawned ws ≡ false = ground (arith, h, done) in
        let p = join_all-Joining ws k in
        record {
          before = w ∷ p.before;
          worker = p.worker;
          after = p.after;
          listed = ap (λ l. w ∷ l) p.listed;
          running = p.running;
        }
    | inr runs ↦ record { before = []; worker = w; after = ws; listed = refl; running = runs }
  ]

  dispatch-Handled :
      (method : Method) (r : Router) (meanwhile : Router → Router) (j : Journal) (req : Value)
      → Handled method r (dispatch c host finished spawned method r meanwhile j req)
  unfolding dispatch shutdown
  dispatch-Handled registers r meanwhile j req = answers _ _ _
  dispatch-Handled routing r meanwhile j req = answers _ _ _
  dispatch-Handled identifier r meanwhile j req = answers _ _ _
  dispatch-Handled executes r meanwhile j req =
      let (s, h) = execute-Returns c host finished spawned r meanwhile j req in
      rw (h, dispatch) (answers _ _ _)
  dispatch-Handled stops r meanwhile j req =
      elim (Bool-cases (join_all c host finished spawned r.workers)) [
        | inl all ↦ rw (all, dispatch) (answers _ _ _)
        | inr some_runs ↦
            rw (some_runs, dispatch) (joins _ _ refl refl (join_all-Joining r.workers some_runs))
      ]
  dispatch-Handled unsupported r meanwhile j req = answers _ _ _

  pub handle-Handled :
      (r : Router) (meanwhile : Router → Router) (j : Journal) (method : String) (raw : Bytes)
      → Handled (method_of method) r (handle c host finished spawned r meanwhile j method raw)
  unfolding handle
  handle-Handled r meanwhile j method raw = elim (Option-cases (c.library.from_slice raw)) [
    | inl h ↦ rw (h, handle) (answers _ _ _)
    | inr (req, h) ↦ rw (h, handle) (dispatch-Handled (method_of method) r meanwhile j req)
  ]
