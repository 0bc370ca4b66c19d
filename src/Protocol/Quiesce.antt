-- ===== src/Protocol/Quiesce.antt =====
-- src/protocol.rs after "plugin.quiesce" or "plugin.shutdown".
use mathlib.Core.Path.{subst}
use cpa_stg.Base.Partial.{◌>>=◌}
use cpa_stg.Base.Result.{ok, err}
use cpa_stg.Base.{
  ℕ, String, Bool, true, false, string_eq, Option, none, some, List, [], ◌∷◌, ◌≡◌, refl, sym, ap,
  ◌∙◌,
}
use cpa_stg.Engine.Stopped.{Stopping, panicked, halted, on_Stopping}
use cpa_stg.Engine.Types.{stopping}
use cpa_stg.Engine.{Engine, stop}
use cpa_stg.ErrorMapping.Delay.{Bytes}
use cpa_stg.Float.{F64}
use cpa_stg.Protocol.Handle.{quiesces, method_of, Answer, intercept_before, dispatch, handle}
use cpa_stg.Protocol.Verdict.{Enrolled, passes, intercept_before-Verdict}
use cpa_stg.Protocol.{Codec}
use cpa_stg.Runtime.{Round, returned, acquire}
use cpa_stg.Protocol.Halted.{Halted, enroll-err, acquire-stopping, dispatch-Halted}

not_true : (b : Bool) → ¬ (b ≡ true) → b ≡ false
not_true true h = absurd (h refl)
not_true false h = refl

-- A call of the host, with its time and the waits of its thread.
pub record Arrival : Type 0 where
  pub method : String
  pub raw : Bytes
  pub now : ℕ
  pub rounds : List Round

module _ (c : Codec) {T : Type 0} ⦃f : F64 T⦄ where
  abbrev engine_of : Option (Engine T × Answer) → Option (Engine T)
  engine_of none = none
  engine_of (some (e, a)) = some e

  -- One call of the host after the other.
  unfoldable pub arrive : Engine T → List Arrival → Option (Engine T)
  arrive e [] = some e
  arrive e (x ∷ xs) = do e' ← engine_of (handle c e x.method x.raw x.now x.rounds); arrive e' xs

  engine_of-Stopping : (o : Option (Engine T × Answer)) → Halted o → Stopping (engine_of o)
  unfolding Halted
  engine_of-Stopping none k = panicked
  engine_of-Stopping (some (e, a)) k = halted e k

  handle-Halted :
      (e : Engine T) (x : Arrival)
      → e.stopping ≡ true
      → Halted (handle c e x.method x.raw x.now x.rounds)
  unfolding handle
  handle-Halted e x h = dispatch-Halted c e h (method_of x.method) x.raw x.now x.rounds

  arrive-Stopping : (xs : List Arrival) (e : Engine T) → e.stopping ≡ true → Stopping (arrive e xs)
  unfolding arrive
  arrive-Stopping [] e h = halted e h
  arrive-Stopping (x ∷ xs) e h =
      on_Stopping (λ e'. arrive e' xs) (engine_of (handle c e x.method x.raw x.now x.rounds))
        (λ e' k. arrive-Stopping xs e' k)
        (engine_of-Stopping (handle c e x.method x.raw x.now x.rounds) (handle-Halted e x h))

  -- No request begins, and none is admitted to a credential.
  pub record Closed (e : Engine T) : Type 0 where
    pub no_begin : (raw : Bytes) → passes (intercept_before c e raw).1 ≡ false
    pub no_attempt :
        (id name : String) (now : ℕ) (rounds : List Round)
        → acquire e id name now rounds ≡ some (e, returned (err stopping))

  not-Enrolled :
      (e : Engine T) (raw : Bytes)
      → e.stopping ≡ true
      → ¬ Enrolled c e raw (intercept_before c e raw).0
  not-Enrolled e raw h x =
      let (reason, refused) = enroll-err e x.req h in
      let k : err reason ≡ ok tt = sym refused ∙ ap (λ r. r.1) x.enrolls in cc

  stopping-Closed : (e : Engine T) → e.stopping ≡ true → Closed e
  stopping-Closed e h = record {
    no_begin = λ raw.
        not_true _ (λ k. not-Enrolled e raw h ((intercept_before-Verdict c e raw).passes_iff.0 k));
    no_attempt = acquire-stopping c e h;
  }

  still_halted : {e : Engine T} → Stopping (some e) → e.stopping ≡ true
  still_halted (halted e h) = h

  -- After a call that quiesces or shuts down the plugin, and whatever calls have come since that
  -- did not panic: no interception lets a request begin, and no request is admitted to a
  -- credential, but refused as stopping without a wait.
  pub quiesce-Closed :
      (e : Engine T) (x : Arrival) (xs : List Arrival) (e' : Engine T)
      → method_of x.method ≡ quiesces
      → arrive e (x ∷ xs) ≡ some e'
      → Closed e'
  unfolding arrive handle dispatch stop
  quiesce-Closed e x xs e' m h =
      let k : arrive (stop e) xs ≡ some e' =
        ap (λ y. engine_of (dispatch c e y x.raw x.now x.rounds) >>= λ d. arrive d xs) (sym m)
        ∙ h in
      stopping-Closed e' (still_halted (subst Stopping k (arrive-Stopping xs (stop e) refl)))
