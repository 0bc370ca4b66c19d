-- ===== src/Router/Slots.antt =====
-- The slots of src/router.rs: the count of active executions over any run of a router, and what
-- becomes of the stream that the host opens for a request.
pub mod Balanced
pub mod Stopped
use mathlib.Core.Path.{subst}
use cpa_stg.Base.Partial.{◌>>=◌}
use cpa_stg.Base.Result.{Result, Result-cases, ok, err}
use cpa_stg.Base.{
  ℕ, zero, suc, ◌+◌, ◌^◌, ◌≤◌, ◌<◌, String, Bool, true, false, not, Option, none, some, List, [],
  ◌∷◌, ◌++◌, ◌≡◌, refl, sym, ap, ◌∙◌, inl, inr, ◌⊎◌, if◌then◌else◌, leb, length, arith, Bool-cases,
  Option-cases, if_cases,
}
use cpa_stg.Config.Valid
use cpa_stg.Config.{Config, default_config, validate, parse}
use cpa_stg.Engine.{minus_one}
use cpa_stg.Host.{Fault, Host, Journal}
use cpa_stg.Json.{Value, index}
use cpa_stg.Router.Execute.{
  Prepared, Settlement, claim, release, prepare, settled, launched, start, settle, fail_open,
  give_up, worker_of,
}
use cpa_stg.Router.Handle.{config_bytes, register, shutdown, read_config}
use cpa_stg.Router.{Worker, Router, Codec, initial, plus_one, text_field, is_stream_request, close}

-- A router with the requests whose host call is under way, and the running threads.
pub record Load : Type 0 where
  pub router : Router
  pub pending : ℕ
  pub running : ℕ

abbrev pub threads : Option Worker → ℕ
threads none = 0
threads (some worker) = 1

module _ (c : Codec) (host : Host) where
  -- What a router does in one go, between the calls of the host that a request waits for. The
  -- code on either side of such a call is one step here, so that a refused request gives its slot
  -- back in the step that claims it.
  pub data Step : Load → Load → Type 0 where
    refuses :
        {r r' : Router} {p n : ℕ} (req : Value) (fault : Fault)
        → prepare r req ≡ (r', err fault)
        → Step
            (record { router = r; pending = p; running = n })
            (record { router = r'; pending = p; running = n })
    asks :
        {r r' : Router} {p n : ℕ} (req : Value) (prepared : Prepared)
        → prepare r req ≡ (r', ok prepared)
        → Step
            (record { router = r; pending = p; running = n })
            (record { router = r'; pending = suc p; running = n })
    settles :
        {r : Router} {p n : ℕ} {s : Settlement} (finished : Worker → Bool) (spawned : Bool)
        (j : Journal) (prepared : Prepared) (answer : Result Fault Value)
        → settle c host finished spawned r j prepared answer ≡ some s
        → Step
            (record { router = r; pending = suc p; running = n })
            (record { router = s.router; pending = p; running = n + threads s.started })
    ends :
        {r : Router} {p n : ℕ}
        → Step
            (record { router = r; pending = p; running = suc n })
            (record { router = release r; pending = p; running = n })
    configures :
        {r : Router} {p n : ℕ} (req : Value)
        → Step
            (record { router = r; pending = p; running = n })
            (record { router = (register c r req).0; pending = p; running = n })
    stops :
        {r : Router} {p n : ℕ} (j : Journal)
        → Step
            (record { router = r; pending = p; running = n })
            (record { router = (shutdown c host r j).0; pending = p; running = n })

  pub data Run (l : Load) : Load → Type 0 where
    here : Run l l
    step : {m n : Load} → Run l m → Step m n → Run l n

abbrev pub limit : ℕ
limit = 100_000

abbrev pub InRange : ℕ → Type 0
InRange n = n ≤ limit

plus_one-lt : (n : ℕ) → n ≤ limit → plus_one n ≡ suc n
plus_one-lt n small = omega (arith, small)

release-claim : (r : Router) → InRange r.active → release (claim r) ≡ r
release-claim r small =
    ap (λ n. record r { active = n }) (ap minus_one (plus_one-lt r.active small))

-- A request that is refused leaves the router as it was; one that may ask the host has a slot.
abbrev pub Preparation : Router → Router × Result Fault Prepared → Type 0
Preparation r (r', err fault) = r' ≡ r
Preparation r (r', ok p) =
    (r' ≡ record r { active = suc r.active })
    × (r.active < r.config.max_tracked_requests)
    × (r.stopping ≡ false)

pub prepare-Preparation :
    (r : Router) (req : Value) → InRange r.active → Preparation r (prepare r req)
unfolding prepare
prepare-Preparation r req small =
    if_cases (Preparation r) (not (is_stream_request req)) _ _ (λ bad. refl)
      (λ good.
        if_cases (Preparation r) r.stopping _ _ (λ stops. refl)
          (λ goes.
            if_cases (Preparation r) (leb r.config.max_tracked_requests r.active) _ _
              (λ full. release-claim r small)
              (λ free. elim (Option-cases (text_field req "stream_id")) [
                | inl h ↦ rw h (release-claim r small)
                | inr (downstream, h) ↦ elim (Option-cases (text_field req "host_callback_id")) [
                  | inl k ↦ rw (h, k) (release-claim r small)
                  | inr (callback, k) ↦
                      rw (h, k)
                        (
                          ap (λ n. record r { active = n }) (plus_one-lt r.active small),
                          ground (arith, free),
                          goes,
                        )
                ]
              ])))

-- Who has the slot of a request that is settled: nobody, or a thread.
unfoldable pub Fate : Router → Settlement → Type 0
Fate r s =
    (s.router.config ≡ r.config)
    × (s.router.stopping ≡ r.stopping)
    × ((threads s.started ≡ 0) × (s.router.active ≡ minus_one r.active)
        ⊎ (threads s.started ≡ 1) × (s.router.active ≡ r.active) × (r.stopping ≡ false))

abbrev pub FateOf : Router → Option Settlement → Type 0
FateOf r none = Unit
FateOf r (some s) = Fate r s

settled-Fate :
    (r : Router) (workers : List Worker) (j : Journal) (result : Result Fault Value)
    → Fate r (settled (record r { workers = workers }) j result)
unfolding Fate settled
settled-Fate r workers j result = (refl, refl, inl (refl, refl))

launched-Fate :
    (r : Router) (workers : List Worker) (j : Journal) (worker : Worker) (upstream : Value)
    → r.stopping ≡ false
    → Fate r (launched (record r { workers = workers }) j worker upstream)
unfolding Fate launched
launched-Fate r workers j worker upstream goes = (refl, refl, inr (refl, refl, goes))

module _ (c : Codec) (host : Host) (finished : Worker → Bool) (spawned : Bool) where
  start-Fate :
      (r : Router) (j : Journal) (p : Prepared) (nested : String) (upstream : Value)
      → Fate r (start c host finished spawned r j p nested upstream)
  unfolding start
  start-Fate r j p nested upstream =
      if_cases (Fate r) r.stopping _ _ (λ stops. settled-Fate r _ _ _)
        (λ goes.
          if_cases (Fate r) (not spawned) _ _ (λ failed. settled-Fate r _ _ _)
            (λ fine. launched-Fate r _ j _ upstream goes))

  failed-Fate :
      (r : Router) (j : Journal) (o : Option (Result Fault Value))
      → FateOf r (o >>= λ result. some (settled r j result))
  failed-Fate r j none = tt
  failed-Fate r j (some result) = settled-Fate r r.workers j result

  pub settle-Fate :
      (r : Router) (j : Journal) (p : Prepared) (answer : Result Fault Value)
      → FateOf r (settle c host finished spawned r j p answer)
  unfolding settle
  settle-Fate r j p (err fault) = failed-Fate r j (fail_open c host finished spawned p fault)
  settle-Fate r j p (ok upstream) = elim (Option-cases (text_field upstream "stream_id")) [
    | inl h ↦ rw (h, settle) (settled-Fate r r.workers j _)
    | inr (nested, h) ↦ rw (h, settle) (start-Fate r j p nested upstream)
  ]

read_config-limit :
    (c : Codec) (req : Value) (cfg : Config)
    → read_config c req ≡ ok cfg
    → InRange cfg.max_tracked_requests
unfolding read_config
read_config-limit c req cfg h = elim (Result-cases (config_bytes c req)) [
  | inr (message, k) ↦ absurd (ground (arith, rw k at h))
  | inl (bytes, k) ↦
      Valid.validate-tracked cfg (Valid.parse-validate c.from_yaml bytes cfg (rw k at h))
]

unfoldable pub Accepted : Router → Router × Value → Type 0
Accepted r (r', v) =
    (r'.active ≡ r.active) × (r'.stopping ≡ r.stopping) × InRange r'.config.max_tracked_requests

pub Accepted-parts :
    (r : Router) (x : Router × Value)
    → Accepted r x
    → (x.0.active ≡ r.active)
      × (x.0.stopping ≡ r.stopping)
      × InRange x.0.config.max_tracked_requests
unfolding Accepted
Accepted-parts r x h = h

pub register-Accepted :
    (c : Codec) (r : Router) (req : Value)
    → InRange r.config.max_tracked_requests
    → Accepted r (register c r req)
unfolding register
register-Accepted c r req small = elim (Result-cases (read_config c req)) [
  | inr (message, h) ↦ rw (h, register) (unfold Accepted in (refl, refl, small))
  | inl (cfg, h) ↦
      rw (h, register)
        (if_cases (Accepted r) r.stopping _ _ (λ stops. unfold Accepted in (refl, refl, small))
          (λ goes. unfold Accepted in (refl, refl, read_config-limit c req cfg h)))
]
