-- ===== src/Engine/Rate/Moves.antt =====
-- The operations of the engine of src/engine.rs and the tokens of one credential, in exact
-- arithmetic.
use mathlib.Core.Path.{subst}
use cpa_stg.Base.Map.{get, get-insert}
use cpa_stg.Base.{
  ℕ, suc, ◌+◌, String, Bool, true, false, Option, some, List, ◌≡◌, ◌≢◌, refl, sym, ap, ◌∙◌, inl,
  inr, ◌==◌, ==_iff, string_eq, ℕ_eq, if◌then◌else◌, arith, Bool-cases, Option-cases,
}
use cpa_stg.Config
use cpa_stg.Config.{Config, Policy}
use cpa_stg.Engine.Admission.{enter}
use cpa_stg.Engine.Buckets.{Bucket, refill, available, charge}
use cpa_stg.Engine.Rate.{Covers, Fresh, credit, refill-Fresh, refill-Covers, charge-Covers}
use cpa_stg.Engine.Types.{
  ScopeKey, scope_name, scope_eq, Decision, admit, wait_until, reject, Phase, idle, active, queued,
}
use cpa_stg.Engine.{
  Engine, without, detach, leave, update_bucket, drop_active, drop_queued, put_bucket, put_request,
}
use cpa_stg.Float.Fixed.{fixed}

abbrev pub granted : Decision → ℕ
granted admit = 1
granted (wait_until t) = 0
granted (reject reason) = 0

-- The tokens of `k` that a decision on `key` takes.
abbrev pub grant : ScopeKey → ScopeKey → Decision → ℕ
grant k key d = if key == k then granted d else 0

-- A credential whose policy is on and limits the rate.
module _ (c : Config) (k : ScopeKey) where
  abbrev pub in_force : Policy
  in_force = Config.policy c (scope_name k)

  pub record IsLimited : Type 0 where
    pub is_on : in_force.enabled ≡ true
    pub limits : in_force.requests_per_minute ≢ 0

module _ (c : Config) (k : ScopeKey) (l : IsLimited c k) (now : ℕ) where
  abbrev pub CoversAt : ℕ → ℕ → Option (Bucket ℕ) → Type 0
  CoversAt m n o = Covers (in_force c k) l.limits now m n o

  pub record Room (m n : ℕ) (e : Engine ℕ) : Type 0 where
    pub same_config : e.config ≡ c
    pub covers : CoversAt m n (get k e.buckets)

  -- What is known of a bucket that is put back, if it is that of `k`.
  abbrev pub Ready : ℕ → ℕ → ScopeKey → Bucket ℕ → Type 0
  Ready m n key b = (key == k) ≡ true → CoversAt m n (some b) × Fresh (in_force c k) l.limits now b

  pub put_bucket-Room :
      (m n n' : ℕ) (key : ScopeKey) (b : Bucket ℕ) (e : Engine ℕ)
      → ((key == k) ≡ true → CoversAt m n' (some b))
      → ((key == k) ≡ false → n' ≡ n)
      → Room m n e
      → Room m n' (put_bucket key b e)
  put_bucket-Room m n n' key b e here other r = record {
    same_config = r.same_config;
    covers = elim (Bool-cases (key == k)) [
      | inl is ↦
          subst (CoversAt m n')
            (sym (
              get-insert key k b e.buckets
              ∙ ap (λ (t : Bool). if t then some b else get k e.buckets) is))
            (here is)
      | inr ne ↦
          subst (CoversAt m n')
            (sym (
              get-insert key k b e.buckets
              ∙ ap (λ (t : Bool). if t then some b else get k e.buckets) ne))
            (subst (λ i. CoversAt m i (get k e.buckets)) (sym (other ne)) r.covers)
    ];
  }

  pub bucket_of :
      (m n : ℕ) (key : ScopeKey) (b : Bucket ℕ) (e : Engine ℕ)
      → (key == k) ≡ true
      → get key e.buckets ≡ some b
      → Room m n e
      → CoversAt m n (some b)
  bucket_of m n key b e is found r =
      let same : key ≡ k = (==_iff key k).0 is in
      subst (CoversAt m n) (subst (λ j. get j e.buckets ≡ some b) same found) r.covers

  -- A change that leaves tokens, time and policy alone.
  update_bucket-Room :
      (m n : ℕ) (key : ScopeKey) (g : Bucket ℕ → Bucket ℕ) (e : Engine ℕ)
      → ((b : Bucket ℕ) → CoversAt m n (some b) → CoversAt m n (some (g b)))
      → Room m n e
      → Room m n (update_bucket key g e)
  unfolding update_bucket
  update_bucket-Room m n key g e same r = elim (Option-cases (get key e.buckets)) [
    | inl gone ↦ rw (gone, update_bucket) r
    | inr (b, found) ↦
        rw (found, update_bucket)
          (put_bucket-Room m n n key (g b) e (λ is. same b (bucket_of m n key b e is found r))
            (λ ne. refl) r)
  ]

  pub put_request-Room :
      (m n : ℕ) (id : String) (phase : Phase) (e : Engine ℕ)
      → Room m n e
      → Room m n (put_request id phase e)
  put_request-Room m n id phase e r = record { same_config = r.same_config; covers = r.covers }

  pub recount : (m n n' : ℕ) (e : Engine ℕ) → n' ≡ n → Room m n e → Room m n' e
  recount m n n' e same r = subst (λ i. Room m i e) (sym same) r

  pub drop_active-CoversAt :
      (m n : ℕ) (b : Bucket ℕ) → CoversAt m n (some b) → CoversAt m n (some (drop_active b))
  unfolding credit
  drop_active-CoversAt m n b covers = covers

  pub set_queue-CoversAt :
      (m n : ℕ) (q : List String) (b : Bucket ℕ)
      → CoversAt m n (some b)
      → CoversAt m n (some (record b { queue = q }))
  unfolding credit
  set_queue-CoversAt m n q b covers = covers

  leave-Room :
      (m n : ℕ) (id : String) (phase : Phase) (e : Engine ℕ)
      → Room m n e
      → Room m n (leave id phase e)
  unfolding leave
  leave-Room m n id idle e r = r
  leave-Room m n id (active key) e r =
      update_bucket-Room m n key drop_active e (drop_active-CoversAt m n) r
  leave-Room m n id (queued key d) e r =
      update_bucket-Room m n key (drop_queued id) e
        (λ b. set_queue-CoversAt m n (without id b.queue) b) r

  pub detach-Room : (m n : ℕ) (e : Engine ℕ) (id : String) → Room m n e → Room m n (detach e id)
  unfolding detach
  detach-Room m n e id r = elim (Option-cases (get id e.requests)) [
    | inl h ↦ rw (h, detach) r
    | inr (phase, h) ↦ rw (h, detach) (leave-Room m n id phase _ (put_request-Room m n id idle e r))
  ]

  pub refill-Ready :
      (m n : ℕ) (key : ScopeKey) (b : Bucket ℕ) (e : Engine ℕ)
      → get key e.buckets ≡ some b
      → Room m n e
      → Ready m n key (refill b now)
  refill-Ready m n key b e found r is =
      let covers = bucket_of m n key b e is found r in
      let (same, past, within) = covers in
      (
        refill-Covers (in_force c k) l.limits now m n b covers,
        refill-Fresh (in_force c k) l.limits now b same,
      )

  pub set_queue-Ready :
      (m n : ℕ) (key : ScopeKey) (q : List String) (b : Bucket ℕ)
      → Ready m n key b
      → Ready m n key (record b { queue = q })
  set_queue-Ready m n key q b ready is =
      let (covers, fresh) = ready is in
      (
        set_queue-CoversAt m n q b covers,
        record { is_now = fresh.is_now; full_at_most = fresh.full_at_most },
      )

  pub enter-Room :
      (m n : ℕ) (key : ScopeKey) (id : String) (b : Bucket ℕ) (e : Engine ℕ)
      → available b ≡ true
      → Ready m n key b
      → Room m n e
      → Room m (grant k key admit + n) (enter key id b e)
  unfolding enter
  enter-Room m n key id b e room ready r = put_request-Room m _ id (active key) _ (
      put_bucket-Room m n (grant k key admit + n) key (charge b) e
        (λ is.
          let (covers, fresh) = ready is in
          let one : grant k key admit + n ≡ suc n = rw is (omega arith) in
          subst (λ i. CoversAt m i (some (charge b))) (sym one)
            (charge-Covers (in_force c k) l.limits now m n b fresh room covers))
        (λ ne. rw ne (omega arith)) r)
