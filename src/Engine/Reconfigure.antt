-- ===== src/Engine/Reconfigure.antt =====
-- `Engine::reconfigure` of src/engine.rs: a configuration that is accepted, and one that is not.
use cpa_stg.Base.Map.{get, get-update_all}
use cpa_stg.Base.Result.{Result, ok, err}
use cpa_stg.Base.{ℕ, String, false, some, ◌≡◌, refl, arith, if_cases}
use cpa_stg.Config
use cpa_stg.Config.{Config}
use cpa_stg.Config.Valid.{IsValid, policy-IsValid}
use cpa_stg.Engine.Admission.{adopt, replace_config, reconfigure}
use cpa_stg.Engine.Buckets.{Bucket, refill}
use cpa_stg.Engine.Types.{ScopeKey, scope_eq, scope_name}
use cpa_stg.Engine.{Engine}
use cpa_stg.Float.{F64}

module _ {T : Type 0} ⦃f : F64 T⦄ where
  -- What a bucket is after the change to `c`: the same requests are active and wait in the same
  -- order, and the policy is the one in force under `c`, which is in range.
  pub record Adopted (c : Config) (k : ScopeKey) (b b' : Bucket T) : Type 0 where
    pub same_active : b'.active ≡ b.active
    pub same_queue : b'.queue ≡ b.queue
    pub new_policy : b'.policy ≡ Config.policy c (scope_name k)
    pub in_range : IsValid b'.policy

  adopt-Adopted :
      (c : Config) (now : ℕ) (k : ScopeKey) (b : Bucket T)
      → Config.validate c ≡ ok tt
      → Adopted c k b (adopt c now k b)
  unfolding adopt refill
  adopt-Adopted c now k b h = record {
    same_active = refl;
    same_queue = refl;
    new_policy = refl;
    in_range = policy-IsValid c (scope_name k) h;
  }

  -- An accepted configuration, on an engine that is not stopping, takes effect: the call succeeds,
  -- every request keeps its phase and with it its deadline, and every bucket is `Adopted`.
  pub reconfigure_applies :
      (e : Engine T) (c : Config) (now : ℕ) (k : ScopeKey) (b : Bucket T)
      → Config.validate c ≡ ok tt
      → e.stopping ≡ false
      → get k e.buckets ≡ some b
      → ((reconfigure e c now).1 ≡ ok tt)
        × ((reconfigure e c now).0.config ≡ c)
        × ((reconfigure e c now).0.requests ≡ e.requests)
        × ((b' : Bucket T) × (get k (reconfigure e c now).0.buckets ≡ some b') × Adopted c k b b')
  unfolding reconfigure replace_config
  reconfigure_applies e c now k b h s found =
      rw (h, s)
        (
          refl,
          refl,
          refl,
          (
            adopt c now k b,
            rw (get-update_all (adopt c now) k e.buckets, found) refl,
            adopt-Adopted c now k b h,
          ),
        )

  accepted :
      (e : Engine T) (c : Config) (now : ℕ) (r : Result String (Unit {0}))
      → (replace_config e c now r).1 ≡ ok tt
      → ((replace_config e c now r).0.config ≡ c)
        × ((replace_config e c now r).0.requests ≡ e.requests)
        × (r ≡ ok tt)
  unfolding replace_config
  accepted e c now (err m) p = absurd (ground arith)
  accepted e c now (ok tt') p =
      let (taken, kept) =
        if_cases
          (λ (r : Engine T × Result String (Unit {0})).
            r.1 ≡ ok tt → (r.0.config ≡ c) × (r.0.requests ≡ e.requests))
          e.stopping _ _ (λ stops q. absurd (ground arith)) (λ goes q. (refl, refl)) p in
      (taken, kept, refl)

  -- A call that succeeds had a configuration that passes its validation, which is then in force,
  -- and leaves every request in its phase.
  pub reconfigure_accepted :
      (e : Engine T) (c : Config) (now : ℕ)
      → (reconfigure e c now).1 ≡ ok tt
      → ((reconfigure e c now).0.config ≡ c)
        × ((reconfigure e c now).0.requests ≡ e.requests)
        × (Config.validate c ≡ ok tt)
  unfolding reconfigure
  reconfigure_accepted e c now h = accepted e c now (Config.validate c) h

  refused :
      (e : Engine T) (c : Config) (now : ℕ) (r : Result String (Unit {0})) (message : String)
      → (replace_config e c now r).1 ≡ err message
      → (replace_config e c now r).0 ≡ e
  unfolding replace_config
  refused e c now (err m) message p = refl
  refused e c now (ok tt') message p =
      if_cases (λ (r : Engine T × Result String (Unit {0})). r.1 ≡ err message → r.0 ≡ e) e.stopping
        _ _ (λ stops _. refl) (λ goes q. absurd (ground arith)) p

  -- A call that is refused, for the configuration or because the engine is stopping, leaves the
  -- engine exactly as it was.
  pub reconfigure_refused :
      (e : Engine T) (c : Config) (now : ℕ) (message : String)
      → (reconfigure e c now).1 ≡ err message
      → (reconfigure e c now).0 ≡ e
  unfolding reconfigure
  reconfigure_refused e c now message h = refused e c now (Config.validate c) message h
