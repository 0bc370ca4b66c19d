-- ===== src/Engine/Limits.antt =====
-- The limits of the policies of src/config.rs, as a predicate on the buckets of src/engine.rs.
use cpa_stg.Base.{
  ◌≤◌, true, not, [], ◌∷◌, ◌≡◌, refl, ◌≢◌, length, length-append, length-retain-le, arith, ◌==◌,
  string_eq, ℕ_eq,
}
use cpa_stg.Config
use cpa_stg.Config.{Config, Policy}
use cpa_stg.Engine.Buckets.{Bucket, new_bucket, refill, available, charge}
use cpa_stg.Engine.Kept.{Closed}
use cpa_stg.Engine.Types.{ScopeKey, scope_name}
use cpa_stg.Float.{F64}

module _ {T : Type 0} where
  -- A bucket is under the policy in force for its credential, and that is switched on; its
  -- active requests and its queue are within the limits of the policy.
  pub record Within (c : Config) (k : ScopeKey) (b : Bucket T) : Type 0 where
    pub in_force : b.policy ≡ Config.policy c (scope_name k)
    pub is_on : b.policy.enabled ≡ true
    pub active_le : b.policy.max_concurrency ≢ 0 → b.active ≤ b.policy.max_concurrency
    pub queue_le : length b.queue ≤ b.policy.max_queue

module _ {T : Type 0} ⦃f : F64 T⦄ (c : Config) where
  pub Within-Closed : Closed c (Within {T = T} c)
  unfolding new_bucket refill available charge
  Within-Closed = record {
    of_new = λ k now on. record {
      in_force = refl;
      is_on = on;
      active_le = λ _. omega arith;
      queue_le = omega arith;
    };
    of_refill = λ k b now w. record {
      in_force = w.in_force;
      is_on = w.is_on;
      active_le = w.active_le;
      queue_le = w.queue_le;
    };
    of_charge = λ k b room w. record {
      in_force = w.in_force;
      is_on = w.is_on;
      active_le = λ limited. ground arith;
      queue_le = w.queue_le;
    };
    of_release = λ k b pos w. record {
      in_force = w.in_force;
      is_on = w.is_on;
      active_le = λ limited. ground (arith, w.active_le limited);
      queue_le = w.queue_le;
    };
    of_cancel = λ k b id w. record {
      in_force = w.in_force;
      is_on = w.is_on;
      active_le = w.active_le;
      queue_le = omega (arith, w.queue_le, length-retain-le (λ other. not (other == id)) b.queue);
    };
    of_serve = λ k b w. record {
      in_force = w.in_force;
      is_on = w.is_on;
      active_le = w.active_le;
      queue_le = ground (arith, w.queue_le);
    };
    of_join = λ k b id space w. record {
      in_force = w.in_force;
      is_on = w.is_on;
      active_le = w.active_le;
      queue_le = omega (arith, length-append b.queue (id ∷ []));
    };
  }
