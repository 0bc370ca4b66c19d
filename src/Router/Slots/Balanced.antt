-- ===== src/Router/Slots/Balanced.antt =====
-- The count of active executions of src/router.rs.
use mathlib.Core.Path.{subst}
use cpa_stg.Base.{ℕ, zero, suc, ◌+◌, ◌≤◌, ◌≡◌, refl, sym, ◌∙◌, inl, inr, arith}
use cpa_stg.Config.{Config}
use cpa_stg.Engine.{minus_one}
use cpa_stg.Host.{Host}
use cpa_stg.Router.Execute.{Settlement}
use cpa_stg.Router.Handle.{register, shutdown}
use cpa_stg.Router.{Router, Codec, initial}
use cpa_stg.Router.Slots.{
  Load, threads, Step, refuses, asks, settles, ends, configures, stops, Run, here, step, InRange,
  Preparation, prepare-Preparation, Fate, FateOf, settle-Fate, Accepted-parts, register-Accepted,
}

-- The count of the active executions is right, and the limit is one that was accepted.
pub record Balanced (l : Load) : Type 0 where
  pub counted : l.router.active ≡ l.pending + l.running
  pub bounded : InRange l.router.active
  pub limited : InRange l.router.config.max_tracked_requests

pub initial-Balanced : Balanced (record { router = initial; pending = 0; running = 0 })
initial-Balanced = record { counted = refl; bounded = omega arith; limited = omega arith }

minus_one-suc : (a b : ℕ) → a ≡ suc b → minus_one a ≡ b
minus_one-suc zero b h = absurd (omega (arith, h))
minus_one-suc (suc a) b h = omega (arith, h)

-- A slot is given back, or a thread has it now.
settle-Balanced :
    (r : Router) (p n : ℕ) (s : Settlement)
    → Fate r s
    → Balanced (record { router = r; pending = suc p; running = n })
    → Balanced (record { router = s.router; pending = p; running = n + threads s.started })
unfolding Fate
settle-Balanced r p n s (same, _, inl (none_started, left)) b =
    let less = minus_one-suc r.active (p + n) (omega (arith, b.counted)) in
    record {
      counted = omega (arith, left, less, none_started);
      bounded = omega (arith, left, less, b.counted, b.bounded);
      limited = subst (λ (x : Config). InRange x.max_tracked_requests) (sym same) b.limited;
    }
settle-Balanced r p n s (same, _, inr (one_started, left, _)) b = record {
  counted = omega (arith, left, b.counted, one_started);
  bounded = omega (arith, left, b.bounded);
  limited = subst (λ (x : Config). InRange x.max_tracked_requests) (sym same) b.limited;
}

module _ (c : Codec) (host : Host) where
  pub Step-Balanced : {l m : Load} → Step c host l m → Balanced l → Balanced m
  Step-Balanced (refuses {r} {r'} {p} {n} req fault h) b =
      let kept = subst (Preparation r) h (prepare-Preparation r req b.bounded) in
      subst (λ x. Balanced (record { router = x; pending = p; running = n })) (sym kept) b
  Step-Balanced (asks {r} {r'} {p} {n} req prepared h) b =
      let (kept, free, goes) = subst (Preparation r) h (prepare-Preparation r req b.bounded) in
      subst (λ x. Balanced (record { router = x; pending = suc p; running = n })) (sym kept)
        (record {
          counted = omega (arith, b.counted);
          bounded = omega (arith, free, b.limited);
          limited = b.limited;
        })
  Step-Balanced (settles {r} {p} {n} {s} finished spawned j prepared answer h) b =
      settle-Balanced r p n s
        (subst (FateOf r) h (settle-Fate c host finished spawned r j prepared answer)) b
  Step-Balanced (ends {r} {p} {n}) b = record {
    counted = minus_one-suc r.active (p + n) (omega (arith, b.counted));
    bounded =
        omega
          (arith, minus_one-suc r.active (p + n) (omega (arith, b.counted)), b.counted, b.bounded);
    limited = b.limited;
  }
  Step-Balanced (configures {r} req) b =
      let (same, _, small) =
        Accepted-parts r (register c r req) (register-Accepted c r req b.limited) in
      record {
        counted = same ∙ b.counted;
        bounded = omega (arith, same, b.bounded);
        limited = small;
      }
  Step-Balanced (stops j) b =
      unfold shutdown in record { counted = b.counted; bounded = b.bounded; limited = b.limited }

  pub run-Balanced : {l m : Load} → Run c host l m → Balanced l → Balanced m
  run-Balanced here b = b
  run-Balanced (step run last) b = Step-Balanced last (run-Balanced run b)

  -- In every state that a router can reach from its start, the count of active executions is that
  -- of the requests whose host call is under way and of the threads that run, and there are at
  -- most 100000.
  pub run-active :
      (l : Load)
      → Run c host (record { router = initial; pending = 0; running = 0 }) l
      → (l.router.active ≡ l.pending + l.running) × (l.pending + l.running ≤ 100_000)
  run-active l run =
      let b = run-Balanced run initial-Balanced in (b.counted, omega (arith, b.counted, b.bounded))
