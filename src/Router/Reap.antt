-- ===== src/Router/Reap.antt =====
-- src/router.rs: the loop of `execute` that drops the workers whose threads are finished.
use mathlib.Core.List.{reverse, filter, Perm, append_assoc, reverse_perm}
use mathlib.Core.List.Perm
use mathlib.Core.Path.{subst}
use cpa_stg.Base.{
  ℕ, zero, suc, Bool, true, false, List, [], ◌∷◌, ◌++◌, ◌≡◌, refl, ap, ◌∙◌, inl, inr, Bool-cases,
  length, length-reverse, arith,
}
use cpa_stg.Router.Execute.{swap_remove, reap}
use cpa_stg.Router.{Worker}

-- The last of the list becomes the first.
rotate : List Worker → List Worker
rotate l = elim l [ [] ↦ [] | last ∷ others ↦ last ∷ reverse others ]

rotate_Perm : (l : List Worker) → Perm (rotate l) l
unfolding rotate
rotate_Perm [] = Perm.refl []
rotate_Perm (last ∷ others) = Perm.cons last (reverse_perm others)

length-rotate : (l : List Worker) → length (rotate l) ≡ length l
unfolding rotate
length-rotate [] = refl
length-rotate (last ∷ others) = ap suc (length-reverse others)

-- The removal takes the first out and moves the others only.
swap_remove-Perm : (w : Worker) (ws : List Worker) → Perm (swap_remove (w ∷ ws)) ws
unfolding swap_remove rotate
swap_remove-Perm w [] = Perm.refl []
swap_remove-Perm w (v ∷ ws) = Perm.trans (rotate_Perm (reverse (v ∷ ws))) (reverse_perm (v ∷ ws))

length-swap_remove : (w : Worker) (ws : List Worker) → length (swap_remove (w ∷ ws)) ≡ length ws
unfolding swap_remove rotate
length-swap_remove w [] = refl
length-swap_remove w (v ∷ ws) = length-rotate (reverse (v ∷ ws)) ∙ length-reverse (v ∷ ws)

abbrev is_false : (b : Bool) → Dec (b ≡ false)
is_false true = no (λ h. ground (arith, h))
is_false false = yes refl

module _ (finished : Worker → Bool) where
  -- The workers whose threads still run.
  abbrev pub unfinished : List Worker → List Worker
  unfinished ws = filter (λ w. is_false (finished w)) ws

  reap-Perm :
      (fuel : ℕ) (kept rest : List Worker)
      → length rest ≡ fuel
      → Perm (reap finished fuel kept rest) (kept ++ unfinished rest)
  unfolding reap
  reap-Perm zero kept [] h = Perm.refl (kept ++ [])
  reap-Perm zero kept (w ∷ ws) h = absurd (omega (arith, h))
  reap-Perm (suc fuel) kept [] h = absurd (omega (arith, h))
  reap-Perm (suc fuel) kept (w ∷ ws) h = elim (Bool-cases (finished w)) [
    | inl done ↦
        rw (done, reap)
          (Perm.trans
            (reap-Perm fuel kept (swap_remove (w ∷ ws)) (omega (arith, length-swap_remove w ws, h)))
            (Perm.append_left kept
              (Perm.filter (λ x. is_false (finished x)) (swap_remove-Perm w ws))))
    | inr runs ↦
        rw (runs, reap)
          (subst (λ l. Perm (reap finished fuel (kept ++ w ∷ []) ws) l)
            (append_assoc kept (w ∷ []) (unfinished ws))
            (reap-Perm fuel (kept ++ w ∷ []) ws (omega (arith, h))))
  ]

  -- The loop has enough rounds for any list of workers, and it leaves the workers whose threads
  -- still run, each of them once, and no other; their order may change.
  pub reap-unfinished :
      (workers : List Worker)
      → Perm (reap finished (length workers) [] workers) (unfinished workers)
  reap-unfinished workers = reap-Perm (length workers) [] workers refl
