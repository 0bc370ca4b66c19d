-- ===== src/Engine/Family/Complete.antt =====
-- The loop of `Engine::complete` of src/engine.rs, and the requests below its roots.
use mathlib.Core.Path.{subst}
use native.Mathlib.Decide.{dec_lt}
use cpa_stg.Base.Map.{get}
use cpa_stg.Base.{
  ℕ, zero, suc, ◌+◌, ◌<◌, String, none, some, List, [], ◌∷◌, ◌++◌, ◌≡◌, refl, sym, ap, ◌∙◌, ◌==◌,
  ==_iff, ==_refl, string_eq, count, count-append, count-reverse, length, length-append,
  length-reverse, arith, ◌⊎◌, inl, inr, Bool-cases, reverse,
}
use cpa_stg.Engine.Family.{
  children_of, Below, root, nested, edge_kept, edge_le, child_count-end_one, get-end_one,
}
use cpa_stg.Engine.{Engine, end_one, child_count, complete_loop, complete}

module _ {T : Type 0} where
  not-Below-nil : {e : Engine T} {x : String} → ¬ Below e [] x
  not-Below-nil (root h) = omega arith
  not-Below-nil (nested d c) = not-Below-nil d

  -- The stack after one round.
  abbrev pushed : Engine T → String → List String → List String
  pushed e id pending = reverse (children_of e id) ++ pending

  count-pushed :
      (e : Engine T) (id other : String) (pending : List String)
      → count other (pushed e id pending) ≡ count other (children_of e id) + count other pending
  count-pushed e id other pending = omega (
    arith,
    count-append other (reverse (children_of e id)) pending,
    count-reverse other (children_of e id),
  )

  -- What is below the stack before a round is the popped id, or below the stack after it.
  Below-round :
      (e : Engine T) (id : String) (pending : List String) {x : String}
      → Below e (id ∷ pending) x
      → (id ≡ x) ⊎ Below (end_one id e) (pushed e id pending) x
  Below-round e id pending {x} (root h) = elim (Bool-cases (id == x)) [
    | inl same ↦ inl ((==_iff id x).0 same)
    | inr other ↦ inr (root (ground (arith, count-pushed e id x pending)))
  ]
  Below-round e id pending (nested {parent = p} {id = x} d c) = elim (Bool-cases (id == x)) [
    | inl same ↦ inl ((==_iff id x).0 same)
    | inr other ↦ elim (Below-round e id pending d) [
      | inl top ↦ inr (root (ground (arith, count-pushed e id x pending, top)))
      | inr below ↦ elim (Bool-cases (id == p)) [
        | inl top ↦ inr (root (ground (arith, count-pushed e id x pending, (==_iff id p).0 top)))
        | inr deep ↦
            inr (nested below (ground (arith, edge_kept e id p x, ==_iff id p, ==_iff id x)))
      ]
    ]
  ]

  -- Nothing else comes below the stack.
  Below-back :
      (e : Engine T) (id : String) (pending : List String) {x : String}
      → Below (end_one id e) (pushed e id pending) x
      → Below e (id ∷ pending) x
  Below-back e id pending {x} (root h) = elim (dec_lt 0 (count x pending)) [
    | yes waits ↦ root (ground arith)
    | no child ↦
        nested (root {id = id} (ground (arith, ==_refl id)))
          (omega (arith, count-pushed e id x pending))
  ]
  Below-back e id pending (nested {parent = p} {id = x} d c) =
      nested (Below-back e id pending d) (omega (arith, edge_le e id p x))

  -- Each child is pushed once at most, so the loop ends within its fuel.
  pub complete_loop-total :
      (fuel : ℕ) (pending : List String) (e : Engine T)
      → child_count e.children + length pending < fuel
      → (e' : Engine T) × (complete_loop fuel pending e ≡ some e')
  unfolding complete_loop
  complete_loop-total zero pending e h = absurd (omega arith)
  complete_loop-total (suc fuel) [] e h = (e, refl)
  complete_loop-total (suc fuel) (id ∷ pending) e h =
      complete_loop-total fuel (pushed e id pending) (end_one id e) (
        omega (
          arith,
          child_count-end_one e id,
          length-append (reverse (children_of e id)) pending,
          length-reverse (children_of e id),
        ))

  -- A request that is not there does not come back.
  stays_ended :
      (fuel : ℕ) (pending : List String) (e : Engine T) {e' : Engine T} (x : String)
      → complete_loop fuel pending e ≡ some e'
      → get x e.requests ≡ none
      → get x e'.requests ≡ none
  unfolding complete_loop
  stays_ended zero pending e x h gone = cc
  stays_ended (suc fuel) [] e {e'} x h gone =
      let same : e ≡ e' = cc in subst (λ (s : Engine T). get x s.requests ≡ none) same gone
  stays_ended (suc fuel) (id ∷ pending) e x h gone =
      stays_ended fuel (pushed e id pending) (end_one id e) x h (ground (arith, get-end_one e id x))

  ends_family :
      (fuel : ℕ) (pending : List String) (e : Engine T) {e' : Engine T} (x : String)
      → complete_loop fuel pending e ≡ some e'
      → Below e pending x
      → get x e'.requests ≡ none
  unfolding complete_loop
  ends_family zero pending e x h b = cc
  ends_family (suc fuel) [] e x h b = absurd (not-Below-nil b)
  ends_family (suc fuel) (id ∷ pending) e x h b = elim (Below-round e id pending b) [
    | inl top ↦
        stays_ended fuel (pushed e id pending) (end_one id e) x h
          (ground (arith, get-end_one e id x, ==_iff id x))
    | inr later ↦ ends_family fuel (pushed e id pending) (end_one id e) x h later
  ]

  keeps_rest :
      (fuel : ℕ) (pending : List String) (e : Engine T) {e' : Engine T} (x : String)
      → complete_loop fuel pending e ≡ some e'
      → ¬ Below e pending x
      → get x e'.requests ≡ get x e.requests
  unfolding complete_loop
  keeps_rest zero pending e x h b = cc
  keeps_rest (suc fuel) [] e {e'} x h b =
      let same : e ≡ e' = cc in ap (λ (s : Engine T). get x s.requests) (sym same)
  keeps_rest (suc fuel) (id ∷ pending) e x h b =
      let top : ¬ (id ≡ x) = λ same. b (root (ground (arith, ==_iff id x, same))) in
      keeps_rest fuel (pushed e id pending) (end_one id e) x h
        (λ below. b (Below-back e id pending below))
      ∙ ground (arith, get-end_one e id x, ==_iff id x, top)

  pub complete-total : (e : Engine T) (id : String) → (e' : Engine T) × (complete e id ≡ some e')
  unfolding complete
  complete-total e id = complete_loop-total (child_count e.children + 2) (id ∷ []) e (omega arith)

  -- Completing a request returns, and ends every request that is the completed one or nested below
  -- it, at any depth: it is no longer there.
  pub complete_ends_family :
      (e : Engine T) (id : String) {x : String}
      → Below e (id ∷ []) x
      → (e' : Engine T) × (complete e id ≡ some e') × (get x e'.requests ≡ none)
  unfolding complete
  complete_ends_family e id {x} below =
      let (e', done) = complete-total e id in
      (e', done, ends_family (child_count e.children + 2) (id ∷ []) e x done below)

  -- Completing a request returns, and leaves a request that is neither the completed one nor
  -- nested below it in its phase.
  pub complete_keeps_rest :
      (e : Engine T) (id x : String)
      → ¬ Below e (id ∷ []) x
      → (e' : Engine T) × (complete e id ≡ some e') × (get x e'.requests ≡ get x e.requests)
  unfolding complete
  complete_keeps_rest e id x apart =
      let (e', done) = complete-total e id in
      (e', done, keeps_rest (child_count e.children + 2) (id ∷ []) e x done apart)
