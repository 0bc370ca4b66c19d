-- ===== src/Router/Pump/Fed.antt =====
-- The mapper of a worker of src/router.rs, and the payloads of the host that it was fed.
use mathlib.Core.List.{append-nil, append_assoc, map}
use cpa_stg.Base.Partial.{◌>>=◌}
use cpa_stg.Base.{
  Option, none, some, List, [], ◌∷◌, ◌++◌, ◌≡◌, refl, sym, ap, ◌∙◌, inl, inr, Option-cases, arith,
}
use cpa_stg.ErrorMapping.Delay.{Bytes}
use cpa_stg.ErrorMapping.Sse.{Library, SseMapper, new, finish, host_record, push_host_chunk}
use cpa_stg.ErrorMapping.Sse.Chunks.{pass_chunks}
use cpa_stg.ErrorMapping.Sse.Oversize.{pass, pass_chunks-total}
use cpa_stg.ErrorMapping.Sse.Push.{frame_of}
use cpa_stg.ErrorMapping.{ErrorMapping}

some_injective : {A : Type 0} {a b : A} → some a ≡ some b → a ≡ b
some_injective h = ground (arith, h)

none≢some : {A : Type 0} {a : A} → none ≡ some a → ⊥
none≢some h = ground (arith, h)

module _ (library : Library) (mapping : ErrorMapping) where
  -- The payloads, the mapper that they lead to and what it has put out.
  pub data Fed : List Bytes → SseMapper → Bytes → Type 0 where
    unfed : Fed [] (new mapping) []
    more :
        {cs : List Bytes} {m m' : SseMapper} {out o : Bytes} (b : Bytes)
        → Fed cs m out
        → push_host_chunk library m b ≡ some (m', o)
        → Fed (cs ++ b ∷ []) m' (out ++ o)

  abbrev pub records : List Bytes → List Bytes
  records cs = map (host_record library) cs

  -- What downstream gets when the payloads are all there is: each frame rewritten as it ends.
  unfoldable pub whole : List Bytes → Bytes
  whole cs = pass (frame_of library mapping) [] (records cs)

  records-snoc :
      (cs : List Bytes) (b : Bytes) (later : List Bytes)
      → records (cs ++ b ∷ []) ++ later ≡ records cs ++ host_record library b ∷ later
  records-snoc [] b later = refl
  records-snoc (c ∷ cs) b later = ap (λ x. host_record library c ∷ x) (records-snoc cs b later)

  join :
      (out o : Bytes) (result : Option Bytes)
      → (do rest ← (do rest ← result; some (o ++ rest)); some (out ++ rest))
        ≡ (do rest ← result; some ((out ++ o) ++ rest))
  join out o none = refl
  join out o (some rest) = ap (λ x. some x) (sym (append_assoc out o rest))

  nothing_out : (result : Option Bytes) → result ≡ (do rest ← result; some ([] ++ rest))
  nothing_out none = refl
  nothing_out (some rest) = refl

  pass_chunks-push :
      (m m' : SseMapper) (b o : Bytes) (later : List Bytes)
      → push_host_chunk library m b ≡ some (m', o)
      → pass_chunks library m (host_record library b ∷ later)
        ≡ (do rest ← pass_chunks library m' later; some (o ++ rest))
  unfolding pass_chunks push_host_chunk
  pass_chunks-push m m' b o later h =
      ap (λ x. x >>= λ y. pass_chunks library y.0 later >>= λ rest. some (y.1 ++ rest)) h

  Fed-pass_chunks :
      {cs : List Bytes} {m : SseMapper} {out : Bytes} (later : List Bytes)
      → Fed cs m out
      → pass_chunks library (new mapping) (records cs ++ later)
        ≡ (do rest ← pass_chunks library m later; some (out ++ rest))
  Fed-pass_chunks later unfed = nothing_out (pass_chunks library (new mapping) later)
  Fed-pass_chunks later (more {cs} {m} {m'} {out} {o} b fed h) =
      ap (pass_chunks library (new mapping)) (records-snoc cs b later)
      ∙ Fed-pass_chunks (host_record library b ∷ later) fed
      ∙ ap (λ x. x >>= λ rest. some (out ++ rest)) (pass_chunks-push m m' b o later h)
      ∙ join out o (pass_chunks library m' later)

  -- A mapper that was fed has put out all but the unfinished frame.
  pub Fed-whole :
      (cs : List Bytes) (m : SseMapper) (out : Bytes)
      → Fed cs m out
      → whole cs ≡ out ++ (finish m).1
  unfolding whole
  Fed-whole cs m out fed = some_injective (
      sym (pass_chunks-total library mapping (records cs))
      ∙ ap (pass_chunks library (new mapping)) (sym (append-nil (records cs)))
      ∙ Fed-pass_chunks [] fed
      ∙ unfold pass_chunks in refl)

  pass_chunks-panic :
      (m : SseMapper) (b : Bytes)
      → push_host_chunk library m b ≡ none
      → pass_chunks library m (host_record library b ∷ []) ≡ none
  unfolding pass_chunks push_host_chunk
  pass_chunks-panic m b h =
      ap (λ x. x >>= λ y. pass_chunks library y.0 [] >>= λ rest. some (y.1 ++ rest)) h

  -- It takes another payload without a panic.
  pub Fed-push :
      (cs : List Bytes) (m : SseMapper) (out b : Bytes)
      → Fed cs m out
      → (x : SseMapper × Bytes) × (push_host_chunk library m b ≡ some x)
  Fed-push cs m out b fed = elim (Option-cases (push_host_chunk library m b)) [
    | inr found ↦ found
    | inl h ↦ absurd (
        none≢some (
          sym (ap (λ x. x >>= λ rest. some (out ++ rest)) (pass_chunks-panic m b h))
          ∙ sym (Fed-pass_chunks (host_record library b ∷ []) fed)
          ∙ pass_chunks-total library mapping (records cs ++ host_record library b ∷ [])))
  ]
