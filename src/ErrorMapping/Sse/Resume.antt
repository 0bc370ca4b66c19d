-- ===== src/ErrorMapping/Sse/Resume.antt =====
-- Where the reading of a stream stops in src/error_mapping.rs and goes on: the laws of bytes that
-- are scanned again.
use mathlib.Core.List.{append_assoc}
use cpa_stg.Base.{
  ℕ, zero, suc, ◌≤◌, ◌<◌, true, [], ◌∷◌, ◌++◌, ◌≡◌, refl, sym, ap, ◌∙◌, inl, inr, ℕ_eq, length,
  take, drop, arith, Bool-cases,
}
use cpa_stg.ErrorMapping.Delay.{Bytes}
use cpa_stg.ErrorMapping.Sse.Frames.{onto, feed, feed_on, feed_out, no_end, ends_frame, quiet}

-- More bytes behind at least three others start no frame's end before them.
quiet-more : (r q b : Bytes) → 3 ≤ length q → quiet r q ≡ true → quiet r (q ++ b) ≡ true
quiet-more [] q b long h = refl
quiet-more (c ∷ r) [] b long h = absurd (omega arith)
quiet-more (c ∷ r) (x ∷ []) b long h = absurd (omega arith)
quiet-more (c ∷ r) (x ∷ y ∷ []) b long h = absurd (omega arith)
quiet-more (c ∷ r) (x ∷ y ∷ z ∷ q) b long h =
    ground (arith, quiet-more r (c ∷ x ∷ y ∷ z ∷ q) b (omega arith))

pub quiet-onto : (q r v : Bytes) → quiet (onto q r) v ≡ true → quiet r (q ++ v) ≡ true
quiet-onto [] r v h = h
quiet-onto (c ∷ q) r v h = let k = quiet-onto q (c ∷ r) v h in ground arith

pub onto-onto : (x r y : Bytes) → onto (onto x r) y ≡ onto r (x ++ y)
onto-onto [] r y = refl
onto-onto (c ∷ x) r y = onto-onto x (c ∷ r) y

pub onto_append : (x y r : Bytes) → onto (x ++ y) r ≡ onto y (onto x r)
onto_append [] y r = refl
onto_append (c ∷ x) y r = onto_append x y (c ∷ r)

pub take-drop : (n : ℕ) (x : Bytes) → take n x ++ drop n x ≡ x
take-drop zero [] = refl
take-drop (suc n) [] = refl
take-drop zero (c ∷ x) = refl
take-drop (suc n) (c ∷ x) = ap (λ y. c ∷ y) (take-drop n x)

pub length-take : (n : ℕ) (x : Bytes) → n ≤ length x → length (take n x) ≡ n
length-take zero [] h = refl
length-take (suc n) [] h = absurd (omega arith)
length-take zero (c ∷ x) h = refl
length-take (suc n) (c ∷ x) h = omega (arith, length-take n x (omega arith))

module _ (g : Bytes → Bytes) where
  pub feed-onto :
      (q r v : Bytes) → quiet (onto q r) [] ≡ true → feed g r (q ++ v) ≡ feed g (onto q r) v
  feed-onto [] r v h = refl
  feed-onto (c ∷ q) r v h =
      feed_on g r (q ++ v) c (no_end r (q ++ []) c (quiet-onto (c ∷ q) r [] h))
      ∙ feed-onto q (c ∷ r) v h

  -- Reading goes on where it stopped.
  abbrev pub then_feed : Bytes × Bytes → Bytes → Bytes × Bytes
  then_feed (out, r) y = (out ++ (feed g r y).0, (feed g r y).1)

  pub feed-append : (r x y : Bytes) → feed g r (x ++ y) ≡ then_feed (feed g r x) y
  feed-append r [] y = unfold feed in refl
  feed-append r (c ∷ x) y = elim (Bool-cases (ends_frame (c ∷ r))) [
    | inl h ↦
        let later = feed-append [] x y in
        feed_out g r (x ++ y) c h
        ∙ ap (λ (s : Bytes × Bytes). (g (onto (c ∷ r) []) ++ s.0, s.1)) later
        ∙ ap (λ out. (out, (feed g (feed g [] x).1 y).1))
            (sym (append_assoc (g (onto (c ∷ r) [])) (feed g [] x).0 (feed g (feed g [] x).1 y).0))
        ∙ ap (λ s. then_feed s y) (sym (feed_out g r x c h))
    | inr h ↦
        feed_on g r (x ++ y) c h
        ∙ feed-append (c ∷ r) x y
        ∙ ap (λ s. then_feed s y) (sym (feed_on g r x c h))
  ]

pub calm_after :
    (x y b : Bytes)
    → (0 < length x → 3 ≤ length y)
    → quiet (onto x []) y ≡ true
    → quiet (onto x []) (y ++ b) ≡ true
calm_after [] y b long h = refl
calm_after (c ∷ x) y b long h = quiet-more (onto (c ∷ x) []) y b (long (omega arith)) h
