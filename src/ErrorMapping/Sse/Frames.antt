-- ===== src/ErrorMapping/Sse/Frames.antt =====
-- A stream of events as src/error_mapping.rs means it, byte by byte, and what the bytes of a
-- frame's end do to it.
use cpa_stg.Base.{
  ℕ, zero, suc, ◌+◌, Bool, true, false, ◌&&◌, ◌||◌, [], ◌∷◌, ◌++◌, ◌≡◌, refl, ap, ◌∙◌, ◌⊎◌, inl,
  inr, ◌==◌, ℕ_eq, length, take, drop, arith, Bool-cases,
}
use cpa_stg.ErrorMapping.Delay.{Bytes}
use cpa_stg.ErrorMapping.Sse.{starts_with, delimiter}

-- The bytes of `r`, last first, in front of `bytes`.
abbrev pub onto : Bytes → Bytes → Bytes
onto [] bytes = bytes
onto (c ∷ r) bytes = onto r (c ∷ bytes)

-- A frame ends with a blank line. The bytes are last first.
abbrev pub ends_frame : Bytes → Bool
ends_frame r = starts_with (10 ∷ 10 ∷ []) r || starts_with (10 ∷ 13 ∷ 10 ∷ 13 ∷ []) r

-- Byte by byte: the output of the frames that end, each rewritten by `g`, and the unfinished
-- frame, last byte first, after `r` and then the bytes given.
unfoldable pub feed : (Bytes → Bytes) → Bytes → Bytes → Bytes × Bytes
feed g r [] = ([], r)
feed g r (c ∷ cs) = elim (ends_frame (c ∷ r)) [
  | true ↦ (g (onto (c ∷ r) []) ++ (feed g [] cs).0, (feed g [] cs).1)
  | false ↦ feed g (c ∷ r) cs
]

-- No frame's end starts in `r`, which is last first, before `v`.
abbrev pub quiet : Bytes → Bytes → Bool
quiet [] v = true
quiet (c ∷ r) v = delimiter (c ∷ v) == 0 && quiet r (c ∷ v)

pub onto-append : (r x y : Bytes) → onto r (x ++ y) ≡ onto r x ++ y
onto-append [] x y = refl
onto-append (c ∷ r) x y = onto-append r (c ∷ x) y

pub length-onto : (r x : Bytes) → length (onto r x) ≡ length r + length x
length-onto [] x = omega arith
length-onto (c ∷ r) x = omega (arith, length-onto r (c ∷ x))

pub drop-length : (n : ℕ) (x y : Bytes) → n ≡ length x → drop n (x ++ y) ≡ y
drop-length zero [] [] h = refl
drop-length zero [] (c ∷ y) h = refl
drop-length (suc n) [] y h = absurd (omega arith)
drop-length zero (c ∷ x) y h = absurd (omega arith)
drop-length (suc n) (c ∷ x) y h = drop-length n x y (omega arith)

pub take-length : (n : ℕ) (x y : Bytes) → n ≡ length x → take n (x ++ y) ≡ x
take-length zero [] [] h = refl
take-length zero [] (c ∷ y) h = refl
take-length (suc n) [] y h = absurd (omega arith)
take-length zero (c ∷ x) y h = absurd (omega arith)
take-length (suc n) (c ∷ x) y h = ap (λ z. c ∷ z) (take-length n x y (omega arith))

-- A byte that is not in a frame's end does not end a frame.
pub no_end : (r v : Bytes) (c : ℕ) → quiet r (c ∷ v) ≡ true → ends_frame (c ∷ r) ≡ false
no_end [] v c h = ground arith
no_end (x ∷ []) v c h = ground arith
no_end (x ∷ y ∷ []) v c h = ground arith
no_end (x ∷ y ∷ z ∷ r) v c h = ground arith

no_end_pair :
    (r v : Bytes) → quiet r (13 ∷ 10 ∷ 13 ∷ 10 ∷ v) ≡ true → ends_frame (10 ∷ 13 ∷ r) ≡ false
no_end_pair [] v h = refl
no_end_pair (x ∷ []) v h = ground arith
no_end_pair (x ∷ y ∷ r) v h = ground arith

starts_with-rest : (p v : Bytes) → starts_with p v ≡ true → (rest : Bytes) × (v ≡ p ++ rest)
starts_with-rest [] v h = (v, refl)
starts_with-rest (x ∷ p) [] h = absurd (ground arith)
starts_with-rest (x ∷ p) (c ∷ v) h =
    let (rest, same) = starts_with-rest p v (ground arith) in (rest, ground (arith, same))

abbrev pub crlf : Bytes
crlf = 13 ∷ 10 ∷ 13 ∷ 10 ∷ []

abbrev pub lf : Bytes
lf = 10 ∷ 10 ∷ []

pub delimiter-cases :
    (v : Bytes)
    → ((rest : Bytes) × (v ≡ crlf ++ rest))
      ⊎ (((rest : Bytes) × (v ≡ lf ++ rest)) ⊎ (delimiter v ≡ 0))
delimiter-cases v = elim (Bool-cases (starts_with crlf v)) [
  | inl h ↦ inl (starts_with-rest crlf v h)
  | inr h ↦ elim (Bool-cases (starts_with lf v)) [
    | inl k ↦ inr (inl (starts_with-rest lf v k))
    | inr k ↦ inr (inr (ground arith))
  ]
]

module _ (g : Bytes → Bytes) where
  -- A byte that ends no frame joins the unfinished one, and a byte that ends one puts it out.
  pub feed_on :
      (r v : Bytes) (c : ℕ) → ends_frame (c ∷ r) ≡ false → feed g r (c ∷ v) ≡ feed g (c ∷ r) v
  unfolding feed
  feed_on r v c h = rw (h, feed) refl

  pub feed_out :
      (r v : Bytes) (c : ℕ)
      → ends_frame (c ∷ r) ≡ true
      → feed g r (c ∷ v) ≡ (g (onto (c ∷ r) []) ++ (feed g [] v).0, (feed g [] v).1)
  unfolding feed
  feed_out r v c h = rw (h, feed) refl

  pub feed-quiet :
      (r v : Bytes) (c : ℕ) → quiet r (c ∷ v) ≡ true → feed g r (c ∷ v) ≡ feed g (c ∷ r) v
  feed-quiet r v c h = feed_on r v c (no_end r v c h)

  pub feed-lf :
      (r v : Bytes)
      → quiet r (lf ++ v) ≡ true
      → feed g r (lf ++ v) ≡ (g (onto r lf) ++ (feed g [] v).0, (feed g [] v).1)
  unfolding feed
  feed-lf r v h = feed-quiet r (10 ∷ v) 10 h ∙ refl

  pub feed-crlf :
      (r v : Bytes)
      → quiet r (crlf ++ v) ≡ true
      → feed g r (crlf ++ v) ≡ (g (onto r crlf) ++ (feed g [] v).0, (feed g [] v).1)
  unfolding feed
  feed-crlf r v h = feed-quiet r (10 ∷ 13 ∷ 10 ∷ v) 13 h ∙ rw (no_end_pair r v h) refl
