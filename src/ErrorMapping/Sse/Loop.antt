-- ===== src/ErrorMapping/Sse/Loop.antt =====
-- The loop of `SseMapper::push` of src/error_mapping.rs, against the stream read byte by byte.
use mathlib.Core.List.{append-nil, append_assoc}
use mathlib.Core.Path.{subst}
use cpa_stg.Base.{
  ℕ, zero, suc, ◌+◌, ◌-◌, ◌<◌, true, false, Option, some, [], ◌∷◌, ◌++◌, ◌≡◌, refl, sym, ap, ◌∙◌,
  inl, inr, ℕ_eq, leb, length, length-append, take, drop, arith,
}
use cpa_stg.ErrorMapping.Delay.{Bytes}
use cpa_stg.ErrorMapping.Sse.{delimiter, scan_frames}
use cpa_stg.ErrorMapping.Sse.Frames.{
  onto, onto-append, length-onto, drop-length, take-length, feed, feed-quiet, feed-lf, feed-crlf,
  quiet, crlf, lf, delimiter-cases,
}

-- The loop has come to an end: its output is `out` and then what the stream gives, and the bytes
-- that it leaves are the unfinished frame.
abbrev pub Scans : Bytes → Bytes → Bytes × Bytes → Option (ℕ × Bytes) → Type 0
Scans p out expected result =
    (s : ℕ) × (result ≡ some (s, out ++ expected.0))
    × (drop s p ≡ onto expected.1 [])
    × (quiet expected.1 [] ≡ true)

-- A position in the pending bytes `p`: the frames before `done` are out, `r` is the unfinished
-- frame up to the cursor, last byte first, and `v` is yet to be read.
pub record At (p done r v : Bytes) (start cursor : ℕ) : Type 0 where
  pub whole : p ≡ done ++ onto r v
  pub at_start : start ≡ length done
  pub at_cursor : cursor ≡ length done + length r
  pub calm : quiet r v ≡ true

module _ {p done r v : Bytes} {start cursor : ℕ} (a : At p done r v start cursor) where
  length-whole : length p ≡ cursor + length v
  length-whole =
      ap length a.whole ∙ omega (arith, length-append done (onto r v), length-onto r v, a.at_cursor)

  drop-start : drop start p ≡ onto r v
  drop-start = ap (drop start) a.whole ∙ drop-length start done (onto r v) a.at_start

  as_appended : p ≡ (done ++ onto r []) ++ v
  as_appended =
      a.whole ∙ ap (λ x. done ++ x) (onto-append r [] v) ∙ sym (append_assoc done (onto r []) v)

  drop-cursor : drop cursor p ≡ v
  drop-cursor =
      ap (drop cursor) as_appended
      ∙ drop-length cursor (done ++ onto r []) v
          (omega (arith, length-append done (onto r []), length-onto r [], a.at_cursor))

module _ {p done r v : Bytes} {start cursor : ℕ} (d rest : Bytes) (a : At p done r v start cursor)
    (same : v ≡ d ++ rest) where
  frame_at : take ((cursor + length d) - start) (drop start p) ≡ onto r d
  frame_at =
      ap (take ((cursor + length d) - start))
        (drop-start a ∙ ap (onto r) same ∙ onto-append r d rest)
      ∙ take-length ((cursor + length d) - start) (onto r d) rest
          (omega (arith, length-onto r d, a.at_cursor, a.at_start))

  past : At p (done ++ onto r d) [] rest (cursor + length d) (cursor + length d)
  past = record {
    whole =
        a.whole
        ∙ ap (λ x. done ++ x) (ap (onto r) same ∙ onto-append r d rest)
        ∙ sym (append_assoc done (onto r d) rest);
    at_start = omega (arith, length-append done (onto r d), length-onto r d, a.at_cursor);
    at_cursor = omega (arith, length-append done (onto r d), length-onto r d, a.at_cursor);
    calm = refl;
  }

module _ (f : Bytes → Option Bytes) (fuel : ℕ) (p : Bytes) (start cursor : ℕ) (out : Bytes) where
  step_end :
      leb (length p) cursor ≡ true → scan_frames f (suc fuel) p start cursor out ≡ some (start, out)
  unfolding scan_frames
  step_end h = rw (h, scan_frames) refl

  step_skip :
      leb (length p) cursor ≡ false
      → delimiter (drop cursor p) ≡ 0
      → scan_frames f (suc fuel) p start cursor out ≡ scan_frames f fuel p start (cursor + 1) out
  unfolding scan_frames
  step_skip h k = rw (h, k, scan_frames) refl

  step_frame :
      (n : ℕ) (x : Bytes)
      → leb (length p) cursor ≡ false
      → delimiter (drop cursor p) ≡ suc n
      → f (take ((cursor + suc n) - start) (drop start p)) ≡ some x
      → scan_frames f (suc fuel) p start cursor out
        ≡ scan_frames f fuel p (cursor + suc n) (cursor + suc n) (out ++ x)
  unfolding scan_frames
  step_frame n x h k r = rw (h, k, r, scan_frames) refl

Scans-frame :
    (p out x : Bytes) (expected : Bytes × Bytes) (result : Option (ℕ × Bytes))
    → Scans p (out ++ x) expected result
    → Scans p out (x ++ expected.0, expected.1) result
Scans-frame p out x expected result (s, same, kept, calm) =
    (s, same ∙ ap (λ y. some (s, y)) (append_assoc out x expected.0), kept, calm)

module _ (f : Bytes → Option Bytes) (g : Bytes → Bytes)
    (total : (x : Bytes) → f x ≡ some (g x)) where
  frame_case :
      (fuel : ℕ) (p done r v out : Bytes) (start cursor : ℕ)
      → At p done r v start cursor
      → (d rest : Bytes) (n : ℕ) → v ≡ d ++ rest
      → length d ≡ suc n
      → delimiter (d ++ rest) ≡ suc n
      → feed g r (d ++ rest) ≡ (g (onto r d) ++ (feed g [] rest).0, (feed g [] rest).1)
      → leb (length p) cursor ≡ false
      → Scans p
          (out ++ g (onto r d))
          (feed g [] rest)
          (scan_frames f fuel p (cursor + suc n) (cursor + suc n) (out ++ g (onto r d)))
      → Scans p out (feed g r v) (scan_frames f (suc fuel) p start cursor out)
  frame_case fuel p done r v out start cursor a d rest n same width here fed inside later =
      let taken : take ((cursor + suc n) - start) (drop start p) ≡ onto r d =
        ap (λ k. take ((cursor + k) - start) (drop start p)) (sym width) ∙ frame_at d rest a same in
      let stepped =
        step_frame f fuel p start cursor out n (g (onto r d)) inside
          (ap delimiter (drop-cursor a ∙ same) ∙ here) (ap f taken ∙ total (onto r d)) in
      let ended = Scans-frame p out (g (onto r d)) (feed g [] rest) _ later in
      subst (Scans p out (feed g r v)) (sym stepped) (
        subst
          (λ e.
            Scans p out e
              (scan_frames f fuel p (cursor + suc n) (cursor + suc n) (out ++ g (onto r d))))
          (sym (ap (feed g r) same ∙ fed)) ended)

  pub scan_frames-feed :
      (fuel : ℕ) (p done r v out : Bytes) (start cursor : ℕ)
      → At p done r v start cursor
      → length v < fuel
      → Scans p out (feed g r v) (scan_frames f fuel p start cursor out)
  scan_frames-feed zero p done r v out start cursor a enough = absurd (omega arith)
  scan_frames-feed (suc fuel) p done r [] out start cursor a enough =
      let over : leb (length p) cursor ≡ true = ground (arith, length-whole a) in
      subst (Scans p out (feed g r [])) (sym (step_end f fuel p start cursor out over)) (
        unfold feed in
        (start, ap (λ x. some (start, x)) (sym (append-nil out)), drop-start a, a.calm))
  scan_frames-feed (suc fuel) p done r (c ∷ v) out start cursor a enough =
      let inside : leb (length p) cursor ≡ false = ground (arith, length-whole a) in
      elim (delimiter-cases (c ∷ v)) [
        | inl (rest, same) ↦
            frame_case fuel p done r (c ∷ v) out start cursor a crlf rest 3 same refl refl
              (feed-crlf g r rest (subst (λ x. quiet r x ≡ true) same a.calm)) inside
              (scan_frames-feed fuel p (done ++ onto r crlf) [] rest (out ++ g (onto r crlf))
                (cursor + 4) (cursor + 4) (past crlf rest a same) (omega (arith, ap length same)))
        | inr (inl (rest, same)) ↦
            frame_case fuel p done r (c ∷ v) out start cursor a lf rest 1 same refl refl
              (feed-lf g r rest (subst (λ x. quiet r x ≡ true) same a.calm)) inside
              (scan_frames-feed fuel p (done ++ onto r lf) [] rest (out ++ g (onto r lf))
                (cursor + 2) (cursor + 2) (past lf rest a same) (omega (arith, ap length same)))
        | inr (inr none_here) ↦
            let calm : quiet (c ∷ r) v ≡ true = ground (arith, a.calm) in
            subst (Scans p out (feed g r (c ∷ v)))
              (sym (
                step_skip f fuel p start cursor out inside
                  (ap delimiter (drop-cursor a) ∙ none_here)))
              (subst (λ e. Scans p out e (scan_frames f fuel p start (cursor + 1) out))
                (sym (feed-quiet g r v c a.calm))
                (scan_frames-feed fuel p done (c ∷ r) v out start (cursor + 1)
                  (record {
                    whole = a.whole;
                    at_start = a.at_start;
                    at_cursor = omega (arith, a.at_cursor);
                    calm = calm;
                  })
                  (omega arith)))
      ]
