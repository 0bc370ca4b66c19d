-- ===== src/ErrorMapping/Sse/Oversize.antt =====
-- `SseMapper` of src/error_mapping.rs over a stream with frames of any length, and without a
-- mapping.
use mathlib.Core.List.{append-nil, append_assoc}
use cpa_stg.Base.Partial.{◌>>=◌}
use cpa_stg.Base.{
  ℕ, ◌+◌, ◌-◌, ◌<◌, true, false, Option, none, some, List, [], ◌∷◌, ◌++◌, ◌≡◌, refl, sym, ap, ◌∙◌,
  inl, inr, ltb, length, if◌then◌else◌, drop, arith, Bool-cases,
}
use cpa_stg.ErrorMapping.Delay.{Bytes}
use cpa_stg.ErrorMapping.{ErrorMapping, map_error}
use cpa_stg.ErrorMapping.Sse.{
  Library, SseMapper, new, push, finish, keep_rest, max_pending, scan_frames, rewrite_frame,
  mapped_frame, event_of,
}
use cpa_stg.ErrorMapping.Sse.Frames.{
  onto, onto-append, length-onto, feed, feed_on, feed_out, ends_frame,
}
use cpa_stg.ErrorMapping.Sse.Push.{
  or_same, frame_of, unfinished, Settled, push-Pushed, push_live, scanned,
}
use cpa_stg.ErrorMapping.Sse.Resume.{onto-onto}
use cpa_stg.ErrorMapping.Sse.Chunks.{pass_chunks, concat}
use cpa_stg.Json.{Value}

push-bypass :
    (library : Library) (m : SseMapper) (bytes : Bytes)
    → m.bypass ≡ true
    → push library m bytes ≡ some (m, bytes)
unfolding push
push-bypass library m bytes off =
    ap
      (λ b.
        if b
        then some (m, bytes)
        else (scan_frames (rewrite_frame library m.mapping) (length (m.pending ++ bytes) + 1)
              (m.pending ++ bytes) 0 m.scan []
            >>= λ result. some (keep_rest m (m.pending ++ bytes) result)))
      off

pass_chunks-bypass :
    (library : Library) (m : SseMapper) (chunks : List Bytes)
    → m.bypass ≡ true
    → m.pending ≡ []
    → pass_chunks library m chunks ≡ some (concat chunks)
unfolding pass_chunks
pass_chunks-bypass library m [] off empty = unfold finish in ap (λ x. some x) empty
pass_chunks-bypass library m (chunk ∷ chunks) off empty =
    ap (λ o. o >>= λ x. pass_chunks library x.0 chunks >>= λ rest. some (x.1 ++ rest))
      (push-bypass library m chunk off)
    ∙ ap (λ o. o >>= λ rest. some (chunk ++ rest)) (pass_chunks-bypass library m chunks off empty)

-- The output for a stream in chunks after `r`: as the stream is read byte by byte, until the
-- unfinished frame at the end of a chunk is over the limit; from there on as it comes.
pub pass : (Bytes → Bytes) → Bytes → List Bytes → Bytes
pass g r [] = onto r []
pass g r (chunk ∷ chunks) =
    let later = pass g (feed g r chunk).1 chunks in
    (feed g r chunk).0
    ++ (if ltb max_pending (length (feed g r chunk).1)
        then onto (feed g r chunk).1 [] ++ concat chunks
        else later)

-- A call that finds the unfinished frame over the limit puts it out and gives up.
record GivenUp (m' : SseMapper) : Type 0 where
  off : m'.bypass ≡ true
  empty : m'.pending ≡ []

module _ (library : Library) (m : SseMapper) where
  abbrev expected : Bytes → Bytes × Bytes
  expected bytes = feed (frame_of library m.mapping) (unfinished m) bytes

  keep_rest-GivenUp :
      (p acc : Bytes) (n : ℕ) (out : Bytes)
      → drop n p ≡ onto acc []
      → max_pending < length acc
      → (m' : SseMapper) × (keep_rest m p (n, out) ≡ (m', out ++ onto acc [])) × GivenUp m'
  unfolding keep_rest
  keep_rest-GivenUp p acc n out left over =
      let big : ltb max_pending (length (drop n p)) ≡ true =
        ground (arith, ap length left, length-onto acc []) in
      (
        record m { pending = []; bypass = true; scan = length (drop n p) - 3 },
        rw big (
            ap
              (λ x.
                (record m { pending = []; bypass = true; scan = length (drop n p) - 3 }, out ++ x))
              left),
        record { off = refl; empty = refl },
      )

  push-GivenUp :
      (bytes : Bytes)
      → Settled m
      → max_pending < length (expected bytes).1
      → (m' : SseMapper) × (push library m bytes
          ≡ some (m', (expected bytes).0 ++ onto (expected bytes).1 []))
        × GivenUp m'
  push-GivenUp bytes s over =
      let p = m.pending ++ bytes in
      let (n, found, left, calm) = scanned library m bytes s in
      let (m', kept, w) = keep_rest-GivenUp p (expected bytes).1 n (expected bytes).0 left over in
      (
        m',
        push_live library m bytes s.live
            ∙ ap (λ o. o >>= λ result. some (keep_rest m p result)) found
            ∙ ap (λ x. some x) kept,
        w,
      )

module _ (g : Bytes → Bytes) where
  pass-over :
      (r chunk : Bytes) (chunks : List Bytes)
      → ltb max_pending (length (feed g r chunk).1) ≡ true
      → pass g r (chunk ∷ chunks)
        ≡ (feed g r chunk).0 ++ (onto (feed g r chunk).1 [] ++ concat chunks)
  unfolding pass
  pass-over r chunk chunks h = rw (h, pass) refl

  pass-on :
      (r chunk : Bytes) (chunks : List Bytes)
      → ltb max_pending (length (feed g r chunk).1) ≡ false
      → pass g r (chunk ∷ chunks) ≡ (feed g r chunk).0 ++ pass g (feed g r chunk).1 chunks
  unfolding pass
  pass-on r chunk chunks h = rw (h, pass) refl

pass_chunks-pass :
    (library : Library) (m : SseMapper) (chunks : List Bytes)
    → Settled m
    → pass_chunks library m chunks ≡ some (pass (frame_of library m.mapping) (unfinished m) chunks)
unfolding pass_chunks
pass_chunks-pass library m [] s =
    unfold pass in
    unfold finish in ap (λ x. some x) (sym (onto-onto m.pending [] [] ∙ append-nil m.pending))
pass_chunks-pass library m (chunk ∷ chunks) s =
    let g = frame_of library m.mapping in
    let e = expected library m chunk in
    elim (Bool-cases (ltb max_pending (length e.1))) [
      | inl over ↦
          let (m', pushed, w) = push-GivenUp library m chunk s (ground arith) in
          ap (λ o. o >>= λ x. pass_chunks library x.0 chunks >>= λ rest. some (x.1 ++ rest)) pushed
          ∙ ap (λ o. o >>= λ rest. some ((e.0 ++ onto e.1 []) ++ rest))
              (pass_chunks-bypass library m' chunks w.off w.empty)
          ∙ ap (λ x. some x)
              (append_assoc e.0 (onto e.1 []) (concat chunks)
                ∙ sym (pass-over g (unfinished m) chunk chunks over))
      | inr fits ↦
          let (m', pushed, w) = push-Pushed library m chunk s (ground arith) in
          ap (λ o. o >>= λ x. pass_chunks library x.0 chunks >>= λ rest. some (x.1 ++ rest)) pushed
          ∙ ap (λ o. o >>= λ rest. some (e.0 ++ rest))
              (pass_chunks-pass library m' chunks w.settled
                ∙ ap (λ (n : ErrorMapping). some (pass (frame_of library n) (unfinished m') chunks))
                    w.same_mapping
                ∙ ap (λ r. some (pass g r chunks)) w.keeps)
          ∙ ap (λ x. some x) (sym (pass-on g (unfinished m) chunk chunks fits))
    ]

module _ (g : Bytes → Bytes) (same : (x : Bytes) → g x ≡ x) where
  feed-same : (r v y : Bytes) → (feed g r v).0 ++ onto (feed g r v).1 y ≡ onto r (v ++ y)
  feed-same r [] y = unfold feed in refl
  feed-same r (c ∷ v) y = elim (Bool-cases (ends_frame (c ∷ r))) [
    | inl h ↦
        let f = feed g [] v in
        ap (λ (s : Bytes × Bytes). s.0 ++ onto s.1 y) (feed_out g r v c h)
        ∙ append_assoc (g (onto (c ∷ r) [])) f.0 (onto f.1 y)
        ∙ ap (λ x. x ++ (f.0 ++ onto f.1 y)) (same (onto (c ∷ r) []))
        ∙ ap (λ x. onto (c ∷ r) [] ++ x) (feed-same [] v y)
        ∙ sym (onto-append (c ∷ r) [] (v ++ y))
    | inr h ↦
        ap (λ (s : Bytes × Bytes). s.0 ++ onto s.1 y) (feed_on g r v c h) ∙ feed-same (c ∷ r) v y
  ]

  pass-same : (r : Bytes) (chunks : List Bytes) → pass g r chunks ≡ onto r (concat chunks)
  pass-same r [] = unfold pass in refl
  pass-same r (chunk ∷ chunks) =
      let f = feed g r chunk in
      elim (Bool-cases (ltb max_pending (length f.1))) [
        | inl over ↦
            pass-over g r chunk chunks over
            ∙ ap (λ x. f.0 ++ x) (sym (onto-append f.1 [] (concat chunks)))
            ∙ feed-same r chunk (concat chunks)
        | inr fits ↦
            pass-on g r chunk chunks fits
            ∙ ap (λ x. f.0 ++ x) (pass-same f.1 chunks)
            ∙ feed-same r chunk (concat chunks)
      ]

map_error-disabled :
    (mapping : ErrorMapping) (status : ℕ) (failure : Value)
    → mapping.enabled ≡ false
    → map_error mapping status failure ≡ none
unfolding map_error
map_error-disabled mapping status failure off = ground (arith, off)

mapped_frame-disabled :
    (library : Library) (mapping : ErrorMapping) (frame : Bytes) (event : Option Value)
    → mapping.enabled ≡ false
    → mapped_frame library mapping frame event ≡ some frame
unfolding mapped_frame
mapped_frame-disabled library mapping frame none off = refl
mapped_frame-disabled library mapping frame (some failure) off =
    rw (map_error-disabled mapping 0 failure off, mapped_frame) refl

frame_of-disabled :
    (library : Library) (mapping : ErrorMapping)
    → mapping.enabled ≡ false
    → (frame : Bytes) → frame_of library mapping frame ≡ frame
unfolding rewrite_frame
frame_of-disabled library mapping off frame =
    ap (or_same frame) (mapped_frame-disabled library mapping frame (event_of library frame) off)

-- A new mapper that is fed a stream in any chunks and then finished never panics. The output is
-- that of the stream read byte by byte, each frame rewritten as it ends, up to the first chunk at
-- whose end the unfinished frame is over the limit, if there is one. That frame and all that
-- comes later go out unchanged.
pub pass_chunks-total :
    (library : Library) (mapping : ErrorMapping) (chunks : List Bytes)
    → pass_chunks library (new mapping) chunks ≡ some (pass (frame_of library mapping) [] chunks)
unfolding new
pass_chunks-total library mapping chunks =
    pass_chunks-pass library (new mapping) chunks
      (record { live = refl; calm = refl; scan_at = refl })

-- Where the mapping is not enabled, a stream of any length and in any chunks comes out byte for
-- byte as it went in.
pub pass_chunks-disabled :
    (library : Library) (mapping : ErrorMapping) (chunks : List Bytes)
    → mapping.enabled ≡ false
    → pass_chunks library (new mapping) chunks ≡ some (concat chunks)
pass_chunks-disabled library mapping chunks off =
    pass_chunks-total library mapping chunks
    ∙ ap (λ x. some x)
        (pass-same (frame_of library mapping) (frame_of-disabled library mapping off) [] chunks)
