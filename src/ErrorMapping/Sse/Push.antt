-- ===== src/ErrorMapping/Sse/Push.antt =====
-- One call of `SseMapper::push` of src/error_mapping.rs, against the stream read byte by byte.
use mathlib.Core.List.{append-nil, append_assoc}
use mathlib.Core.Path.{subst}
use cpa_stg.Base.Partial.{◌>>=◌}
use cpa_stg.Base.{
  ℕ, ◌+◌, ◌-◌, ◌≤◌, ◌<◌, true, false, Option, none, some, [], ◌++◌, ◌≡◌, refl, sym, ap, ◌∙◌, inl,
  inr, ℕ_eq, ltb, length, if◌then◌else◌, length-append, take, drop, arith, Option-cases,
}
use cpa_stg.ErrorMapping.Delay.{Bytes}
use cpa_stg.ErrorMapping.{ErrorMapping, map_error}
use cpa_stg.ErrorMapping.Rewrite.{map_error-rewrite}
use cpa_stg.ErrorMapping.Sse.{
  sse, Library, SseMapper, push, keep_rest, max_pending, scan_frames, rewrite_frame, mapped_frame,
  event_of,
}
use cpa_stg.ErrorMapping.Sse.Frames.{onto, length-onto, feed, quiet}
use cpa_stg.ErrorMapping.Sse.Loop.{At, Scans, scan_frames-feed}
use cpa_stg.ErrorMapping.Sse.Resume.{
  quiet-onto, onto-onto, onto_append, take-drop, length-take, calm_after, feed-onto,
}
use cpa_stg.Json.{Value}

-- The rewriting of a frame, and the frame itself if that panicked, which it never does.
abbrev pub or_same : Bytes → Option Bytes → Bytes
or_same frame none = frame
or_same frame (some bytes) = bytes

abbrev pub frame_of : Library → ErrorMapping → Bytes → Bytes
frame_of library mapping frame = or_same frame (rewrite_frame library mapping frame)

mapped_frame-total :
    (library : Library) (mapping : ErrorMapping) (frame : Bytes) (event : Option Value)
    → (bytes : Bytes) × (mapped_frame library mapping frame event ≡ some bytes)
unfolding mapped_frame
mapped_frame-total library mapping frame none = (frame, refl)
mapped_frame-total library mapping frame (some failure) =
    elim (Option-cases (map_error mapping 0 failure)) [
      | inl h ↦ (frame, rw (h, mapped_frame) refl)
      | inr (r, h) ↦
          let (v', done, _, _, _) = map_error-rewrite mapping 0 failure r mapping 0 h in
          (sse library v', rw (h, mapped_frame, done) refl)
    ]

rewrite_frame-total :
    (library : Library) (mapping : ErrorMapping) (frame : Bytes)
    → rewrite_frame library mapping frame ≡ some (frame_of library mapping frame)
unfolding rewrite_frame
rewrite_frame-total library mapping frame =
    let (bytes, h) = mapped_frame-total library mapping frame (event_of library frame) in
    h ∙ ap (λ o. some (or_same frame o)) (sym h)

-- The unfinished frame that a mapper keeps, last byte first.
abbrev pub unfinished : SseMapper → Bytes
unfinished m = onto m.pending []

-- A mapper between two calls that has not given up on its stream: what it keeps holds no end of a
-- frame, and the next scan starts far enough back to see one that the next bytes complete.
pub record Settled (m : SseMapper) : Type 0 where
  pub live : m.bypass ≡ false
  pub calm : quiet (unfinished m) [] ≡ true
  pub scan_at : m.scan ≡ length m.pending - 3

module _ (m : SseMapper) (bytes : Bytes) (s : Settled m) where
  abbrev seen : Bytes
  seen = take m.scan m.pending

  abbrev again : Bytes
  again = drop m.scan m.pending

  scan-le : m.scan ≤ length m.pending
  scan-le = omega (arith, s.scan_at)

  rescan : onto again (onto seen []) ≡ unfinished m
  rescan = sym (onto_append seen again []) ∙ ap (λ x. onto x []) (take-drop m.scan m.pending)

  calm_again : quiet (onto seen []) again ≡ true
  calm_again =
      ap (quiet (onto seen [])) (sym (append-nil again))
      ∙ quiet-onto again (onto seen []) [] (ap (λ x. quiet x []) rescan ∙ s.calm)

  length-again : length seen + length again ≡ length m.pending
  length-again = sym (length-append seen again) ∙ ap length (take-drop m.scan m.pending)

  calm_ahead : quiet (onto seen []) (again ++ bytes) ≡ true
  calm_ahead =
      calm_after seen again bytes
        (λ some_seen. omega (arith, s.scan_at, length-again, length-take m.scan m.pending scan-le))
        calm_again

  scan_start : At (m.pending ++ bytes) [] (onto seen []) (again ++ bytes) 0 m.scan
  scan_start = record {
    whole =
        ap (λ x. x ++ bytes) (sym (take-drop m.scan m.pending))
        ∙ append_assoc seen again bytes
        ∙ sym (onto-onto seen [] (again ++ bytes));
    at_start = refl;
    at_cursor = omega (arith, length-onto seen [], length-take m.scan m.pending scan-le);
    calm = calm_ahead;
  }

-- What a call of `push` does with the stream: the frames that end go out, each rewritten.
pub record Pushed (library : Library) (m m' : SseMapper) (rest : Bytes) : Type 0 where
  pub settled : Settled m'
  pub keeps : unfinished m' ≡ rest
  pub same_mapping : m'.mapping ≡ m.mapping

module _ (library : Library) (m : SseMapper) where
  abbrev pub rewriting : Bytes → Bytes
  rewriting = frame_of library m.mapping

  keep_rest-Pushed :
      (p acc : Bytes) (n : ℕ) (out : Bytes)
      → drop n p ≡ onto acc []
      → quiet acc [] ≡ true
      → m.bypass ≡ false
      → length acc ≤ max_pending
      → (m' : SseMapper) × (keep_rest m p (n, out) ≡ (m', out)) × Pushed library m m' acc
  unfolding keep_rest
  keep_rest-Pushed p acc n out left calm live fits =
      let rest = drop n p in
      let small : ltb max_pending (length rest) ≡ false =
        ground (arith, ap length left, length-onto acc []) in
      let back : onto rest [] ≡ acc =
        ap (λ x. onto x []) left ∙ onto-onto acc [] [] ∙ append-nil acc in
      (
        record m { pending = rest; scan = length rest - 3 },
        rw small refl,
        record {
          settled = record { live = live; calm = ap (λ x. quiet x []) back ∙ calm; scan_at = refl };
          keeps = back;
          same_mapping = refl;
        },
      )

  pub scanned :
      (bytes : Bytes)
      → Settled m
      → Scans (m.pending ++ bytes) [] (feed rewriting (unfinished m) bytes) (
          scan_frames
            (rewrite_frame library m.mapping)
            (length (m.pending ++ bytes) + 1)
            (m.pending ++ bytes)
            0
            m.scan
            [])
  scanned bytes s =
      let p = m.pending ++ bytes in
      let r = onto (take m.scan m.pending) [] in
      let again = drop m.scan m.pending in
      let fed : feed rewriting r (again ++ bytes) ≡ feed rewriting (unfinished m) bytes =
        feed-onto rewriting again r bytes (ap (λ x. quiet x []) (rescan m bytes s) ∙ s.calm)
        ∙ ap (λ x. feed rewriting x bytes) (rescan m bytes s) in
      let enough : length (again ++ bytes) < length p + 1 =
        omega (
          arith,
          length-append again bytes,
          length-append m.pending bytes,
          length-again m bytes s,
        ) in
      subst
        (λ e.
          Scans p [] e (scan_frames (rewrite_frame library m.mapping) (length p + 1) p 0 m.scan []))
        fed
        (scan_frames-feed (rewrite_frame library m.mapping) rewriting
          (rewrite_frame-total library m.mapping) (length p + 1) p [] r (again ++ bytes) [] 0 m.scan
          (scan_start m bytes s) enough)

  pub push_live :
      (bytes : Bytes)
      → m.bypass ≡ false
      → push library m bytes ≡ (
          scan_frames
            (rewrite_frame library m.mapping)
            (length (m.pending ++ bytes) + 1)
            (m.pending ++ bytes)
            0
            m.scan
            []
          >>= λ result. some (keep_rest m (m.pending ++ bytes) result))
  unfolding push
  push_live bytes live =
      ap
        (λ b.
          if b
          then some (m, bytes)
          else (scan_frames (rewrite_frame library m.mapping) (length (m.pending ++ bytes) + 1)
                (m.pending ++ bytes) 0 m.scan []
              >>= λ result. some (keep_rest m (m.pending ++ bytes) result)))
        live

  pub push-Pushed :
      (bytes : Bytes)
      → Settled m
      → length (feed rewriting (unfinished m) bytes).1 ≤ max_pending
      → (m' : SseMapper) × (push library m bytes
          ≡ some (m', (feed rewriting (unfinished m) bytes).0))
        × Pushed library m m' (feed rewriting (unfinished m) bytes).1
  push-Pushed bytes s fits =
      let expected = feed rewriting (unfinished m) bytes in
      let p = m.pending ++ bytes in
      let (n, found, left, calm) = scanned bytes s in
      let (m', kept, w) = keep_rest-Pushed p expected.1 n expected.0 left calm s.live fits in
      (
        m',
        push_live bytes s.live
            ∙ ap (λ o. o >>= λ result. some (keep_rest m p result)) found
            ∙ ap (λ x. some x) kept,
        w,
      )
