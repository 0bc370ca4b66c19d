-- ===== src/ErrorMapping/Sse/Chunks.antt =====
-- `SseMapper` of src/error_mapping.rs over a stream that is cut in chunks.
use mathlib.Core.List.{append-nil, append_assoc}
use mathlib.Core.Path.{subst}
use cpa_stg.Base.Partial.{◌>>=◌}
use cpa_stg.Base.{◌≤◌, Option, some, List, [], ◌∷◌, ◌++◌, ◌≡◌, refl, sym, ap, ◌∙◌, ℕ_eq, length}
use cpa_stg.ErrorMapping.Delay.{Bytes}
use cpa_stg.ErrorMapping.{ErrorMapping}
use cpa_stg.ErrorMapping.Sse.{Library, SseMapper, new, push, finish, max_pending}
use cpa_stg.ErrorMapping.Sse.Frames.{onto, feed}
use cpa_stg.ErrorMapping.Sse.Push.{frame_of, unfinished, Settled, push-Pushed}
use cpa_stg.ErrorMapping.Sse.Resume.{onto-onto, feed-append}

-- The output of a whole stream that comes in chunks, with what `finish` gives at its end.
unfoldable pub pass_chunks : Library → SseMapper → List Bytes → Option Bytes
pass_chunks library m [] = some (finish m).1
pass_chunks library m (chunk ∷ chunks) = do
  (m', out) ← push library m chunk
  rest ← pass_chunks library m' chunks
  some (out ++ rest)

-- No frame that is unfinished at the end of a chunk is longer than the limit.
abbrev pub Fits : (Bytes → Bytes) → Bytes → List Bytes → Type 0
Fits g r [] = Unit
Fits g r (chunk ∷ chunks) =
    (length (feed g r chunk).1 ≤ max_pending) × Fits g (feed g r chunk).1 chunks

abbrev pub concat : List Bytes → Bytes
concat [] = []
concat (chunk ∷ chunks) = chunk ++ concat chunks

-- The output for a stream after `r`: every frame that ends, rewritten, and then the unfinished one
-- as it is.
abbrev pub stream : (Bytes → Bytes) → Bytes → Bytes → Bytes
stream g r bytes = (feed g r bytes).0 ++ onto (feed g r bytes).1 []

stream-append :
    (g : Bytes → Bytes) (r x y : Bytes)
    → stream g r (x ++ y) ≡ (feed g r x).0 ++ stream g (feed g r x).1 y
stream-append g r x y =
    ap (λ s. s.0 ++ onto s.1 []) (feed-append g r x y)
    ∙ append_assoc (feed g r x).0 (feed g (feed g r x).1 y).0 (onto (feed g (feed g r x).1 y).1 [])

pass_chunks-stream :
    (library : Library) (m : SseMapper) (chunks : List Bytes)
    → Settled m
    → Fits (frame_of library m.mapping) (unfinished m) chunks
    → pass_chunks library m chunks
      ≡ some (stream (frame_of library m.mapping) (unfinished m) (concat chunks))
unfolding pass_chunks
pass_chunks-stream library m [] s fits =
    unfold feed in
    unfold finish in ap (λ x. some x) (sym (onto-onto m.pending [] [] ∙ append-nil m.pending))
pass_chunks-stream library m (chunk ∷ chunks) s fits =
    let g = frame_of library m.mapping in
    let expected = feed g (unfinished m) chunk in
    let (m', pushed, w) = push-Pushed library m chunk s fits.0 in
    let fits' : Fits (frame_of library m'.mapping) (unfinished m') chunks =
      subst (λ (n : ErrorMapping). Fits (frame_of library n) (unfinished m') chunks)
        (sym w.same_mapping) (subst (λ r. Fits g r chunks) (sym w.keeps) fits.1) in
    let later : pass_chunks library m' chunks ≡ some (stream g expected.1 (concat chunks)) =
      pass_chunks-stream library m' chunks w.settled fits'
      ∙ ap
          (λ (n : ErrorMapping). some (stream (frame_of library n) (unfinished m') (concat chunks)))
          w.same_mapping
      ∙ ap (λ r. some (stream g r (concat chunks))) w.keeps in
    ap (λ o. o >>= λ x. pass_chunks library x.0 chunks >>= λ rest. some (x.1 ++ rest)) pushed
    ∙ ap (λ o. o >>= λ rest. some (expected.0 ++ rest)) later
    ∙ ap (λ x. some x) (sym (stream-append g (unfinished m) chunk (concat chunks)))

-- A new mapper that is fed a stream in chunks and then finished never panics, and the output is
-- that of the stream read byte by byte: each frame rewritten when the blank line that ends it is
-- complete, and the unfinished rest as it is. So the cuts between the chunks do not matter, as
-- long as no unfinished frame at the end of a chunk is over the limit.
pub pass_chunks-new :
    (library : Library) (mapping : ErrorMapping) (chunks : List Bytes)
    → Fits (frame_of library mapping) [] chunks
    → pass_chunks library (new mapping) chunks
      ≡ some (stream (frame_of library mapping) [] (concat chunks))
unfolding new
pass_chunks-new library mapping chunks fits =
    pass_chunks-stream library (new mapping) chunks
      (record { live = refl; calm = refl; scan_at = refl }) fits
