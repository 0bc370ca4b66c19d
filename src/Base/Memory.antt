-- ===== src/Base/Memory.antt =====
-- Memory behind raw pointers: the live blocks by their addresses. `none` is an undefined access: a
-- dead or short block, or a layout that is not the block's.
use cpa_stg.Base.Lists.{length, take}
use cpa_stg.Base.Map.{Map, get, insert, remove, get-insert}
use cpa_stg.Base.Partial.{◌>>=◌}
use cpa_stg.Base.Tests.{ℕ_eq, ◌==◌, ==_refl, if◌then◌else◌, leb}
use Prim.Native.Nat.{ℕ, suc, ◌+◌, ◌≤◌}
use mathlib.Core.Path.{◌≡◌, refl, ap, ◌∙◌}
use mathlib.Core.List.{List, [], ◌∷◌}
use mathlib.Core.Option.{Option, none, some}
use native.Mathlib.Omega.{arith}

abbrev pub Memory : Type 0
Memory = Map ℕ (List ℕ)

-- A pointer and a length; no address is the null pointer.
pub record Buffer : Type 0 where
  pub ptr : Option ℕ
  pub len : ℕ

abbrev pub null_buffer : Buffer
null_buffer = record { ptr = none; len = 0 }

abbrev pub buffer_at : ℕ → List ℕ → Buffer
buffer_at p bytes = record { ptr = some p; len = length bytes }

-- `slice::from_raw_parts`
unfoldable pub load : ℕ → ℕ → Memory → Option (List ℕ)
load p len m = do block ← get p m; if leb len (length block) then some (take len block) else none

-- `Box::from_raw` of a boxed slice, dropped: the length must be that of the block.
unfoldable pub release : ℕ → ℕ → Memory → Option Memory
release p len m = do block ← get p m; if length block == len then some (remove p m) else none

pub get-insert-here : (p : ℕ) (bytes : List ℕ) (m : Memory) → get p (insert p bytes m) ≡ some bytes
get-insert-here p bytes m = get-insert p p bytes m ∙ rw (==_refl p) refl

take-all : (bytes : List ℕ) → take (length bytes) bytes ≡ bytes
take-all [] = refl
take-all (b ∷ bytes) = ap (λ rest. b ∷ rest) (take-all bytes)

pub load-insert :
    (p : ℕ) (bytes : List ℕ) (m : Memory) → load p (length bytes) (insert p bytes m) ≡ some bytes
unfolding load
load-insert p bytes m = rw (get-insert-here p bytes m, ◌>>=◌) (ground (arith, take-all bytes))

remove-dead : (p : ℕ) (m : Memory) → get p m ≡ none → remove p m ≡ m
unfolding get remove
remove-dead p [] h = refl
remove-dead p ((q, bytes) ∷ m) h = ground (arith, remove-dead p m)

-- A new block that goes again leaves the memory as it was.
pub remove-insert :
    (p : ℕ) (bytes : List ℕ) (m : Memory) → get p m ≡ none → remove p (insert p bytes m) ≡ m
unfolding get insert remove
remove-insert p bytes [] h = ground (arith, ==_refl p)
remove-insert p bytes ((q, block) ∷ m) h = ground (arith, ==_refl p, remove-insert p bytes m)

pub release-insert :
    (p : ℕ) (bytes : List ℕ) (m : Memory)
    → get p m ≡ none
    → release p (length bytes) (insert p bytes m) ≡ some m
unfolding release
release-insert p bytes m dead =
    rw (get-insert-here p bytes m, ◌>>=◌)
      (ground (arith, ==_refl (length bytes), remove-insert p bytes m dead))

-- An address above all that are in use.
unfoldable pub unused : Memory → ℕ
unused [] = 0
unused ((p, block) ∷ m) = p + suc (unused m)

above_unused : (p : ℕ) (m : Memory) → unused m ≤ p → get p m ≡ none
unfolding unused get
above_unused p [] h = refl
above_unused p ((q, block) ∷ m) h = ground (arith, above_unused p m)

pub get-unused : (m : Memory) → get (unused m) m ≡ none
get-unused m = above_unused (unused m) m (omega arith)
