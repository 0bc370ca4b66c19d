-- ===== src/Base/Text.antt =====
-- What the program uses of Rust's `str`: lengths, prefixes, `trim`, lines.
use Prim.Native.Char.{Char, code}
use Prim.Native.Nat.{ℕ, ◌+◌}
use Prim.Native.String.{String, len}
use mathlib.Core.Bool.{Bool, true, false, ◌&&◌, ◌||◌}
use mathlib.Core.List.{List, [], ◌∷◌}
use mathlib.Core.Option.{Option, none, some}
use cpa_stg.Base.Tests.{ℕ_eq, leb, ◌==◌, if◌then◌else◌}

-- `char::is_whitespace`, the White_Space property of Unicode.
pub is_whitespace : Char → Bool
is_whitespace ch =
    let c = code ch in
    (leb 9 c && leb c 13)
    || c == 0x20
    || c == 0x85
    || c == 0xa0
    || c == 0x1680
    || (leb 0x2000 c && leb c 0x200a)
    || c == 0x2028
    || c == 0x2029
    || c == 0x202f
    || c == 0x205f
    || c == 0x3000

abbrev pub is_empty_text : String → Bool
is_empty_text String.[] = true
is_empty_text (String.◌∷◌ c s) = false

abbrev pub byte_len : String → ℕ
byte_len = len

pub trim_start : String → String
trim_start String.[] = String.[]
trim_start (String.◌∷◌ c s) = if is_whitespace c then trim_start s else String.◌∷◌ c s

pub trim_end : String → String
trim_end String.[] = String.[]
trim_end (String.◌∷◌ c s) =
    let rest = trim_end s in
    if is_whitespace c && is_empty_text rest then String.[] else String.◌∷◌ c rest

-- `str::trim`.
unfoldable pub trim : String → String
unfolding trim_start trim_end is_whitespace
trim s = trim_end (trim_start s)

abbrev pub same_char : Char → Char → Bool
same_char c d = code c == code d

unfoldable pub append : String → String → String
append String.[] t = t
append (String.◌∷◌ c s) t = String.◌∷◌ c (append s t)

-- `str::strip_prefix`
unfoldable pub strip_prefix : String → String → Option String
strip_prefix String.[] s = some s
strip_prefix (String.◌∷◌ p ps) String.[] = none
strip_prefix (String.◌∷◌ p ps) (String.◌∷◌ c s) = if same_char p c then strip_prefix ps s else none

prepend : Char → List String → List String
prepend c [] = String.◌∷◌ c String.[] ∷ []
prepend c (line ∷ rest) = String.◌∷◌ c line ∷ rest

-- `str::split` at line feeds.
split_lines : String → List String
unfolding prepend
split_lines String.[] = String.[] ∷ []
split_lines (String.◌∷◌ c s) =
    let rest = split_lines s in if code c == 10 then String.[] ∷ rest else prepend c rest

strip_return : String → String
strip_return String.[] = String.[]
strip_return (String.◌∷◌ c s) =
    let rest = strip_return s in
    if code c == 13 && is_empty_text s then String.[] else String.◌∷◌ c rest

-- A line that a line feed ends loses a carriage return; an empty last piece is no line.
end_lines : List String → List String
unfolding strip_return
end_lines [] = []
end_lines (line ∷ []) = if is_empty_text line then [] else line ∷ []
end_lines (line ∷ next ∷ rest) = strip_return line ∷ end_lines (next ∷ rest)

-- `str::lines`
unfoldable pub lines : String → List String
unfolding split_lines end_lines
lines s = end_lines (split_lines s)

-- `join("\n")`
unfoldable pub join_lines : List String → String
unfolding append
join_lines [] = String.[]
join_lines (line ∷ []) = line
join_lines (line ∷ next ∷ rest) = append line (append "\n" (join_lines (next ∷ rest)))

abbrev to_lower : ℕ → ℕ
to_lower c = if leb 65 c && leb c 90 then c + 32 else c

-- `str::eq_ignore_ascii_case`
unfoldable pub eq_ignore_case : String → String → Bool
eq_ignore_case String.[] String.[] = true
eq_ignore_case (String.◌∷◌ c s) (String.◌∷◌ d t) =
    to_lower (code c) == to_lower (code d) && eq_ignore_case s t
eq_ignore_case _ _ = false

-- `str::starts_with`, of the second argument.
unfoldable pub starts_text : String → String → Bool
starts_text String.[] s = true
starts_text (String.◌∷◌ p ps) String.[] = false
starts_text (String.◌∷◌ p ps) (String.◌∷◌ c s) = same_char p c && starts_text ps s
