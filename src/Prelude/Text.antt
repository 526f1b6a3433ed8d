-- ===== src/Prelude/Text.antt =====
-- Text as a list of code points, with the functions of Rust's `str` that the program uses.
pub mod Splits
pub mod Decimal
pub mod Utf8
use Prim.Native.Char.{code}
use Prim.Native.Nat.{ℕ, zero, suc, ◌+◌, ◌-◌, ◌*◌}
use Prim.Native.String.{String}
use mathlib.Core.Bool.{Bool, true, false, ◌&&◌, ◌||◌}
use mathlib.Core.List.{List, [], ◌∷◌}
use mathlib.Core.Option.{Option, none, some}
use spider_net.Prelude.Tests.{leb, ◌==◌, if◌then◌else◌}

abbrev pub Text : Type 0
Text = List ℕ

-- A literal of the source.
abbrev pub codes : String → Text
codes String.[] = []
codes (String.◌∷◌ c s) = code c ∷ codes s

unfoldable pub text_eq : Text → Text → Bool
text_eq [] [] = true
text_eq [] (d ∷ t) = false
text_eq (c ∷ s) [] = false
text_eq (c ∷ s) (d ∷ t) = c == d && text_eq s t

-- `char::is_whitespace`: the code points with the property White_Space.
unfoldable pub is_whitespace : ℕ → Bool
is_whitespace c =
    (leb 9 c && leb c 13)
    || c == 32
    || c == 133
    || c == 160
    || c == 5760
    || (leb 8192 c && leb c 8202)
    || c == 8232
    || c == 8233
    || c == 8239
    || c == 8287
    || c == 12288

unfoldable pub trim_start : Text → Text
trim_start [] = []
trim_start (c ∷ s) = if is_whitespace c then trim_start s else c ∷ s

-- A character in front of a text whose end is trimmed.
unfoldable pub cons_trimmed : ℕ → Text → Text
cons_trimmed c [] = if is_whitespace c then [] else c ∷ []
cons_trimmed c (d ∷ t) = c ∷ d ∷ t

unfoldable pub trim_end : Text → Text
trim_end [] = []
trim_end (c ∷ s) = cons_trimmed c (trim_end s)

-- `str::trim`.
unfoldable pub trim : Text → Text
trim s = trim_end (trim_start s)

-- `strip_prefix`.
unfoldable pub strip_prefix : Text → Text → Option Text
strip_prefix [] s = some s
strip_prefix (p ∷ ps) [] = none
strip_prefix (p ∷ ps) (c ∷ s) = if p == c then strip_prefix ps s else none

unfoldable pub starts_with : Text → Text → Bool
starts_with s prefix = elim (strip_prefix prefix s) [ none ↦ false | some rest ↦ true ]

-- `find` and `split_once` for one character: what stands before and after its first occurrence.
unfoldable pub split_once : ℕ → Text → Option (Text × Text)
split_once c [] = none
split_once c (d ∷ s) =
    if d == c
    then some ([], s)
    else elim (split_once c s) [ none ↦ none | some (before, after) ↦ some (d ∷ before, after) ]

-- `rsplit_once` for one character: before and after its last occurrence.
unfoldable pub rsplit_once : ℕ → Text → Option (Text × Text)
rsplit_once c [] = none
rsplit_once c (d ∷ s) = elim (rsplit_once c s) [
  | some (before, after) ↦ some (d ∷ before, after)
  | none ↦ if d == c then some ([], s) else none
]

unfoldable pub is_digit : ℕ → Bool
is_digit c = leb 48 c && leb c 57

-- The digits of an unsigned number below `bound`, after the value `acc` of those before.
unfoldable pub parse_digits : ℕ → ℕ → Text → Option ℕ
parse_digits bound acc [] = some acc
parse_digits bound acc (c ∷ s) =
    if is_digit c && leb (acc * 10 + (c - 48) + 1) bound
    then parse_digits bound (acc * 10 + (c - 48)) s
    else none

-- `parse` of an unsigned integer type with `bound` values: digits after an optional plus sign.
unfoldable pub parse_uint : ℕ → Text → Option ℕ
parse_uint bound [] = none
parse_uint bound (c ∷ []) = parse_digits bound 0 (c ∷ [])
parse_uint bound (c ∷ d ∷ s) =
    if c == 43 then parse_digits bound 0 (d ∷ s) else parse_digits bound 0 (c ∷ d ∷ s)
