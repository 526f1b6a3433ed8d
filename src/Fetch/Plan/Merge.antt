-- ===== src/Fetch/Plan/Merge.antt =====
-- `merge_tiny_segments` of server/crates/sn-fetch/src/plan.rs. Each round shortens the list, so its
-- length is enough fuel.
pub mod Covering
pub mod Whole
use mathlib.Core.List.{append_assoc}
use spider_net.Prelude.{
  ok, err, subst, All-append, ℕ, zero, suc, ◌+◌, ◌≤◌, ◌<◌, ◌≡◌, refl, sym, ap, ◌∙◌, ◌⊎◌, inl, inr,
  List, [], ◌∷◌, ◌++◌, if◌then◌else◌, ◌==◌, true, false, ltb, length, length-append, Option, none,
  some, Option-cases, Bool-cases, arith, All,
}
use spider_net.Fetch.Types.{ByteRange, try_new_range, len}

-- A range and the exit that it is assigned to.
pub record Assignment : Type 0 where
  pub range : ByteRange
  pub exit : ℕ

-- `position` of the first range below the minimum: what stands before it, the element, the rest.
pub record Found : Type 0 where
  pub before : List Assignment
  pub tiny : Assignment
  pub after : List Assignment

unfoldable pub find_tiny : ℕ → List Assignment → List Assignment → Option Found
find_tiny min_segment before [] = none
find_tiny min_segment before (a ∷ rest) =
    if ltb (len a.range) min_segment
    then some (record { before = before; tiny = a; after = rest })
    else find_tiny min_segment (before ++ a ∷ []) rest

-- Merge the last element into the one before it, keeping the exit of that one.
unfoldable pub merge_into_last : List Assignment → Assignment → Option (List Assignment)
merge_into_last [] tiny = none
merge_into_last (prev ∷ []) tiny = elim (try_new_range prev.range.start tiny.range.end_inclusive) [
  | ok range ↦ some (record { range = range; exit = prev.exit } ∷ [])
  | err _ ↦ none
]
merge_into_last (a ∷ b ∷ more) tiny = elim (merge_into_last (b ∷ more) tiny) [
  | some rest ↦ some (a ∷ rest)
  | none ↦ none
]

-- One round of the `while` loop; `none` where the loop breaks.
unfoldable pub merge_round : Found → Option (List Assignment)
merge_round f = elim f.after [
  | next ∷ rest ↦ elim (try_new_range f.tiny.range.start next.range.end_inclusive) [
    | ok range ↦ some (f.before ++ record { range = range; exit = next.exit } ∷ rest)
    | err _ ↦ none
  ]
  | [] ↦ merge_into_last f.before f.tiny
]

unfoldable pub merge_loop : ℕ → ℕ → List Assignment → List Assignment
merge_loop min_segment zero assignments = assignments
merge_loop min_segment (suc fuel) assignments = elim (find_tiny min_segment [] assignments) [
  | none ↦ assignments
  | some found ↦
      let next : List Assignment = elim (merge_round found) [
        | none ↦ assignments
        | some merged ↦ merge_loop min_segment fuel merged
      ] in
      if length assignments == 1 then assignments else next
]

unfoldable pub merge_tiny_segments : List Assignment → ℕ → List Assignment
merge_tiny_segments assignments min_segment =
    merge_loop min_segment (length assignments) assignments
