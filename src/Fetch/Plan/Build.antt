-- ===== src/Fetch/Plan/Build.antt =====
-- `FetchPlan::build` and `FetchPlan::validate` of server/crates/sn-fetch/src/plan.rs.
pub mod Validate
pub mod Shares
pub mod Success
pub mod Ranges
pub mod Cover
use spider_net.Prelude.{
  ok, err, ◌>>=◌, ℕ, zero, suc, ◌+◌, ◌-◌, ◌*◌, ◌/◌, ◌≡◌, not, ◌&&◌, List, [], ◌∷◌, ◌++◌, map,
  if◌then◌else◌, ◌==◌, ltb, leb, length, sum_of, u32_mod, u64_mod, wrap128,
}
use spider_net.Fetch.Types.{
  Planned, no_exits, boundary_overflow, too_many_segments, index_out_of_order, gap_or_overlap,
  empty_segment, range_end_overflow, wrong_cover, ByteRange, try_new_range, is_empty, ExitSpec,
  SegmentPlan, FetchPlan,
}
use spider_net.Fetch.Plan.Split.{even_subsplit}
use spider_net.Fetch.Plan.Merge.{Assignment, merge_tiny_segments}
use spider_net.Fetch.Plan.Exits.{used_exits, effective_segments}

-- The loop of `validate`: the expected index, the cursor, and the cursor at the end.
unfoldable pub validate_loop : ℕ → ℕ → List SegmentPlan → Planned ℕ
validate_loop expected cursor [] = ok cursor
validate_loop expected cursor (seg ∷ segs) =
    if leb u32_mod expected
    then err too_many_segments
    else if not (seg.index == expected)
    then err (index_out_of_order seg.index expected)
    else if not (seg.range.start == cursor)
    then err (gap_or_overlap seg.index seg.range.start cursor)
    else if is_empty seg.range
    then err (empty_segment seg.index)
    else if leb u64_mod (seg.range.end_inclusive + 1)
    then err range_end_overflow
    else validate_loop (expected + 1) (seg.range.end_inclusive + 1) segs

unfoldable pub validate_segments : ℕ → List SegmentPlan → Planned (Unit {0})
validate_segments file_size segs = do
  cursor ← validate_loop 0 0 segs
  if cursor == file_size then ok tt else err (wrong_cover cursor file_size)

-- The ranges of one exit.
unfoldable pub assign : ℕ → List ByteRange → List Assignment
assign exit [] = []
assign exit (r ∷ rs) = record { range = r; exit = exit } ∷ assign exit rs

-- The variables of the loop over the exits.
pub record Cut : Type 0 where
  pub start : ℕ
  pub assignments : List Assignment

-- The body of the loop behind `end_exclusive`: the bytes from `start` go to this exit.
unfoldable pub cut_for : ℕ → ℕ → ℕ → Cut → Cut
cut_for exit exit_end spe c =
    if leb c.start (exit_end - 1)
    then record {
      start = exit_end;
      assignments = c.assignments ++ assign exit (even_subsplit c.start (exit_end - 1) spe);
    }
    else c

-- The whole file for one exit.
unfoldable pub whole_file : ℕ → ℕ → Planned (List Assignment)
whole_file size exit = do
  only ← try_new_range 0 (size - 1)
  ok (record { range = only; exit = exit } ∷ [])

-- `extend the last assignment anyway`.
unfoldable pub extend_last : ℕ → List Assignment → Planned (List Assignment)
extend_last size [] = ok []
extend_last size (a ∷ []) = do
  range ← try_new_range a.range.start (size - 1)
  ok (record { range = range; exit = a.exit } ∷ [])
extend_last size (a ∷ b ∷ more) = do rest ← extend_last size (b ∷ more); ok (a ∷ rest)

-- `enumerate` with the conversion of the position to a `u32`.
unfoldable pub number_segments : ℕ → List Assignment → Planned (List SegmentPlan)
number_segments i [] = ok []
number_segments i (a ∷ as') = if leb u32_mod i then err too_many_segments else do
  rest ← number_segments (i + 1) as'
  ok (record { index = i; range = a.range; exit = a.exit } ∷ rest)

module _ {U : Type 0} where
  -- `FetchPlan::validate`.
  unfoldable pub validate : FetchPlan U → Planned (Unit {0})
  validate p = validate_segments p.file_size p.segments

  unfoldable pub units : ℕ → ExitSpec U → ℕ
  units spe e = wrap128 (e.weight * spe)

  -- Where the bytes of an exit end; the last one reaches to the end of the file.
  unfoldable pub end_exclusive : ℕ → ℕ → ℕ → ℕ → ExitSpec U → List (ExitSpec U) → ℕ
  end_exclusive size total spe cursor e es =
      if length es == 0 then size else wrap128 (cursor + wrap128 (size * units spe e) / total)

  -- The loop over the exits.
  unfoldable pub cut_loop : ℕ → ℕ → ℕ → ℕ → List (ExitSpec U) → Cut → Planned Cut
  cut_loop size total spe cursor [] c = ok c
  cut_loop size total spe cursor (e ∷ es) c =
      let exit_end = end_exclusive size total spe cursor e es in
      let rest = cut_loop size total spe exit_end es (cut_for e.id exit_end spe c) in
      if leb u64_mod exit_end then err boundary_overflow else rest

  -- The `else` branch: the weighted split, and the rest of the file if the loop left any.
  unfoldable pub split_file : ℕ → ℕ → ExitSpec U → List (ExitSpec U) → Planned (List Assignment)
  split_file size spe e es = do
    let exits = e ∷ es
    let total = wrap128 (sum_of (units spe) exits)
    c ← cut_loop size total spe 0 exits (record { start = 0; assignments = [] })
    if ltb c.start size
        then (if length c.assignments == 0
            then whole_file size e.id
            else extend_last size c.assignments)
        else ok c.assignments

  -- The assignments before merging, on the exits that are used, in id order.
  unfoldable pub assign_file : ℕ → ℕ → List (ExitSpec U) → Planned (List Assignment)
  assign_file size spe [] = err no_exits
  assign_file size spe (e ∷ es) =
      if length es == 0 && spe == 1 then whole_file size e.id else split_file size spe e es

  -- `FetchPlan::build`.
  unfoldable pub build : U → ℕ → List (ExitSpec U) → ℕ → ℕ → Planned (FetchPlan U)
  build url size exits segments_per_exit min_segment =
      if length exits == 0 then err no_exits else do
        let used = used_exits size min_segment exits
        let spe = effective_segments size (length used) min_segment segments_per_exit
        assignments ← assign_file size spe used
        segments ← number_segments 0 (merge_tiny_segments assignments min_segment)
        let plan : FetchPlan U = record { url = url; file_size = size; segments = segments }
        _ ← validate plan
        ok plan
