-- ===== src/Fetch/Tests.antt =====
-- Runs of the planner, and the properties at these runs.
use spider_net.Prelude.{
  ok, err, ℕ, ◌≤◌, ◌↔◌, All, length, ◌≡◌, refl, List, [], ◌∷◌, arith, wrap64, wrap128,
}
use spider_net.Fetch.Types.{
  direct, ExitSpec, SegmentPlan, FetchPlan, try_new_range, len, gap_or_overlap, Tiles,
}
use spider_net.Fetch.Plan.Split.{
  even_subsplit_even, even_subsplit_excess, IsPart, even_subsplit, subsplit_loop, part_len,
}
use spider_net.Fetch.Plan.Merge.{
  Assignment, merge_tiny_segments, merge_loop, merge_round, merge_into_last, find_tiny,
}
use spider_net.Fetch.Plan.Merge.Whole.{Settled, merge_tiny_segments-Settled}
use spider_net.Fetch.Plan.Exits.{
  used_exits, drop_weakest, sort_exits, insert_exit, weaker, weakest, same_rank, remove_first,
  effective_segments,
}
use spider_net.Fetch.Plan.Exits.Weakest.{Parted, IsById, used_exits-Parted}
use spider_net.Fetch.Plan.Build.{
  build, assign_file, split_file, whole_file, cut_loop, cut_for, end_exclusive, units, assign,
  extend_last, number_segments, validate, validate_segments, validate_loop,
}
use spider_net.Fetch.Plan.Build.Validate.{Sound, validate_iff}
use spider_net.Fetch.Plan.Build.Success.{Plans, build_succeeds}
use spider_net.Fetch.Plan.Build.Cover.{build-covers}

abbrev exit : ℕ → ℕ → ExitSpec ℕ
exit i w = record { id = i; weight = w; egress = direct }

abbrev segment : ℕ → ℕ → ℕ → ℕ → SegmentPlan
segment i a b e = record { index = i; range = record { start = a; end_inclusive = b }; exit = e }

two_exits :
    build 0 100 (exit 2 1 ∷ exit 1 3 ∷ []) 2 5
    ≡ ok (record {
      url = 0;
      file_size = 100;
      segments = segment 0 0 37 1 ∷ segment 1 38 74 1 ∷ segment 2 75 87 2 ∷ segment 3 88 99 2 ∷ [];
    })
unfolding build assign_file split_file whole_file cut_loop cut_for end_exclusive units assign
    extend_last number_segments validate validate_segments validate_loop even_subsplit subsplit_loop
    part_len merge_tiny_segments merge_loop merge_round merge_into_last find_tiny used_exits
    drop_weakest sort_exits insert_exit weaker weakest same_rank remove_first effective_segments
    try_new_range len wrap64 wrap128
two_exits = refl

no_share : build 0 10 (exit 1 1 ∷ exit 2 100 ∷ []) 1 1 ≡ err (gap_or_overlap 1 0 1)
unfolding build assign_file split_file whole_file cut_loop cut_for end_exclusive units assign
    extend_last number_segments validate validate_segments validate_loop even_subsplit subsplit_loop
    part_len merge_tiny_segments merge_loop merge_round merge_into_last find_tiny used_exits
    drop_weakest sort_exits insert_exit weaker weakest same_rank remove_first effective_segments
    try_new_range len wrap64 wrap128
no_share = refl

small_share : build 0 400 (exit 1 1 ∷ exit 2 99 ∷ []) 5 10 ≡ err (gap_or_overlap 0 4 0)
unfolding build assign_file split_file whole_file cut_loop cut_for end_exclusive units assign
    extend_last number_segments validate validate_segments validate_loop even_subsplit subsplit_loop
    part_len merge_tiny_segments merge_loop merge_round merge_into_last find_tiny used_exits
    drop_weakest sort_exits insert_exit weaker weakest same_rank remove_first effective_segments
    try_new_range len wrap64 wrap128
small_share = refl

even_subsplit_even_example :
    Tiles 10 (even_subsplit 10 19 3) 20
    × (length (even_subsplit 10 19 3) ≡ 3)
    × All (IsPart 3) (even_subsplit 10 19 3)
even_subsplit_even_example =
    even_subsplit_even 10 19 3 (omega arith) (omega arith) (omega arith) (omega arith)

even_subsplit_excess_example : even_subsplit 0 3 5 ≡ []
even_subsplit_excess_example = even_subsplit_excess 0 3 5 (omega arith) (omega arith) (omega arith)

abbrev assignment : ℕ → ℕ → ℕ → Assignment
assignment a b e = record { range = record { start = a; end_inclusive = b }; exit = e }

abbrev pieces : List Assignment
pieces = assignment 0 9 1 ∷ assignment 10 12 1 ∷ assignment 13 99 2 ∷ assignment 100 100 3 ∷ []

merge_tiny_segments-Settled_example : Settled (λ e. e ≤ 3) 0 101 4 5 (merge_tiny_segments pieces 5)
merge_tiny_segments-Settled_example =
    merge_tiny_segments-Settled (λ e. e ≤ 3) 0 101 5 pieces
      (refl, omega arith, (refl, omega arith, (refl, omega arith, (refl, omega arith, refl))))
      (omega arith, (omega arith, (omega arith, (omega arith, tt))))

abbrev three : List (ExitSpec ℕ)
three = exit 1 5 ∷ exit 2 1 ∷ exit 3 7 ∷ []

used_exits-Parted_example :
    Parted 25 10 three (used_exits 25 10 three) × IsById (used_exits 25 10 three)
used_exits-Parted_example = used_exits-Parted 25 10 three (omega arith)

abbrev planned : FetchPlan ℕ
planned = record {
  url = 0;
  file_size = 100;
  segments = segment 0 0 37 1 ∷ segment 1 38 74 1 ∷ segment 2 75 87 2 ∷ segment 3 88 99 2 ∷ [];
}

validate_iff_example : (validate planned ≡ ok tt) ↔ Sound 0 0 planned.segments 100
validate_iff_example = validate_iff planned

build-covers_example :
    (planned.url ≡ 0)
    × (planned.file_size ≡ 100)
    × Sound 0 0 planned.segments 100
    × All (λ s. (s.range.start ≤ s.range.end_inclusive) × (s.exit ≤ 2)) planned.segments
build-covers_example =
    build-covers (λ e. e ≤ 2) 0 100 2 5 (exit 2 1 ∷ exit 1 3 ∷ []) planned
      (omega arith, (omega arith, tt)) two_exits

build_succeeds_example : Plans (λ e. e ≤ 2) 0 100 5 (build 0 100 (exit 2 1 ∷ exit 1 3 ∷ []) 2 5)
unfolding used_exits drop_weakest sort_exits insert_exit weaker weakest same_rank remove_first
    effective_segments units wrap128
build_succeeds_example =
    build_succeeds (λ e. e ≤ 2) 0 100 2 5 (exit 2 1 ∷ exit 1 3 ∷ []) (omega arith) (omega arith)
      (omega arith) (omega arith) (omega arith) (omega arith)
      ((omega arith, omega arith, omega arith), ((omega arith, omega arith, omega arith), tt))
      (omega arith)
