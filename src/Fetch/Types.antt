-- ===== src/Fetch/Types.antt =====
-- server/crates/sn-fetch/src/types.rs, and the part of error.rs that planning raises.
-- A newtype over a number is that number; its range is a hypothesis where it matters.
use spider_net.Prelude.{
  ok, err, Result, ℕ, ◌+◌, ◌-◌, ◌≤◌, ◌≡◌, Bool, false, List, [], ◌∷◌, if◌then◌else◌, ltb, wrap64,
}

-- The messages that the code puts into `FetchError::InvalidPlan`.
pub data PlanFault : Type 0 where
  no_exits : PlanFault
  range_reversed : ℕ → ℕ → PlanFault
  boundary_overflow : PlanFault
  too_many_segments : PlanFault
  index_out_of_order : ℕ → ℕ → PlanFault
  gap_or_overlap : ℕ → ℕ → ℕ → PlanFault
  empty_segment : ℕ → PlanFault
  range_end_overflow : PlanFault
  wrong_cover : ℕ → ℕ → PlanFault
  task_panicked : PlanFault

-- A result of planning, whose only error is `FetchError::InvalidPlan`.
abbrev pub Planned : Type 0 → Type 0
Planned A = Result PlanFault A

-- `ByteRange`: both ends belong to the range, as in HTTP. The fields are private and only `try_new` makes a
-- range, so that `start` is never above `end_inclusive`; this is no part of the type here.
pub record ByteRange : Type 0 where
  pub start : ℕ
  pub end_inclusive : ℕ

-- `ByteRange::try_new`.
unfoldable pub try_new_range : ℕ → ℕ → Planned ByteRange
try_new_range start end_inclusive =
    if ltb end_inclusive start
    then err (range_reversed start end_inclusive)
    else ok (record { start = start; end_inclusive = end_inclusive })

-- `ByteRange::len`.
unfoldable pub len : ByteRange → ℕ
len r = wrap64 (r.end_inclusive - r.start + 1)

-- `ByteRange::is_empty`.
abbrev pub is_empty : ByteRange → Bool
is_empty r = false

-- `Egress`, over the type of the URLs of the HTTP library.
pub data Egress (U : Type 0) : Type 0 where
  direct : Egress U
  proxy : U → Egress U

-- One element of `ExitSpecs`.
pub record ExitSpec (U : Type 0) : Type 0 where
  pub id : ℕ
  pub weight : ℕ
  pub egress : Egress U

-- `SegmentPlan`.
pub record SegmentPlan : Type 0 where
  pub index : ℕ
  pub range : ByteRange
  pub exit : ℕ

-- `FetchPlan`.
pub record FetchPlan (U : Type 0) : Type 0 where
  pub url : U
  pub file_size : ℕ
  pub segments : List SegmentPlan

-- The ranges follow one another without gap or overlap, from `a` up to and without `b`.
abbrev pub Tiles : ℕ → List ByteRange → ℕ → Type 0
Tiles a [] b = a ≡ b
Tiles a (r ∷ rs) b = (r.start ≡ a) × (a ≤ r.end_inclusive) × Tiles (r.end_inclusive + 1) rs b
