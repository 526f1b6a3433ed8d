-- ===== src/Fetch/Plan/Build/Validate.antt =====
-- What `validate` accepts: the segments of a plan that covers the file.
use spider_net.Prelude.{
  ok, >>=-eq-ok, ℕ, suc, ◌+◌, ◌≤◌, ◌<◌, ◌≡◌, refl, sym, ap, ◌∙◌, ◌↔◌, inl, inr, List, [], ◌∷◌,
  arith, All, length, u32_mod, u64_mod, leb, Bool-cases, true, false, subst,
}
use spider_net.Fetch.Types.{ByteRange, SegmentPlan, FetchPlan}
use spider_net.Fetch.Plan.Merge.{Assignment}
use spider_net.Fetch.Plan.Merge.Covering.{Covers, Covers-le}
use spider_net.Fetch.Plan.Build.{validate_loop, validate_segments, validate, number_segments}

-- Segments are numbered from `i`, follow one another from byte `a` up to and without byte `b`, and
-- no number leaves its machine word.
abbrev pub Sound : ℕ → ℕ → List SegmentPlan → ℕ → Type 0
Sound i a [] b = a ≡ b
Sound i a (seg ∷ segs) b =
    (seg.index ≡ i)
    × (i < u32_mod)
    × (seg.range.start ≡ a)
    × (seg.range.end_inclusive + 1 < u64_mod)
    × Sound (i + 1) (seg.range.end_inclusive + 1) segs b

validate_loop-ok :
    (i a b : ℕ) (segs : List SegmentPlan) → validate_loop i a segs ≡ ok b → Sound i a segs b
unfolding validate_loop
validate_loop-ok i a b [] h = ground arith
validate_loop-ok i a b (seg ∷ segs) h =
    ground (arith, validate_loop-ok (i + 1) (seg.range.end_inclusive + 1) b segs)

validate_loop-total :
    (i a b : ℕ) (segs : List SegmentPlan) → Sound i a segs b → validate_loop i a segs ≡ ok b
unfolding validate_loop
validate_loop-total i a b [] s = ap ok s
validate_loop-total i a b (seg ∷ segs) s =
    ground (arith, validate_loop-total (i + 1) (seg.range.end_inclusive + 1) b segs)

-- `validate` accepts exactly the plans whose segments are numbered from 0 and follow one another
-- from byte 0 to the end of the file, with 32-bit numbers and range ends below 2 ^ 64 - 1.
pub validate_iff :
    {U : Type 0} (p : FetchPlan U) → (validate p ≡ ok tt) ↔ Sound 0 0 p.segments p.file_size
unfolding validate validate_segments
validate_iff p =
    (accepted, λ s. rw (validate_loop-total 0 0 p.file_size p.segments s) (ground arith))
  where
    accepted : validate p ≡ ok tt → Sound 0 0 p.segments p.file_size
    accepted h =
        let (cursor, e, f) = >>=-eq-ok (validate_loop 0 0 p.segments) _ h in
        let all : cursor ≡ p.file_size = ground (arith, f) in
        subst (Sound 0 0 p.segments) all (validate_loop-ok 0 0 cursor p.segments e)

-- Numbering the assignments that cover a file gives sound segments, if the numbers suffice.
pub number_segments-Sound :
    (i a b : ℕ) (xs : List Assignment)
    → Covers a xs b
    → b < u64_mod
    → i + length xs ≤ u32_mod
    → (segs : List SegmentPlan) × (number_segments i xs ≡ ok segs) × Sound i a segs b
unfolding number_segments
number_segments-Sound i a b [] c f n = ([], refl, c)
number_segments-Sound i a b (x ∷ xs) c f n =
    let (segs, e, s) =
      number_segments-Sound (i + 1) (x.range.end_inclusive + 1) b xs c.2 f (omega arith) in
    let room : leb u32_mod i ≡ false = ground arith in
    (
      record { index = i; range = x.range; exit = x.exit } ∷ segs,
      rw (room, e),
      (refl, omega arith, c.0, omega (arith, Covers-le (x.range.end_inclusive + 1) b xs c.2), s),
    )

numbered_parts :
    (i : ℕ) (x : Assignment) (xs : List Assignment) (segs : List SegmentPlan)
    → number_segments i (x ∷ xs) ≡ ok segs
    → (rest : List SegmentPlan) × (number_segments (i + 1) xs ≡ ok rest)
      × (segs ≡ record { index = i; range = x.range; exit = x.exit } ∷ rest)
unfolding number_segments
numbered_parts i x xs segs h = elim (Bool-cases (leb u32_mod i)) [
  | inl t ↦ absurd (refused t)
  | inr t ↦
      let (rest, e, f) = >>=-eq-ok (number_segments (i + 1) xs) _ (rw t at h) in (rest, e, cc f)
]
  where
    refused : leb u32_mod i ≡ true → ⊥
    refused t = ground (arith, t)

-- Numbering changes neither ranges nor exits, and loses no segment.
pub number_segments-All :
    (Q : ByteRange → ℕ → Type 0) (i : ℕ) (xs : List Assignment) (segs : List SegmentPlan)
    → number_segments i xs ≡ ok segs
    → All (λ x. Q x.range x.exit) xs
    → All (λ s. Q s.range s.exit) segs
unfolding number_segments
number_segments-All Q i [] segs h a = ground arith
number_segments-All Q i (x ∷ xs) segs h a =
    let (rest, e, f) = numbered_parts i x xs segs h in
    subst (All (λ s. Q s.range s.exit)) (sym f) (a.0, number_segments-All Q (i + 1) xs rest e a.1)

pub number_segments-length :
    (i : ℕ) (xs : List Assignment) (segs : List SegmentPlan)
    → number_segments i xs ≡ ok segs
    → length segs ≡ length xs
unfolding number_segments
number_segments-length i [] segs h = ground arith
number_segments-length i (x ∷ xs) segs h =
    let (rest, e, f) = numbered_parts i x xs segs h in
    ap length f ∙ ap suc (number_segments-length (i + 1) xs rest e)
