-- ===== src/Fetch/Plan/Build/Cover.antt =====
-- The ranges and the exits of the plans that `FetchPlan::build` of server/crates/sn-fetch/src/plan.rs makes,
-- also where shares are too small or products wrap around.
use spider_net.Prelude.{
  ok, ok-inj, >>=-eq-ok, ℕ, ◌≤◌, ◌≡◌, subst, inl, inr, List, [], ◌∷◌, arith, All, length, ltb, leb,
  ◌==◌, ◌&&◌, u64_mod, Bool-cases, true,
}
use spider_net.Fetch.Types.{ExitSpec, FetchPlan}
use spider_net.Fetch.Plan.Merge.{Assignment, merge_tiny_segments}
use spider_net.Fetch.Plan.Exits.{used_exits, used_exits-Kept, effective_segments}
use spider_net.Fetch.Plan.Build.{
  Cut, cut_for, cut_loop, end_exclusive, split_file, assign_file, number_segments, validate, build,
}
use spider_net.Fetch.Plan.Build.Validate.{Sound, number_segments-All}
use spider_net.Fetch.Plan.Build.Success.{build-ok}
use spider_net.Fetch.Plan.Build.Ranges.{
  IsForward, IsGood, whole_file-IsGood, extend_last-IsGood, cut_for-IsGood, merge_loop-IsGood,
}

module _ {U : Type 0} (P : ℕ → Type 0) where
  cut_loop-IsGood :
      (size total spe cursor : ℕ) (es : List (ExitSpec U)) (c out : Cut)
      → All (λ e. P e.id) es
      → All (IsGood P) c.assignments
      → cut_loop size total spe cursor es c ≡ ok out
      → All (IsGood P) out.assignments
  unfolding cut_loop
  cut_loop-IsGood size total spe cursor [] c out p g h =
      subst (λ k. All (IsGood P) k.assignments) (ok-inj h) g
  cut_loop-IsGood size total spe cursor (e ∷ es) c out p g h =
      let last = end_exclusive size total spe cursor e es in
      elim (Bool-cases (leb u64_mod last)) [
        | inl over ↦ absurd (ground (arith, rw over at h))
        | inr fits ↦
            cut_loop-IsGood size total spe last es (cut_for e.id last spe c) out p.1
              (cut_for-IsGood P e.id last spe c p.0 g) (rw fits at h)
      ]

  split_file-IsGood :
      (size spe : ℕ) (e : ExitSpec U) (es : List (ExitSpec U)) (xs : List Assignment)
      → All (λ x. P x.id) (e ∷ es)
      → split_file size spe e es ≡ ok xs
      → All (IsGood P) xs
  unfolding split_file
  split_file-IsGood size spe e es xs p h =
      let (c, run, rest) = >>=-eq-ok (cut_loop size _ spe 0 (e ∷ es) _) _ h in
      let g = cut_loop-IsGood size _ spe 0 (e ∷ es) _ c p tt run in
      elim (Bool-cases (ltb c.start size)) [
        | inr full ↦ subst (All (IsGood P)) (ok-inj (rw full at rest)) g
        | inl short ↦ elim (Bool-cases (length c.assignments == 0)) [
          | inl empty ↦ whole_file-IsGood P size e.id xs p.0 (rw (short, empty) at rest)
          | inr more ↦ extend_last-IsGood P size c.assignments xs g (rw (short, more) at rest)
        ]
      ]

  assign_file-IsGood :
      (size spe : ℕ) (es : List (ExitSpec U)) (xs : List Assignment)
      → All (λ x. P x.id) es
      → assign_file size spe es ≡ ok xs
      → All (IsGood P) xs
  unfolding assign_file
  assign_file-IsGood size spe [] xs p h = absurd (ground (arith, h))
  assign_file-IsGood size spe (e ∷ es) xs p h = elim (Bool-cases (length es == 0 && spe == 1)) [
    | inl t ↦ whole_file-IsGood P size e.id xs p.0 (rw t at h)
    | inr t ↦ split_file-IsGood size spe e es xs p (rw t at h)
  ]

  -- Whatever `build` returns as a plan is for this URL and size; its segments are numbered from 0 and follow one
  -- another from byte 0 to the end of the file; none is reversed, so that each has a byte and none overlaps
  -- another; and each goes to an exit of the input. Nothing is assumed of sizes, weights or counts.
  pub build-covers :
      (url : U) (size spe min_segment : ℕ) (exits : List (ExitSpec U)) (plan : FetchPlan U)
      → All (λ e. P e.id) exits
      → build url size exits spe min_segment ≡ ok plan
      → (plan.url ≡ url)
        × (plan.file_size ≡ size)
        × Sound 0 0 plan.segments size
        × All (λ s. (s.range.start ≤ s.range.end_inclusive) × P s.exit) plan.segments
  unfolding build merge_tiny_segments
  build-covers url size spe min_segment exits plan p h =
      let (for_url, for_size, sound) = build-ok url size spe min_segment exits plan h in
      elim (Bool-cases (length exits == 0)) [
        | inl t ↦ absurd (refused t)
        | inr t ↦
            let used = used_exits size min_segment exits in
            let kept = used_exits-Kept (λ e. P e.id) size min_segment exits (ground (arith, t)) p in
            let parts = effective_segments size (length used) min_segment spe in
            let (assigned, e, g) = >>=-eq-ok (assign_file size parts used) _ (rw t at h) in
            let merged = merge_tiny_segments assigned min_segment in
            let (segs, f, g') = >>=-eq-ok (number_segments 0 merged) _ g in
            let (u, v, w) =
              >>=-eq-ok (validate (record { url = url; file_size = size; segments = segs })) _ g' in
            let good =
              merge_loop-IsGood P min_segment (length assigned) assigned
                (assign_file-IsGood size parts used assigned kept.from e) in
            let all = number_segments-All (λ r x. IsForward r × P x) 0 merged segs f good in
            (
              for_url,
              for_size,
              sound,
              subst (λ q. All (λ s. IsForward s.range × P s.exit) q.segments) (ok-inj w) all,
            )
      ]
    where
      refused : (length exits == 0) ≡ true → ⊥
      refused t = ground (arith, t)
