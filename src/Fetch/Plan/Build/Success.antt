-- ===== src/Fetch/Plan/Build/Success.antt =====
-- Inputs for which `build` makes a plan.
use native.Mathlib.Nat.{le_of_mul-le-mul_right, div-mul-le_self}
use spider_net.Prelude.{
  ok, >>=-eq-ok, ℕ, ◌-◌, ◌*◌, ◌/◌, ◌≤◌, ◌<◌, ◌≡◌, refl, ap, sym, ◌∙◌, ◌⊎◌, inl, inr, List, [], ◌∷◌,
  arith, All, length, u32_mod, u64_mod, u128_mod, wrap128-eq_of_lt, ◌==◌, ltb, Bool-cases, ◌&&◌,
  true, false, subst, sum_of,
}
use spider_net.Fetch.Types.{Planned, ExitSpec, FetchPlan, try_new_range, len}
use spider_net.Fetch.Plan.Merge.{Assignment, merge_tiny_segments}
use spider_net.Fetch.Plan.Merge.Covering.{Covers}
use spider_net.Fetch.Plan.Merge.Whole.{merge_tiny_segments-Settled}
use spider_net.Fetch.Plan.Exits.{used_exits, used_exits-Kept, effective_segments}
use spider_net.Fetch.Plan.Build.{
  assign_file, split_file, whole_file, Cut, units, number_segments, validate, build,
}
use spider_net.Fetch.Plan.Build.Shares.{Ample, cut_loop-IsCut}
use spider_net.Fetch.Plan.Build.Validate.{
  Sound, validate_iff, number_segments-Sound, number_segments-All, number_segments-length,
}

-- The assignments of an ample file.
record Assigned (P : ℕ → Type 0) (size n : ℕ) (r : Planned (List Assignment)) : Type 0 where
  assignments : List Assignment
  returns : r ≡ ok assignments
  covers : Covers 0 assignments size
  counted : length assignments ≡ n
  exits : All (λ x. P x.exit) assignments

effective_segments-pos :
    (size n min_segment spe : ℕ) → 0 < spe → 0 < effective_segments size n min_segment spe
unfolding effective_segments
effective_segments-pos size n min_segment spe h = ground arith

module _ {U : Type 0} where
  shares-le :
      (size total spe : ℕ) (es : List (ExitSpec U))
      → sum_of (λ e. size * units spe e / total) es * total ≤ size * sum_of (units spe) es
  shares-le size total spe [] = omega arith
  shares-le size total spe (e ∷ es) =
      omega (arith, shares-le size total spe es, div-mul-le_self (size * units spe e) total)

  -- The total number of units, which weighs the shares.
  abbrev pub all_units : ℕ → List (ExitSpec U) → ℕ
  all_units spe es = sum_of (units spe) es

  split_file-Assigned :
      (P : ℕ → Type 0) (size spe : ℕ) (e : ExitSpec U) (es : List (ExitSpec U))
      → (fits : size < u64_mod) → (pos : 0 < spe) → 0 < all_units spe (e ∷ es)
      → all_units spe (e ∷ es) < u128_mod
      → Ample P size (all_units spe (e ∷ es)) spe (e ∷ es)
      → Assigned P size (length (e ∷ es) * spe) (split_file size spe e es)
  unfolding split_file
  split_file-Assigned P size spe e es fits pos tpos tfits a =
      let total = all_units spe (e ∷ es) in
      let start : Cut = record { start = 0; assignments = [] } in
      let within : sum_of (λ x. size * units spe x / total) (e ∷ es) ≤ size =
        le_of_mul-le-mul_right {k = total} (shares-le size total spe (e ∷ es)) tpos in
      let (c, run, k) =
        cut_loop-IsCut P size total spe fits pos e es 0 0 start a (omega arith)
          (record { at = refl; covers = refl; counted = refl; exits = tt }) in
      let full : ltb c.start size ≡ false = ground (arith, k.at) in
      record {
        assignments = c.assignments;
        returns = rw (wrap128-eq_of_lt total tfits, run, full);
        covers = k.covers;
        counted = omega (arith, k.counted);
        exits = k.exits;
      }

  -- One exit with one segment takes the whole file; the others share it.
  assign_file-Assigned :
      (P : ℕ → Type 0) (size spe : ℕ) (es : List (ExitSpec U))
      → (fits : size < u64_mod) → (pos : 0 < spe) → 0 < size
      → 0 < length es
      → 0 < all_units spe es
      → all_units spe es < u128_mod
      → Ample P size (all_units spe es) spe es
      → Assigned P size (length es * spe) (assign_file size spe es)
  unfolding assign_file whole_file try_new_range
  assign_file-Assigned P size spe [] fits pos spos n tpos tfits a = elim n [ ]
  assign_file-Assigned P size spe (e ∷ es) fits pos spos n tpos tfits a =
      elim (Bool-cases (length es == 0 && spe == 1)) [
        | inl t ↦
            let forward : ltb (size - 1) 0 ≡ false = ground arith in
            rw (t, forward)
              (record {
                assignments =
                    record { range = record { start = 0; end_inclusive = size - 1 }; exit = e.id }
                    ∷ [];
                returns = refl;
                covers = (refl, omega arith, omega arith);
                counted = ground arith;
                exits = (a.0.2, tt);
              })
        | inr t ↦ rw t (split_file-Assigned P size spe e es fits pos tpos tfits a)
      ]

  -- The exits and the segments per exit that `build` settles on.
  abbrev pub used : ℕ → ℕ → List (ExitSpec U) → List (ExitSpec U)
  used size min_segment exits = used_exits size min_segment exits

  abbrev pub segments_used : ℕ → ℕ → List (ExitSpec U) → ℕ → ℕ
  segments_used size min_segment exits spe =
      effective_segments size (length (used_exits size min_segment exits)) min_segment spe

  abbrev pub total_units : ℕ → ℕ → List (ExitSpec U) → ℕ → ℕ
  total_units size min_segment exits spe =
      all_units (segments_used size min_segment exits spe) (used size min_segment exits)

  -- A plan that `build` returns, with what it promises.
  pub record Plans (P : ℕ → Type 0) (url : U) (size min_segment : ℕ) (r : Planned (FetchPlan U))
      : Type 0 where
    pub plan : FetchPlan U
    pub returns : r ≡ ok plan
    pub for_url : plan.url ≡ url
    pub for_size : plan.file_size ≡ size
    pub sound : Sound 0 0 plan.segments size
    pub exits : All (λ s. P s.exit) plan.segments
    pub big : (length plan.segments ≡ 1) ⊎ All (λ s. min_segment ≤ len s.range) plan.segments

  -- `build` makes a plan of a file of 1 to 2 ^ 64 - 1 bytes from at least one exit, if of the exits
  -- that are used each gets at least a byte for each of its segments, products stay within 128
  -- bits, and segments can be numbered in 32 bits. The plan is for this URL and size; its segments
  -- are sound and go to exits of the input; and there is one only, or none is below the minimum.
  pub build_succeeds :
      (P : ℕ → Type 0) (url : U) (size spe min_segment : ℕ) (exits : List (ExitSpec U))
      → size < u64_mod
      → 0 < size
      → 0 < spe
      → 0 < length exits
      → 0 < total_units size min_segment exits spe
      → total_units size min_segment exits spe < u128_mod
      → Ample P size
          (total_units size min_segment exits spe)
          (segments_used size min_segment exits spe)
          (used size min_segment exits)
      → length (used size min_segment exits) * segments_used size min_segment exits spe ≤ u32_mod
      → Plans P url size min_segment (build url size exits spe min_segment)
  unfolding build
  build_succeeds P url size spe min_segment exits fits spos pos n tpos tfits a count =
      let es = used size min_segment exits in
      let parts = segments_used size min_segment exits spe in
      let left = used_exits-Kept (λ e. Unit {0}) size min_segment exits n (everything exits) in
      let npos = effective_segments-pos size (length es) min_segment spe pos in
      let f = assign_file-Assigned P size parts es fits npos spos left.some_left tpos tfits a in
      let merged = merge_tiny_segments f.assignments min_segment in
      let m = merge_tiny_segments-Settled P 0 size min_segment f.assignments f.covers f.exits in
      let (segs, numbered, sound) =
        number_segments-Sound 0 0 size merged m.covers fits (omega (arith, m.fewer, f.counted)) in
      let plan : FetchPlan U = record { url = url; file_size = size; segments = segs } in
      let valid = (validate_iff plan).1 sound in
      let some_exits : (length exits == 0) ≡ false = ground arith in
      record {
        plan = plan;
        returns = rw (some_exits, f.returns, numbered, valid);
        for_url = refl;
        for_size = refl;
        sound = sound;
        exits = number_segments-All (λ r x. P x) 0 merged segs numbered m.exits;
        big = elim m.big [
          | inl one ↦ inl (number_segments-length 0 merged segs numbered ∙ one)
          | inr all ↦
              inr (number_segments-All (λ r x. min_segment ≤ len r) 0 merged segs numbered all)
        ];
      }
    where
      everything : (es : List (ExitSpec U)) → All (λ e. Unit {0}) es
      everything [] = tt
      everything (e ∷ es) = (tt, everything es)

  -- A plan that `build` returns is for this URL and size, and `validate` accepts it.
  pub build-ok :
      (url : U) (size spe min_segment : ℕ) (exits : List (ExitSpec U)) (plan : FetchPlan U)
      → build url size exits spe min_segment ≡ ok plan
      → (plan.url ≡ url) × (plan.file_size ≡ size) × Sound 0 0 plan.segments size
  unfolding build
  build-ok url size spe min_segment exits plan h = elim (Bool-cases (length exits == 0)) [
    | inl t ↦ absurd (refused t)
    | inr t ↦
        let (assignments, e, g) =
          >>=-eq-ok
            (assign_file size (segments_used size min_segment exits spe)
              (used size min_segment exits))
            _ (rw t at h) in
        let (segs, f, g') =
          >>=-eq-ok (number_segments 0 (merge_tiny_segments assignments min_segment)) _ g in
        let made : FetchPlan U = record { url = url; file_size = size; segments = segs } in
        let (u, v, w) = >>=-eq-ok (validate made) _ g' in
        let same : made ≡ plan = cc w in
        (
          ap (λ p. p.url) (sym same),
          ap (λ p. p.file_size) (sym same),
          subst (λ p. Sound 0 0 p.segments size) same ((validate_iff made).0 (ground (arith, v))),
        )
  ]
    where
      refused : (length exits == 0) ≡ true → ⊥
      refused t = ground (arith, t)
