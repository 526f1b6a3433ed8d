-- ===== src/Fair/Allocate/Success.antt =====
-- What an accepted input is allotted: the two phases, and the properties of the whole result.
use spider_net.Prelude.{
  ℕ, ◌+◌, ◌-◌, ◌≤◌, ◌<◌, ◌≡◌, ◌≢◌, refl, ap, ◌∙◌, List, [], ◌∷◌, arith, All, none, some, Option,
  u16_mod, u64_mod, min, wrap128-eq_of_lt,
}
use spider_net.Prelude.TreeMap.{lookup, get_or_zero, sum_values, Ascending}
use spider_net.Fair.Types.{Participation, contributing, leeching, rate_of}
use spider_net.Fair.MaxMin.{Entry, weighted_max_min}
use spider_net.Fair.MaxMin.Entries.{IsEntry, Ordered, rate_congr, rate-of_lookup}
use spider_net.Fair.MaxMin.LastRound.{to_u64-eq_of_lt}
use spider_net.Fair.MaxMin.Whole.{Shares, weighted_max_min-Shares}
use spider_net.Fair.MaxMin.Keys.{HasId, weighted_max_min-Ascending}
use spider_net.Fair.Allocate.{contributors, leeches, extend, share_out}
use spider_net.Fair.Allocate.Classes.{
  IsClass, asked, asked-demands, contributors-Ordered, leeches-Ordered, contributors-IsEntry,
  leeches-IsEntry, mem-leeches, contributors-Absent, leeches-Absent, weights_bounded,
}
use spider_net.Fair.Allocate.Phases.{override, lookup-extend, Apart-intro, sum_values-extend}

entries_of : (es : List Entry) → All (λ e. IsEntry e × (e.id < u16_mod)) es → All IsEntry es
entries_of [] v = tt
entries_of (e ∷ es) v = (v.0.0, entries_of es v.1)

ids_of : (lo : ℕ) (es : List Entry) → Ordered lo es → All HasId es
ids_of lo [] o = tt
ids_of lo (e ∷ es) o = (omega arith, ids_of e.id es o.1)

-- The rates of the contributors, and the rates of the leeches over what these leave.
abbrev pub phase_one : ℕ → List (ℕ × Participation) → List (ℕ × ℕ) → List (ℕ × ℕ)
phase_one c classes m = weighted_max_min (contributors classes m) c

abbrev pub phase_two : ℕ → List (ℕ × Participation) → List (ℕ × ℕ) → List (ℕ × ℕ)
phase_two c classes m =
    weighted_max_min (leeches classes m) (c - sum_values (phase_one c classes m))

module _ (c : ℕ) (classes : List (ℕ × Participation)) (m : List (ℕ × ℕ)) (bounded : c < u64_mod)
    (ascending : Ascending 0 classes) (in_range : All IsClass classes)
    (fits : (k : ℕ) → get_or_zero k m < u64_mod) where
  abbrev first : List (ℕ × ℕ)
  first = phase_one c classes m

  abbrev left : ℕ
  left = c - sum_values first

  abbrev second : List (ℕ × ℕ)
  second = phase_two c classes m

  first-Ordered : Ordered 0 (contributors classes m)
  first-Ordered = contributors-Ordered m 0 classes ascending

  second-Ordered : Ordered 0 (leeches classes m)
  second-Ordered = leeches-Ordered m 0 classes ascending

  pub first-Shares : Shares (contributors classes m) c first
  first-Shares =
      let v = contributors-IsEntry m classes in_range fits in
      weighted_max_min-Shares (contributors classes m) c first-Ordered (entries_of _ v) bounded
        (omega (arith, weights_bounded 0 (contributors classes m) (omega arith) first-Ordered v))

  pub second-Shares : Shares (leeches classes m) left second
  second-Shares =
      let v = leeches-IsEntry m classes in_range fits in
      weighted_max_min-Shares (leeches classes m) left second-Ordered (entries_of _ v) (omega arith)
        (omega (arith, weights_bounded 0 (leeches classes m) (omega arith) second-Ordered v))

  first_total : sum_values first ≤ c
  first_total = omega (arith, first-Shares.total)

  second-Ascending : Ascending 0 second
  second-Ascending = weighted_max_min-Ascending _ left (ids_of 0 _ second-Ordered)

  -- An id with a rate in the second phase has none in the first.
  phases_apart : (k v : ℕ) → lookup k second ≡ some v → get_or_zero k first ≡ 0
  unfolding get_or_zero
  phases_apart k v h = by_class (lookup k classes) refl
    where
      not_leech : lookup k classes ≢ some leeching → ⊥
      not_leech n =
          ground (arith, second-Shares.absent k (leeches-Absent m 0 k classes ascending n))

      by_class : (o : Option Participation) → lookup k classes ≡ o → get_or_zero k first ≡ 0
      by_class none e = absurd (not_leech (ground (arith, e)))
      by_class (some (contributing w)) e = absurd (not_leech (ground (arith, e)))
      by_class (some leeching) e =
          let gone =
            first-Shares.absent k
              (contributors-Absent m 0 k classes ascending (λ w. ground (arith, e))) in
          rw (gone, get_or_zero)

  both_total : sum_values (extend first second) ≡ sum_values first + sum_values second
  both_total =
      sum_values-extend 0 first second second-Ascending
        (Apart-intro 0 first second second-Ascending phases_apart)

  pub both-asked : sum_values (extend first second) ≡ min c (asked classes m)
  both-asked =
      omega (arith, both_total, first-Shares.total, second-Shares.total, asked-demands classes m)

  pub share_out-eq : share_out c classes m ≡ record {
    allocations = extend first second;
    total_allocated = sum_values (extend first second);
    unused = c - sum_values (extend first second);
  }
  unfolding share_out
  share_out-eq =
      let a = wrap128-eq_of_lt (sum_values first) (omega (arith, first_total)) in
      let b = to_u64-eq_of_lt (sum_values first) (omega (arith, first_total)) in
      let d = wrap128-eq_of_lt (sum_values (extend first second)) (omega (arith, both-asked)) in
      let e = to_u64-eq_of_lt (sum_values (extend first second)) (omega (arith, both-asked)) in
      rw (a, b, d, e)

  -- A contributor has the rate of the first phase, a leech that of the second.
  pub contributor_rate :
      (k w : ℕ)
      → lookup k classes ≡ some (contributing w)
      → rate_of (share_out c classes m) k ≡ get_or_zero k first
  unfolding rate_of
  contributor_rate k w h =
      let gone =
        second-Shares.absent k (leeches-Absent m 0 k classes ascending (ground (arith, h))) in
      ap (λ s. get_or_zero k s.allocations) share_out-eq
      ∙ rate_congr k (extend first second) first (
          lookup-extend 0 k first second second-Ascending
          ∙ ap (λ o. override o (lookup k first)) gone)

  pub leech_rate :
      (k : ℕ)
      → lookup k classes ≡ some leeching
      → rate_of (share_out c classes m) k ≡ get_or_zero k second
  unfolding rate_of
  leech_rate k h =
      let held = second-Shares.listed _ (mem-leeches m k classes h) in
      ap (λ s. get_or_zero k s.allocations) share_out-eq
      ∙ rate-of_lookup k _ (extend first second) (
          lookup-extend 0 k first second second-Ascending
          ∙ ap (λ o. override o (lookup k first)) held)
