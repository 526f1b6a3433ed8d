-- ===== src/Fair/MaxMin/Loop.antt =====
-- The `while` loop of `weighted_max_min`, by induction on its rounds.
use native.Mathlib.Nat.{le_of_mul-le-mul_right, mul-le-mul_left}
use spider_net.Prelude.{
  ℕ, zero, suc, ◌+◌, ◌-◌, ◌*◌, ◌≤◌, ◌<◌, ◌≡◌, ◌≢◌, refl, ◌∙◌, ap, sym, inl, inr, List, [], ◌∷◌,
  arith, All, All-mem, All-intro, ◌∈◌, length, some, u64_mod, wrap64-eq_of_lt, Bool-cases, ◌==◌,
  ==→≡, ==→≢, some,
}
use spider_net.Prelude.TreeMap.{lookup, get_or_zero}
use spider_net.Fair.MaxMin.{Entry, fill, share, grant, satisfied, remaining}
use spider_net.Fair.MaxMin.Entries.{
  IsEntry, Ordered, rate, rate-of_lookup, rate_congr, weights, demands, Fresh, grant_other,
  grant_own, grant_total, weights-pos,
}
use spider_net.Fair.MaxMin.Shares.{share-quota, total_weight-weights, level_mono, le-quota}
use spider_net.Fair.MaxMin.Partition.{
  All-satisfied, All-remaining, satisfied_fit, sum_of-parts, length-parts, mem-parts,
  Ordered-satisfied, Ordered-remaining, satisfied-Absent, remaining-Absent, none_satisfied,
}
use spider_net.Fair.MaxMin.Rounds.{Fills, NotAhead, fill_none, fill_last}

-- Demands that fit their shares take no more of the capacity than their weights.
demands-le_level :
    (c w : ℕ) (es : List Entry)
    → c < u64_mod
    → 0 < w
    → All IsEntry es
    → All (λ e. e.demand ≤ share c w e) es
    → demands es * w ≤ c * weights es
demands-le_level c w [] b pos v h = omega arith
demands-le_level c w (e ∷ es) b pos v h = omega (
  arith,
  le-quota c w e.demand e pos (omega (arith, share-quota c w e b v.0)),
  demands-le_level c w es b pos v.1 h.1,
)

module _ (c lo : ℕ) (e : Entry) (es : List Entry) (m : List (ℕ × ℕ)) (b : c < u64_mod)
    (o : Ordered lo (e ∷ es)) (v : All IsEntry (e ∷ es)) where
  abbrev active : List Entry
  active = e ∷ es

  abbrev w : ℕ
  w = weights active

  abbrev done : List Entry
  done = satisfied c w active

  abbrev rest : List Entry
  rest = remaining c w active

  abbrev granted : List (ℕ × ℕ)
  granted = grant (λ x. x.demand) done m

  taken : demands done * w ≤ c * weights done
  taken =
      demands-le_level c w done b (weights-pos e es v) (All-satisfied c w IsEntry active v)
        (satisfied_fit c w active)

  weights_parts : w ≡ weights done + weights rest
  weights_parts = sum_of-parts c w (λ x. x.weight) active

  pub taken-le : demands done ≤ c
  taken-le =
      let within : c * weights done ≤ c * w = mul-le-mul_left c (omega (arith, weights_parts)) in
      le_of_mul-le-mul_right {k = w} (omega (arith, taken, within)) (weights-pos e es v)

  -- The capacity that is left, per weight that is left, has not fallen.
  level_kept : c * weights rest ≤ (c - demands done) * w
  level_kept = omega (arith, taken, ap (λ t. c * t) weights_parts, ap (λ (t : ℕ). t * w) back)
    where
      back : (c - demands done) + demands done ≡ c
      back = omega (arith, taken-le)

  pub Fresh-rest : Fresh m active → Fresh granted rest
  Fresh-rest f =
      All-intro (λ x. get_or_zero x.id granted ≡ 0) rest
        λ x h.
          rate_congr x.id granted m
            (grant_other (λ y. y.demand) done m x.id (remaining-Absent c w lo active x o h))
          ∙ All-mem (λ y. get_or_zero y.id m ≡ 0) rest x
              (All-remaining c w (λ y. get_or_zero y.id m ≡ 0) active f) h

  -- Some demands fit their shares: what the later rounds grant, and these demands.
  pub fill_step :
      (out : List (ℕ × ℕ))
      → Fresh m active
      → Fills rest (c - demands done) granted out
      → Fills active c m out
  fill_step out f later = record {
    kept = λ k a.
        later.kept k (All-remaining c w (λ x. x.id ≢ k) active a)
        ∙ grant_other (λ x. x.demand) done m k (All-satisfied c w (λ x. x.id ≢ k) active a);
    listed = λ x h. elim (mem-parts c w active x h) [
      | inl d ↦ held x d ∙ ap some (sym (own x d))
      | inr r ↦ later.listed x r
    ];
    capped = λ x h. elim (mem-parts c w active x h) [
      | inl d ↦ omega (arith, own x d)
      | inr r ↦ later.capped x r
    ];
    total = omega (
      arith,
      later.total,
      taken-le,
      grant_total (λ x. x.demand) lo done m (Ordered-satisfied c w lo active o)
          (All-satisfied c w (λ x. get_or_zero x.id m ≡ 0) active f),
      sum_of-parts c w (λ x. x.demand) active,
    );
    settled = λ enough x h. elim (mem-parts c w active x h) [
      | inl d ↦ own x d
      | inr r ↦ later.settled (omega (arith, sum_of-parts c w (λ y. y.demand) active)) x r
    ];
    fair = λ i j hi hj short. elim (mem-parts c w active i hi) [
      | inl d ↦ absurd (omega (arith, own i d))
      | inr r ↦ elim (mem-parts c w active j hj) [
        | inl dj ↦ served i j r dj short
        | inr rj ↦ later.fair i j r rj short
      ]
    ];
    level = λ r i j jpos below hi short. elim (mem-parts c w active i hi) [
      | inl d ↦ absurd (omega (arith, own i d))
      | inr ri ↦ later.level r i j jpos (lowered r j.weight below) ri short
    ];
  }
    where
      held : (x : Entry) → x ∈ done → lookup x.id out ≡ some x.demand
      held x d =
          later.kept x.id (satisfied-Absent c w lo active x o d)
          ∙ grant_own (λ y. y.demand) lo done m x (Ordered-satisfied c w lo active o) d

      own : (x : Entry) → x ∈ done → rate out x ≡ x.demand
      own x d = rate-of_lookup x.id x.demand out (held x d)

      lowered : (r x : ℕ) → r * w ≤ c * x → r * weights rest ≤ (c - demands done) * x
      lowered r x h =
          level_mono c w (c - demands done) (weights rest) r x (weights-pos e es v) level_kept h

      served : (i j : Entry) → i ∈ rest → j ∈ done → NotAhead (rate out j) j out i
      served i j ri dj short =
          let entry = All-mem IsEntry done j (All-satisfied c w IsEntry active v) dj in
          let fit = All-mem (λ x. x.demand ≤ share c w x) done j (satisfied_fit c w active) dj in
          let below =
            le-quota c w j.demand j (weights-pos e es v)
              (omega (arith, fit, share-quota c w j b entry)) in
          rw (own j dj)
            (later.level j.demand i j entry.0 (lowered j.demand j.weight below) ri short)

-- With more fuel than entries, the loop runs to its end and fills.
pub fill-Fills :
    (fuel c lo : ℕ) (es : List Entry) (m : List (ℕ × ℕ))
    → length es < fuel
    → c < u64_mod
    → weights es < u64_mod
    → Ordered lo es
    → All IsEntry es
    → Fresh m es
    → Fills es c m (fill fuel es c m)
unfolding fill
fill-Fills zero c lo es m n b t o v f = elim n [ ]
fill-Fills (suc fuel) c lo [] m n b t o v f = record {
  kept = λ k a. refl;
  listed = λ e h. absurd h;
  capped = λ e h. absurd h;
  total = omega arith;
  settled = λ b e h. absurd h;
  fair = λ i j hi. absurd hi;
  level = λ r i j pos below hi. absurd hi;
}
fill-Fills (suc fuel) c lo (e ∷ es) m n b t o v f = elim (Bool-cases (c == 0)) [
  | inl z ↦ rw z (rw (==→≡ c 0 z) (fill_none lo e es m o v f))
  | inr z ↦
      rw (z, total_weight-weights (e ∷ es) t)
        (elim (Bool-cases (length (satisfied c (weights (e ∷ es)) (e ∷ es)) == 0)) [
          | inl none_fit ↦ rw none_fit (
              fill_last c lo e es m b o v f
                (none_satisfied c (weights (e ∷ es)) (e ∷ es) (==→≡ _ 0 none_fit)))
          | inr some_fit ↦
              let active : List Entry = e ∷ es in
              let w = weights active in
              let taken = taken-le c lo e es m b o v in
              let in_range =
                wrap64-eq_of_lt (demands (satisfied c w active)) (omega (arith, taken)) in
              let shorter : length (remaining c w active) < fuel =
                omega (arith, length-parts c w active, ==→≢ _ 0 some_fit) in
              rw (some_fit, in_range)
                (fill_step c lo e es m b o v _ f (
                  fill-Fills fuel (c - demands (satisfied c w active)) lo (remaining c w active) _
                    shorter (omega arith) (omega (arith, weights_parts c lo e es m b o v))
                    (Ordered-remaining c w lo active o) (All-remaining c w IsEntry active v)
                    (Fresh-rest c lo e es m b o v f)))
        ])
]
