-- ===== src/Fair/MaxMin/LastRound.antt =====
-- `floor_shares`: the last round hands out the whole capacity, to each entry its share or one more.
use native.Mathlib.Nat.{le_of_mul-le-mul_right, lt_of_mul-lt-mul_right}
use native.Mathlib.Numerals.{add-one}
use spider_net.Prelude.{
  ℕ, inl, ◌+◌, ◌-◌, ◌≤◌, ◌<◌, ◌≡◌, refl, ◌∙◌, ap, List, [], ◌∷◌, arith, All, length, sum_of,
  u64_mod, wrap128, wrap128-eq_of_lt, sum_of_congr,
}
use spider_net.Prelude.TreeMap.{sum_values}
use spider_net.Fair.MaxMin.{Entry, floor_shares, to_u64, share, grant}
use spider_net.Fair.MaxMin.Entries.{
  IsEntry, Ordered, weights, Fresh, grant_other, grant_own, grant_total, weights-pos,
}
use spider_net.Fair.MaxMin.Shares.{quota, share-quota, quotas-le, quotas-gt}
use spider_net.Fair.MaxMin.Remainder.{Holds, Spreads, spread-Spreads}

pub to_u64-eq_of_lt : (x : ℕ) → x < u64_mod → to_u64 x ≡ x
unfolding to_u64
to_u64-eq_of_lt x h = ground arith

module _ (c w : ℕ) (bounded : c < u64_mod) where
  pub shares-quotas : (es : List Entry) → All IsEntry es → All (λ e. share c w e ≡ quota c w e) es
  shares-quotas [] v = tt
  shares-quotas (e ∷ es) v = (share-quota c w e bounded v.0, shares-quotas es v.1)

  -- The list that is shared among stands in `all`; `es` runs over its tails.
  granted_quotas :
      (lo : ℕ) (es : List Entry) (m : List (ℕ × ℕ))
      → Ordered lo es
      → All IsEntry es
      → All (λ e. share c w e < e.demand) es
      → sum_of (quota c w) es ≤ c
      → Holds (quota c w) (grant (λ e. to_u64 (share c w e)) es m) es
  unfolding grant
  granted_quotas lo [] m o v h b = tt
  granted_quotas lo (e ∷ es) m o v h b =
      let is_quota = share-quota c w e bounded v.0 in
      let fits = to_u64-eq_of_lt (quota c w e) (omega arith) in
      let own = grant_own (λ x. to_u64 (share c w x)) lo (e ∷ es) m e o (inl refl) in
      (
        (ground (arith, own, is_quota, fits), ground (arith, is_quota)),
        granted_quotas e.id es _ o.1 v.1 h.1 (omega arith),
      )

  granted_sum :
      (es : List Entry)
      → All IsEntry es
      → sum_of (quota c w) es ≤ c
      → sum_of (λ e. to_u64 (share c w e)) es ≡ sum_of (quota c w) es
  granted_sum [] v b = refl
  granted_sum (e ∷ es) v b =
      let is_quota = share-quota c w e bounded v.0 in
      let fits = to_u64-eq_of_lt (quota c w e) (omega arith) in
      ground (arith, granted_sum es v.1 (omega arith), is_quota, fits)

module _ (c lo : ℕ) (e : Entry) (es : List Entry) (bounded : c < u64_mod)
    (ordered : Ordered lo (e ∷ es)) (valid : All IsEntry (e ∷ es)) where
  abbrev w : ℕ
  w = weights (e ∷ es)

  abbrev active : List Entry
  active = e ∷ es

  quotas_within : sum_of (quota c w) active ≤ c
  quotas_within = le_of_mul-le-mul_right {k = w} (quotas-le c w active) (weights-pos e es valid)

  -- Rounding loses less than one unit for each entry.
  pub quotas_near : c < sum_of (quota c w) active + length active
  quotas_near =
      lt_of_mul-lt-mul_right w (omega (arith, quotas-gt c w active (weights-pos e es valid)))

  -- Every demand exceeds its share: the capacity is handed out in full.
  pub floor_shares-Spreads :
      (m : List (ℕ × ℕ))
      → Fresh m active
      → All (λ x. share c w x < x.demand) active
      → Spreads (quota c w) active m (floor_shares c w active m) c
  unfolding floor_shares
  floor_shares-Spreads m f above =
      let f_of : Entry → ℕ = λ x. to_u64 (share c w x) in
      let m' = grant f_of active m in
      let shared =
        sum_of_congr (share c w) (quota c w) active (shares-quotas c w bounded active valid) in
      let distributed : wrap128 (sum_of (share c w) active) ≡ sum_of (quota c w) active =
        wrap128-eq_of_lt _ (omega (arith, shared, quotas_within)) ∙ shared in
      let r = c - sum_of (quota c w) active in
      let holds = granted_quotas c w bounded lo active m ordered valid above quotas_within in
      let s =
        spread-Spreads (quota c w) lo active m' r ordered holds (omega (arith, quotas_near)) in
      let total : sum_values m' ≡ sum_values m + sum_of (quota c w) active =
        grant_total f_of lo active m ordered f
        ∙ ap (◌+◌ (sum_values m)) (granted_sum c w bounded active valid quotas_within) in
      rw (distributed, add-one)
        (record {
          kept = λ k a. s.kept k a ∙ grant_other f_of active m k a;
          near = s.near;
          total = omega (arith, s.total, total, quotas_within);
        })
