-- ===== src/Fair/MaxMin/Rounds.antt =====
-- The three ways in which a round of `weighted_max_min` goes: what each grants to the active entries.
use native.Mathlib.Nat.{le_of_mul-le-mul_right, mul-le-mul_right}
use spider_net.Prelude.{
  ℕ, ◌+◌, ◌*◌, ◌≤◌, ◌<◌, ◌≡◌, refl, sym, ◌∙◌, ap, List, [], ◌∷◌, arith, All, All-mem, mem-le-sum_of,
  ◌∈◌, length, some, sum_of, u64_mod, min,
}
use spider_net.Prelude.TreeMap.{lookup, sum_values}
use spider_net.Fair.MaxMin.{Entry, floor_shares, share, grant}
use spider_net.Fair.MaxMin.Entries.{
  IsEntry, Ordered, Absent, rate, rate-of_lookup, weights, demands, Fresh, grant_other, grant_own,
  grant_total, weights-pos,
}
use spider_net.Fair.MaxMin.Shares.{quota, share-quota, level-lt, le-quota, quota-lt}
use spider_net.Fair.MaxMin.LastRound.{floor_shares-Spreads, quotas_near}
use spider_net.Fair.MaxMin.Remainder.{Spreads, Near}

-- `i` is short of its demand, while `j` holds `r`: per weight, `j` is not ahead by a whole unit.
abbrev pub NotAhead : ℕ → Entry → List (ℕ × ℕ) → Entry → Type 0
NotAhead r j m i = rate m i < i.demand → r * i.weight < (rate m i + 1) * j.weight + i.weight

-- What the loop grants of `c` to the entries `es`, from the rates `m` to the rates `out`.
pub record Fills (es : List Entry) (c : ℕ) (m out : List (ℕ × ℕ)) : Type 0 where
  pub kept : (k : ℕ) → Absent k es → lookup k out ≡ lookup k m
  pub listed : (e : Entry) → e ∈ es → lookup e.id out ≡ some (rate out e)
  pub capped : (e : Entry) → e ∈ es → rate out e ≤ e.demand
  pub total : sum_values out ≡ sum_values m + min c (demands es)
  pub settled : demands es ≤ c → (e : Entry) → e ∈ es → rate out e ≡ e.demand
  pub fair : (i j : Entry) → i ∈ es → j ∈ es → NotAhead (rate out j) j out i
  pub level :
      (r : ℕ) (i j : Entry)
      → 0 < j.weight
      → r * weights es ≤ c * j.weight
      → i ∈ es
      → NotAhead r j out i

-- Without capacity, everybody gets zero.
pub fill_none :
    (lo : ℕ) (e : Entry) (es : List Entry) (m : List (ℕ × ℕ))
    → Ordered lo (e ∷ es)
    → All IsEntry (e ∷ es)
    → Fresh m (e ∷ es)
    → Fills (e ∷ es) 0 m (grant (λ x. 0) (e ∷ es) m)
fill_none lo e es m o v f =
    let active : List Entry = e ∷ es in
    let out = grant (λ x. 0) active m in
    let none_granted : (x : Entry) → x ∈ active → rate out x ≡ 0 =
      λ x h. rate-of_lookup x.id 0 out (grant_own (λ x. 0) lo active m x o h) in
    record {
      kept = λ k a. grant_other (λ x. 0) active m k a;
      listed = λ x h. grant_own (λ x. 0) lo active m x o h ∙ ap some (sym (none_granted x h));
      capped = λ x h. omega (arith, none_granted x h);
      total = omega (arith, grant_total (λ x. 0) lo active m o f, sum_of_zero active);
      settled = λ b x h. omega (arith, none_granted x h, mem-le-sum_of (λ y. y.demand) active x h);
      fair = λ i j hi hj short.
          ground (arith, none_granted i hi, none_granted j hj, (All-mem IsEntry active i v hi).0);
      level = λ r i j pos b hi short.
          let none_below : r ≤ 0 =
            le_of_mul-le-mul_right {k = weights active} (omega (arith, b)) (weights-pos e es v) in
          ground (arith, none_below, none_granted i hi);
    }
  where
    sum_of_zero : (xs : List Entry) → sum_of (λ x. 0) xs ≡ 0
    sum_of_zero [] = refl
    sum_of_zero (x ∷ xs) = omega (arith, sum_of_zero xs)

above_quotas :
    (c w : ℕ) (es : List Entry)
    → c < u64_mod
    → All IsEntry es
    → All (λ x. share c w x < x.demand) es
    → All (λ x. quota c w x < x.demand) es
above_quotas c w [] b v h = tt
above_quotas c w (e ∷ es) b v h =
    (omega (arith, share-quota c w e b v.0), above_quotas c w es b v.1 h.1)

quotas-demands :
    (c w : ℕ) (es : List Entry)
    → All (λ x. quota c w x < x.demand) es
    → sum_of (quota c w) es + length es ≤ demands es
quotas-demands c w [] h = omega arith
quotas-demands c w (e ∷ es) h = omega (arith, quotas-demands c w es h.1)

-- No demand fits its share: the last round.
pub fill_last :
    (c lo : ℕ) (e : Entry) (es : List Entry) (m : List (ℕ × ℕ))
    → c < u64_mod
    → Ordered lo (e ∷ es)
    → All IsEntry (e ∷ es)
    → Fresh m (e ∷ es)
    → All (λ x. share c (weights (e ∷ es)) x < x.demand) (e ∷ es)
    → Fills (e ∷ es) c m (floor_shares c (weights (e ∷ es)) (e ∷ es) m)
fill_last c lo e es m b o v f h = record {
  kept = s.kept;
  listed = λ x hx. (near x hx).0;
  capped = λ x hx. omega (arith, near x hx, above x hx);
  total = omega (arith, s.total, quotas_near c lo e es b o v, quotas-demands c w active exceed);
  settled = λ enough.
      absurd (omega (arith, quotas_near c lo e es b o v, quotas-demands c w active exceed));
  fair = λ i j hi hj short.
      let held =
        level-lt c w (quota c w j) (quota c w i) i.weight j.weight (entry j hj).0
          (le-quota c w (quota c w j) j pos (omega arith)) (quota-lt c w i pos) in
      fair_near (quota c w i) (quota c w j) (rate out i) (rate out j) i.weight j.weight
        (near i hi).1 (near j hj).2 held;
  level = λ r i j jpos below hi short.
      let held = level-lt c w r (quota c w i) i.weight j.weight jpos below (quota-lt c w i pos) in
      level_near (quota c w i) r (rate out i) i.weight j.weight (near i hi).1 held;
}
  where
    active : List Entry
    active = e ∷ es

    w : ℕ
    w = weights active

    out : List (ℕ × ℕ)
    out = floor_shares c w active m

    pos : 0 < w
    pos = weights-pos e es v

    s : Spreads (quota c w) active m out c
    s = floor_shares-Spreads c lo e es b o v m f h

    exceed : All (λ x. quota c w x < x.demand) active
    exceed = above_quotas c w active b v h

    entry : (x : Entry) → x ∈ active → IsEntry x
    entry x hx = All-mem IsEntry active x v hx

    above : (x : Entry) → x ∈ active → quota c w x < x.demand
    above x hx = All-mem (λ y. quota c w y < y.demand) active x exceed hx

    near : (x : Entry) → x ∈ active → Near (quota c w) out x
    near x hx = All-mem (Near (quota c w) out) active x s.near hx

    level_near :
        (qi r ri wi wj : ℕ) → qi ≤ ri → r * wi < (qi + 1) * wj → r * wi < (ri + 1) * wj + wi
    level_near qi r ri wi wj h k = let a = mul-le-mul_right wj h in omega (arith, a)

    fair_near :
        (qi qj ri rj wi wj : ℕ)
        → qi ≤ ri
        → rj ≤ qj + 1
        → qj * wi < (qi + 1) * wj
        → rj * wi < (ri + 1) * wj + wi
    fair_near qi qj ri rj wi wj h l k =
        let a = mul-le-mul_right wj h in let d = mul-le-mul_right wi l in omega (arith, a, d)
