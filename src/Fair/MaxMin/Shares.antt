-- ===== src/Fair/MaxMin/Shares.antt =====
-- The arithmetic of one round: shares without wrap-around, and their sums against the capacity.
use native.Mathlib.Nat.{
  mul-le-mul, div-mul-le_self, lt-mul-div-succ, le_of_mul-le-mul_right, le-div_iff_mul-le,
  mul-le-mul_right, mul-lt-mul_of_pos_right, lt_of_mul-lt-mul_right,
}
use spider_net.Prelude.{
  ℕ, ◌+◌, ◌*◌, ◌/◌, ◌≤◌, ◌<◌, ◌≡◌, ap, List, [], ◌∷◌, arith, sum_of, u32_mod, u64_mod, u128_mod,
  wrap128-eq_of_lt, length,
}
use spider_net.Fair.MaxMin.{Entry, share, total_weight}
use spider_net.Fair.MaxMin.Entries.{IsEntry, weights}

-- The share in whole numbers: no intermediate value of `share` leaves 128 bits.
abbrev pub quota : ℕ → ℕ → Entry → ℕ
quota c w e = c * e.weight / w

product_fits : (a b : ℕ) → a < u64_mod → b < u32_mod → a * b < u128_mod
product_fits a b h k =
    let p : a * b ≤ u64_mod * u32_mod =
      mul-le-mul {n₂ = u64_mod} {m₂ = u32_mod} (omega arith) (omega arith) in
    omega (arith, p)

pub share-quota : (c w : ℕ) (e : Entry) → c < u64_mod → IsEntry e → share c w e ≡ quota c w e
unfolding share
share-quota c w e h v = ap (λ t. t / w) (wrap128-eq_of_lt _ (product_fits c e.weight h v.1))

pub total_weight-weights : (es : List Entry) → weights es < u64_mod → total_weight es ≡ weights es
unfolding total_weight
total_weight-weights es h = wrap128-eq_of_lt _ (omega arith)

-- The shares of a list, each times the total weight, stay within capacity times the list's weight.
pub quotas-le : (c w : ℕ) (es : List Entry) → sum_of (quota c w) es * w ≤ c * weights es
quotas-le c w [] = omega arith
quotas-le c w (e ∷ es) = omega (arith, quotas-le c w es, div-mul-le_self (c * e.weight) w)

-- Rounding loses less than one unit for each entry.
pub quotas-gt :
    (c w : ℕ) (es : List Entry)
    → 0 < w
    → c * weights es + length es ≤ (sum_of (quota c w) es + length es) * w
quotas-gt c w [] h = omega arith
quotas-gt c w (e ∷ es) h = omega (arith, quotas-gt c w es h, lt-mul-div-succ (c * e.weight) h)

-- A demand that fits its share, and one that does not, against the level `c / w`.
pub le-quota : (c w d : ℕ) (e : Entry) → 0 < w → d ≤ quota c w e → d * w ≤ c * e.weight
le-quota c w d e h k = (le-div_iff_mul-le h).0 k

pub quota-lt : (c w : ℕ) (e : Entry) → 0 < w → c * e.weight < (quota c w e + 1) * w
quota-lt c w e h = omega (arith, lt-mul-div-succ (c * e.weight) h)

-- Granting some entries no more than their shares does not lower the level of the others.
pub level_mono : (c w c' w' r x : ℕ) → 0 < w → c * w' ≤ c' * w → r * w ≤ c * x → r * w' ≤ c' * x
level_mono c w c' w' r x h l k =
    let a = mul-le-mul_right w' k in
    let b = mul-le-mul_right x l in le_of_mul-le-mul_right {k = w} (omega (arith, a, b)) h

-- Who is at or below the level holds less, per weight, than one unit above a rounded share.
pub level-lt :
    (c w r q wi wj : ℕ) → 0 < wj → r * w ≤ c * wj → c * wi < (q + 1) * w → r * wi < (q + 1) * wj
level-lt c w r q wi wj pos below above =
    let a = mul-le-mul_right wi below in
    let b = mul-lt-mul_of_pos_right above pos in lt_of_mul-lt-mul_right w (omega (arith, a, b))
