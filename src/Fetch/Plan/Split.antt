-- ===== src/Fetch/Plan/Split.antt =====
-- `even_subsplit` of server/crates/sn-fetch/src/plan.rs.
use mathlib.Core.List.{append-nil, append_assoc}
use native.Mathlib.Nat.{le-div_iff_mul-le, mod-lt, div-add-mod, div-eq_of_lt, mod-eq_of_lt}
use spider_net.Prelude.{
  ok, err, ℕ, zero, suc, ◌+◌, ◌-◌, ◌*◌, ◌/◌, ◌%◌, ◌≤◌, ◌<◌, ◌≡◌, refl, ap, ◌∙◌, List, [], ◌∷◌, ◌++◌,
  if◌then◌else◌, ltb, length, u64_mod, wrap64, wrap64-eq_of_lt, arith, All,
}
use spider_net.Fetch.Types.{ByteRange, try_new_range, Tiles}

-- The length of the `i`-th part.
unfoldable pub part_len : ℕ → ℕ → ℕ → ℕ
part_len base remainder i = base + (if ltb i remainder then 1 else 0)

-- The loop of `even_subsplit`; a range that cannot be made leaves no range at all.
unfoldable pub subsplit_loop : ℕ → ℕ → ℕ → ℕ → ℕ → List ByteRange → List ByteRange
subsplit_loop base remainder zero i cursor out = out
subsplit_loop base remainder (suc left) i cursor out =
    let part = part_len base remainder i in
    let range_end = wrap64 (cursor + part + u64_mod - 1) in
    elim (try_new_range cursor range_end) [
      | ok range ↦
          subsplit_loop base remainder left (i + 1) (wrap64 (range_end + 1)) (out ++ range ∷ [])
      | err _ ↦ []
    ]

unfoldable pub even_subsplit : ℕ → ℕ → ℕ → List ByteRange
even_subsplit start end_inclusive parts =
    let total_len = wrap64 (end_inclusive - start + 1) in
    subsplit_loop (total_len / parts) (total_len % parts) parts 0 start []

-- A part of the split: its length is the even share or one byte more.
abbrev pub IsPart : ℕ → ByteRange → Type 0
IsPart base r = (r.start + base ≤ r.end_inclusive + 1) × (r.end_inclusive ≤ r.start + base)

-- What the loop appends to `out`.
record Appends (out : List ByteRange) (base left a b : ℕ) (result : List ByteRange) : Type 0 where
  ranges : List ByteRange
  appended : result ≡ out ++ ranges
  tiled : Tiles a ranges b
  counted : length ranges ≡ left
  even : All (IsPart base) ranges

subsplit_step :
    (base remainder left i cursor : ℕ) (out : List ByteRange)
    → let part = part_len base remainder i in
      0 < part
      → cursor + part < u64_mod
      → subsplit_loop base remainder (suc left) i cursor out
        ≡ subsplit_loop base remainder left
            (i + 1)
            (cursor + part)
            (out ++ record { start = cursor; end_inclusive = cursor + part - 1 } ∷ [])
unfolding subsplit_loop try_new_range wrap64
subsplit_step base remainder left i cursor out pos fits =
    let part = part_len base remainder i in
    let range_end : (cursor + part + u64_mod - 1) % u64_mod ≡ cursor + part - 1 = omega arith in
    let next : (cursor + part - 1 + 1) % u64_mod ≡ cursor + part = omega arith in
    ground (arith, range_end, next)

part_len_one : (remainder i : ℕ) → i < remainder → part_len 0 remainder i ≡ 1
unfolding part_len
part_len_one remainder i h = ground arith

-- A part of no bytes ends before it starts.
subsplit_stop :
    (remainder left i cursor : ℕ) (out : List ByteRange)
    → remainder ≤ i
    → 0 < cursor
    → cursor < u64_mod
    → subsplit_loop 0 remainder (suc left) i cursor out ≡ []
unfolding subsplit_loop try_new_range wrap64 part_len
subsplit_stop remainder left i cursor out done pos fits =
    let range_end : (cursor + 0 + u64_mod - 1) % u64_mod ≡ cursor - 1 = omega arith in
    ground (arith, range_end)

part_len_bounds :
    (base remainder i : ℕ)
    → (base ≤ part_len base remainder i)
      × (part_len base remainder i ≤ base + 1)
      × (part_len base remainder i + (remainder - (i + 1)) ≡ base + (remainder - i))
unfolding part_len
part_len_bounds base remainder i = ground arith

subsplit_loop-Appends :
    (base remainder left i cursor b : ℕ) (out : List ByteRange)
    → 0 < base
    → remainder ≤ i + left
    → cursor + left * base + (remainder - i) ≡ b
    → b < u64_mod
    → Appends out base left cursor b (subsplit_loop base remainder left i cursor out)
unfolding subsplit_loop
subsplit_loop-Appends base remainder zero i cursor b out pos bound end fits = record {
  ranges = [];
  appended = rw append-nil;
  tiled = omega arith;
  counted = refl;
  even = tt;
}
subsplit_loop-Appends base remainder (suc left) i cursor b out pos bound end fits =
    let part = part_len base remainder i in
    let (low, high, rest) = part_len_bounds base remainder i in
    let r : ByteRange = record { start = cursor; end_inclusive = cursor + part - 1 } in
    let later =
      subsplit_loop-Appends base remainder left (i + 1) (cursor + part) b (out ++ r ∷ []) pos
        (omega arith) (omega arith) fits in
    let back : cursor + part - 1 + 1 ≡ cursor + part = omega arith in
    record {
      ranges = r ∷ later.ranges;
      appended =
          subsplit_step base remainder left i cursor out (omega arith) (omega arith)
          ∙ later.appended
          ∙ append_assoc out (r ∷ []) later.ranges;
      tiled = (refl, omega arith, rw back later.tiled);
      counted = ap suc later.counted;
      even = ((omega arith, omega arith), later.even);
    }

-- Splitting a range below 2 ^ 64 - 1 into no more parts than it has bytes gives that many parts.
-- They follow one another over the whole range, and their lengths differ by one byte at most.
pub even_subsplit_even :
    (start stop parts : ℕ)
    → start ≤ stop
    → stop + 1 < u64_mod
    → 0 < parts
    → parts ≤ stop - start + 1
    → Tiles start (even_subsplit start stop parts) (stop + 1)
      × (length (even_subsplit start stop parts) ≡ parts)
      × All (IsPart ((stop - start + 1) / parts)) (even_subsplit start stop parts)
unfolding even_subsplit
even_subsplit_even start stop parts fwd fits pos enough =
    let total = stop - start + 1 in
    let whole = wrap64-eq_of_lt total (omega arith) in
    let base_pos : 0 < total / parts = (le-div_iff_mul-le pos).1 (omega arith) in
    let small = mod-lt total {m = parts} pos in
    let a =
      subsplit_loop-Appends (total / parts) (total % parts) parts 0 start (stop + 1) [] base_pos
        (omega (arith, small)) (omega (arith, div-add-mod total parts)) fits in
    rw (whole, a.appended) (a.tiled, a.counted, a.even)

-- With one byte for each of `remainder` parts, the part behind them cannot be made.
subsplit_loop_excess :
    (todo remainder left i cursor : ℕ) (out : List ByteRange)
    → i + todo ≡ remainder
    → todo < left
    → 0 < cursor + todo
    → cursor + todo < u64_mod
    → subsplit_loop 0 remainder left i cursor out ≡ []
unfolding subsplit_loop
subsplit_loop_excess todo remainder zero i cursor out e few pos fits = elim few [ ]
subsplit_loop_excess zero remainder (suc left) i cursor out e few pos fits =
    subsplit_stop remainder left i cursor out (omega arith) (omega arith) (omega arith)
subsplit_loop_excess (suc todo) remainder (suc left) i cursor out e few pos fits =
    let one = part_len_one remainder i (omega arith) in
    subsplit_step 0 remainder left i cursor out (omega (arith, one)) (omega (arith, one))
    ∙ subsplit_loop_excess todo remainder left (i + 1) (cursor + part_len 0 remainder i) _
        (omega arith) (omega arith) (omega (arith, one)) (omega (arith, one))

-- Splitting a range into more parts than it has bytes gives no part at all.
pub even_subsplit_excess :
    (start stop parts : ℕ)
    → start ≤ stop
    → stop + 1 < u64_mod
    → stop - start + 1 < parts
    → even_subsplit start stop parts ≡ []
unfolding even_subsplit
even_subsplit_excess start stop parts fwd fits few =
    let total = stop - start + 1 in
    let whole = wrap64-eq_of_lt total (omega arith) in
    rw (whole, div-eq_of_lt few, mod-eq_of_lt few)
      (subsplit_loop_excess total total parts 0 start [] (omega arith) few (omega arith)
        (omega arith))
