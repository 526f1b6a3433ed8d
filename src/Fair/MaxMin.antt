-- ===== src/Fair/MaxMin.antt =====
-- `weighted_max_min` of server/crates/sn-fair/src/fair.rs. The `while` loop takes fuel: each round
-- but the last shortens the active list. The remainder loop takes fuel too: each pass but the last
-- hands out a unit.
pub mod Entries
pub mod Shares
pub mod Partition
pub mod Remainder
pub mod LastRound
pub mod Rounds
pub mod Loop
pub mod Whole
pub mod Keys
use spider_net.Prelude.{
  ℕ, zero, suc, ◌+◌, ◌-◌, ◌*◌, ◌/◌, Bool, List, [], ◌∷◌, ◌++◌, if◌then◌else◌, ◌==◌, ltb, leb,
  length, sum_of, u64_mod, wrap64, wrap128, Option, none, some,
}
use spider_net.Prelude.TreeMap.{lookup, insert}

-- `Entry`.
pub record Entry : Type 0 where
  pub id : ℕ
  pub demand : ℕ
  pub weight : ℕ

-- `to_u64`.
unfoldable pub to_u64 : ℕ → ℕ
to_u64 value = if ltb value u64_mod then value else u64_mod - 1

-- The first loop: a demand of zero is granted at once, the others are active.
unfoldable pub intake : List Entry → List (ℕ × ℕ) → List Entry → List (ℕ × ℕ) × List Entry
intake [] result active = (result, active)
intake (e ∷ es) result active =
    if e.demand == 0
    then intake es (insert e.id 0 result) active
    else intake es result (active ++ e ∷ [])

-- `sort_by_key(|entry| entry.id)`, which is stable.
unfoldable pub insert_by_id : Entry → List Entry → List Entry
insert_by_id e [] = e ∷ []
insert_by_id e (x ∷ xs) = if ltb e.id x.id then e ∷ x ∷ xs else x ∷ insert_by_id e xs

unfoldable pub sort_by_id : List Entry → List Entry → List Entry
sort_by_id sorted [] = sorted
sort_by_id sorted (e ∷ es) = sort_by_id (insert_by_id e sorted) es

unfoldable pub total_weight : List Entry → ℕ
total_weight es = wrap128 (sum_of (λ e. e.weight) es)

-- The share of one entry in a round.
unfoldable pub share : ℕ → ℕ → Entry → ℕ
share capacity total e = wrap128 (capacity * e.weight) / total

unfoldable pub fits : ℕ → ℕ → Entry → Bool
fits capacity total e = leb e.demand (share capacity total e)

-- The entries at the indices of `satisfied`, and the entries at the others, in order.
unfoldable pub satisfied : ℕ → ℕ → List Entry → List Entry
satisfied capacity total [] = []
satisfied capacity total (e ∷ es) =
    if fits capacity total e then e ∷ satisfied capacity total es else satisfied capacity total es

unfoldable pub remaining : ℕ → ℕ → List Entry → List Entry
remaining capacity total [] = []
remaining capacity total (e ∷ es) =
    if fits capacity total e then remaining capacity total es else e ∷ remaining capacity total es

-- Insert a rate for each entry, in order.
unfoldable pub grant : (Entry → ℕ) → List Entry → List (ℕ × ℕ) → List (ℕ × ℕ)
grant rate [] result = result
grant rate (e ∷ es) result = grant rate es (insert e.id (rate e) result)

-- The state of the remainder loop.
pub record Spread : Type 0 where
  pub result : List (ℕ × ℕ)
  pub remainder : ℕ
  pub handed_out : ℕ

-- `*allocation += 1` for one entry that is below its demand.
unfoldable pub top_up : Entry → Spread → Option ℕ → Spread
top_up e s none = s
top_up e s (some allocation) =
    if ltb allocation e.demand
    then record {
      result = insert e.id (allocation + 1) s.result;
      remainder = s.remainder - 1;
      handed_out = s.handed_out + 1;
    }
    else s

-- One pass over the active entries, which stops when the remainder is used up.
unfoldable pub spread_pass : List Entry → Spread → Spread
spread_pass [] s = s
spread_pass (e ∷ es) s =
    let rest = spread_pass es (top_up e s (lookup e.id s.result)) in
    if s.remainder == 0 then s else rest

unfoldable pub spread : ℕ → List Entry → List (ℕ × ℕ) → ℕ → List (ℕ × ℕ)
spread zero es result remainder = result
spread (suc fuel) es result remainder =
    let s : Spread =
      spread_pass es (record { result = result; remainder = remainder; handed_out = 0 }) in
    let again = spread fuel es s.result s.remainder in
    if remainder == 0 then result else if s.handed_out == 0 then s.result else again

-- The floor shares, and the rounding remainder one unit at a time.
unfoldable pub floor_shares : ℕ → ℕ → List Entry → List (ℕ × ℕ) → List (ℕ × ℕ)
floor_shares capacity total es result =
    let distributed = wrap128 (sum_of (share capacity total) es) in
    let remainder = capacity - distributed in
    spread (remainder + 1) es (grant (λ e. to_u64 (share capacity total e)) es result) remainder

-- The `while` loop, with the loop behind it that grants zero to whoever is still active.
unfoldable pub fill : ℕ → List Entry → ℕ → List (ℕ × ℕ) → List (ℕ × ℕ)
fill zero active capacity result = grant (λ e. 0) active result
fill (suc fuel) [] capacity result = result
fill (suc fuel) (e ∷ es) capacity result =
    let active = e ∷ es in
    let total = total_weight active in
    let done = satisfied capacity total active in
    let last = floor_shares capacity total active result in
    let allocated = wrap64 (sum_of (λ e. e.demand) done) in
    let next =
      fill fuel (remaining capacity total active) (capacity - allocated)
        (grant (λ e. e.demand) done result) in
    if capacity == 0 then grant (λ e. 0) active result else if length done == 0 then last else next

unfoldable pub weighted_max_min : List Entry → ℕ → List (ℕ × ℕ)
weighted_max_min entries capacity =
    let start = intake entries [] [] in
    fill (length start.1 + 1) (sort_by_id [] start.1) capacity start.0
