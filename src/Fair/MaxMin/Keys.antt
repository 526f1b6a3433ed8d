-- ===== src/Fair/MaxMin/Keys.antt =====
-- The rates come in ascending id order, whatever the entries.
use spider_net.Prelude.{
  ℕ, zero, suc, ◌+◌, ◌<◌, List, [], ◌∷◌, ◌++◌, arith, All, All-append, none, some, Option, length,
  ◌==◌, Bool-cases, inl, inr,
}
use spider_net.Prelude.TreeMap.{lookup, insert, Ascending, insert-Ascending}
use spider_net.Fair.MaxMin.{
  Entry, Spread, weighted_max_min, intake, sort_by_id, insert_by_id, fill, grant, satisfied,
  remaining, total_weight, floor_shares, spread, spread_pass, top_up,
}
use spider_net.Fair.MaxMin.Partition.{All-satisfied, All-remaining}

-- A `NonZeroU16` id.
abbrev pub HasId : Entry → Type 0
HasId e = 0 < e.id

grant-Ascending :
    (f : Entry → ℕ) (es : List Entry) (m : List (ℕ × ℕ))
    → All HasId es
    → Ascending 0 m
    → Ascending 0 (grant f es m)
unfolding grant
grant-Ascending f [] m h a = a
grant-Ascending f (e ∷ es) m h a =
    grant-Ascending f es _ h.1 (insert-Ascending 0 e.id (f e) m h.0 a)

top_up-Ascending :
    (e : Entry) (s : Spread) (o : Option ℕ)
    → HasId e
    → Ascending 0 s.result
    → Ascending 0 (top_up e s o).result
unfolding top_up
top_up-Ascending e s none h a = a
top_up-Ascending e s (some v) h a = ground (arith, insert-Ascending 0 e.id (v + 1) s.result h a)

spread_pass-Ascending :
    (es : List Entry) (s : Spread)
    → All HasId es
    → Ascending 0 s.result
    → Ascending 0 (spread_pass es s).result
unfolding spread_pass
spread_pass-Ascending [] s h a = a
spread_pass-Ascending (e ∷ es) s h a =
    let t = top_up e s (lookup e.id s.result) in
    ground
      (arith, spread_pass-Ascending es t h.1 (top_up-Ascending e s (lookup e.id s.result) h.0 a))

spread-Ascending :
    (fuel : ℕ) (es : List Entry) (m : List (ℕ × ℕ)) (r : ℕ)
    → All HasId es
    → Ascending 0 m
    → Ascending 0 (spread fuel es m r)
unfolding spread
spread-Ascending zero es m r h a = a
spread-Ascending (suc fuel) es m r h a =
    let s : Spread = record { result = m; remainder = r; handed_out = 0 } in
    let once = spread_pass-Ascending es s h a in
    ground (
      arith,
      once,
      spread-Ascending fuel es (spread_pass es s).result (spread_pass es s).remainder h once,
    )

fill-Ascending :
    (fuel : ℕ) (es : List Entry) (c : ℕ) (m : List (ℕ × ℕ))
    → All HasId es
    → Ascending 0 m
    → Ascending 0 (fill fuel es c m)
unfolding fill floor_shares
fill-Ascending zero es c m h a = grant-Ascending (λ e. 0) es m h a
fill-Ascending (suc fuel) [] c m h a = a
fill-Ascending (suc fuel) (e ∷ es) c m h a =
    let active : List Entry = e ∷ es in
    let w = total_weight active in
    let done = satisfied c w active in
    let granted = grant-Ascending (λ x. x.demand) done m (All-satisfied c w HasId active h) a in
    elim (Bool-cases (c == 0)) [
      | inl z ↦ rw z (grant-Ascending (λ x. 0) active m h a)
      | inr z ↦ rw z (elim (Bool-cases (length done == 0)) [
        | inl z' ↦ rw z' (spread-Ascending _ active _ _ h (grant-Ascending _ active m h a))
        | inr z' ↦ rw z' (
            fill-Ascending fuel (remaining c w active) _ (grant (λ x. x.demand) done m)
              (All-remaining c w HasId active h) granted)
      ])
    ]

insert_by_id-HasId :
    (e : Entry) (es : List Entry) → HasId e → All HasId es → All HasId (insert_by_id e es)
unfolding insert_by_id
insert_by_id-HasId e [] h a = (h, tt)
insert_by_id-HasId e (x ∷ es) h a = ground (arith, insert_by_id-HasId e es h a.1)

sort_by_id-HasId :
    (sorted es : List Entry) → All HasId sorted → All HasId es → All HasId (sort_by_id sorted es)
unfolding sort_by_id
sort_by_id-HasId sorted [] s h = s
sort_by_id-HasId sorted (e ∷ es) s h =
    sort_by_id-HasId (insert_by_id e sorted) es (insert_by_id-HasId e sorted h.0 s) h.1

intake_keeps :
    (es : List Entry) (m : List (ℕ × ℕ)) (active : List Entry)
    → All HasId es
    → All HasId active
    → Ascending 0 m
    → Ascending 0 (intake es m active).0 × All HasId (intake es m active).1
unfolding intake
intake_keeps [] m active h k a = (a, k)
intake_keeps (e ∷ es) m active h k a = ground (
  arith,
  intake_keeps es (insert e.id 0 m) active h.1 k (insert-Ascending 0 e.id 0 m h.0 a),
  intake_keeps es m (active ++ e ∷ []) h.1 (All-append HasId active (e ∷ []) k (h.0, tt)) a,
)

pub weighted_max_min-Ascending :
    (es : List Entry) (c : ℕ) → All HasId es → Ascending 0 (weighted_max_min es c)
unfolding weighted_max_min
weighted_max_min-Ascending es c h =
    let (a, k) = intake_keeps es [] [] h tt tt in
    fill-Ascending _ _ c _ (sort_by_id-HasId [] _ tt k) a
