-- ===== src/Fair/MaxMin/Whole.antt =====
-- `weighted_max_min` as a whole, on entries in ascending id order, as `allocate` passes them.
use mathlib.Core.List.{append_assoc, append-nil}
use native.Mathlib.Nat.{zero-mul}
use spider_net.Prelude.{
  ℕ, ◌+◌, ◌≤◌, ◌<◌, ◌≡◌, ◌≢◌, refl, sym, ap, subst, ◌∙◌, inl, inr, List, [], ◌∷◌, ◌++◌, arith, All,
  All-mem, All-intro, ◌∈◌, length, none, some, sum_of, u64_mod, wrap128, Bool-cases, ◌==◌, min,
}
use spider_net.Prelude.TreeMap.{lookup, sum_values, get_or_zero}
use spider_net.Fair.MaxMin.{
  Entry, weighted_max_min, intake, sort_by_id, insert_by_id, fits, share, grant, satisfied,
  remaining,
}
use spider_net.Fair.MaxMin.Entries.{
  IsEntry, Ordered, Absent, rate, rate-of_lookup, rate_congr, weights, demands, Fresh, grant_other,
  grant_own, grant_total,
}
use spider_net.Fair.MaxMin.Partition.{
  All-satisfied, All-remaining, satisfied_fit, sum_of-parts, mem-parts, Ordered-satisfied,
  Ordered-remaining, satisfied-Absent, remaining-Absent,
}
use spider_net.Fair.MaxMin.Rounds.{Fills, NotAhead}
use spider_net.Fair.MaxMin.Loop.{fill-Fills}

-- With no capacity at all, the demands that fit their shares are the zero demands.
abbrev idle : List Entry → List Entry
idle = satisfied 0 1

abbrev wanting : List Entry → List Entry
wanting = remaining 0 1

share-zero : (e : Entry) → share 0 1 e ≡ 0
unfolding share wrap128
share-zero e = rw zero-mul

fits-zero : (e : Entry) → fits 0 1 e ≡ (e.demand == 0)
unfolding fits
fits-zero e = rw (share-zero e) (ground arith)

intake-parts :
    (es : List Entry) (m : List (ℕ × ℕ)) (active : List Entry)
    → intake es m active ≡ (grant (λ e. 0) (idle es) m, active ++ wanting es)
unfolding intake grant satisfied remaining
intake-parts [] m active = rw append-nil
intake-parts (e ∷ es) m active = elim (Bool-cases (e.demand == 0)) [
  | inl z ↦ rw (fits-zero e, z) (intake-parts es _ active)
  | inr z ↦
      rw (fits-zero e, z)
        (intake-parts es m _
          ∙ ap (λ t. (grant (λ x. 0) (idle es) m, t)) (append_assoc active (e ∷ []) (wanting es)))
]

insert_by_id-last :
    (lo : ℕ) (e : Entry) (xs ys : List Entry)
    → Ordered lo (xs ++ e ∷ ys)
    → insert_by_id e xs ≡ xs ++ e ∷ []
unfolding insert_by_id
insert_by_id-last lo e [] ys o = refl
insert_by_id-last lo e (x ∷ xs) ys o =
    ground (arith, insert_by_id-last x.id e xs ys o.1, Ordered-last x.id e xs ys o.1)
  where
    Ordered-last : (lo : ℕ) (e : Entry) (xs ys : List Entry) → Ordered lo (xs ++ e ∷ ys) → lo < e.id
    Ordered-last lo e [] ys o = o.0
    Ordered-last lo e (x ∷ xs) ys o = omega (arith, Ordered-last x.id e xs ys o.1)

-- Entries in ascending id order stay as they are.
sort_by_id-Ordered :
    (lo : ℕ) (xs ys : List Entry) → Ordered lo (xs ++ ys) → sort_by_id xs ys ≡ xs ++ ys
unfolding sort_by_id
sort_by_id-Ordered lo xs [] o = rw append-nil
sort_by_id-Ordered lo xs (e ∷ ys) o = rw (insert_by_id-last lo e xs ys o) (
    sort_by_id-Ordered lo (xs ++ e ∷ []) ys
      (subst (Ordered lo) (sym (append_assoc xs (e ∷ []) ys)) o)
    ∙ append_assoc xs (e ∷ []) ys)

-- What `weighted_max_min` grants of the capacity `c` to the entries `es`.
pub record Shares (es : List Entry) (c : ℕ) (out : List (ℕ × ℕ)) : Type 0 where
  pub absent : (k : ℕ) → Absent k es → lookup k out ≡ none
  pub listed : (e : Entry) → e ∈ es → lookup e.id out ≡ some (rate out e)
  pub capped : (e : Entry) → e ∈ es → rate out e ≤ e.demand
  pub total : sum_values out ≡ min c (demands es)
  pub settled : demands es ≤ c → (e : Entry) → e ∈ es → rate out e ≡ e.demand
  pub fair : (i j : Entry) → i ∈ es → j ∈ es → NotAhead (rate out j) j out i

zero_demands : (es : List Entry) → All (λ e. e.demand ≤ share 0 1 e) es → demands es ≡ 0
zero_demands [] h = refl
zero_demands (e ∷ es) h = omega (arith, share-zero e, zero_demands es h.1)

module _ (es : List Entry) (c : ℕ) (o : Ordered 0 es) (m : List (ℕ × ℕ)) (out : List (ℕ × ℕ))
    (empty : m ≡ []) (later : Fills (wanting es) c (grant (λ e. 0) (idle es) m) out) where
  idle_held : (x : Entry) → x ∈ idle es → lookup x.id out ≡ some 0
  idle_held x d =
      later.kept x.id (satisfied-Absent 0 1 0 es x o d)
      ∙ grant_own (λ y. 0) 0 (idle es) m x (Ordered-satisfied 0 1 0 es o) d

  idle_own : (x : Entry) → x ∈ idle es → rate out x ≡ 0
  idle_own x d = rate-of_lookup x.id 0 out (idle_held x d)

  idle_demand : (x : Entry) → x ∈ idle es → x.demand ≡ 0
  idle_demand x d = omega (
    arith,
    share-zero x,
    All-mem (λ e. e.demand ≤ share 0 1 e) (idle es) x (satisfied_fit 0 1 es) d,
  )

  no_rates : Fresh m es
  unfolding get_or_zero lookup
  no_rates = All-intro (λ e. get_or_zero e.id m ≡ 0) es λ x h. rw empty

  Fills-Shares : All IsEntry es → Shares es c out
  unfolding sum_values lookup
  Fills-Shares v = record {
    absent = λ k a.
        later.kept k (All-remaining 0 1 (λ x. x.id ≢ k) es a)
        ∙ grant_other (λ e. 0) (idle es) m k (All-satisfied 0 1 (λ x. x.id ≢ k) es a)
        ∙ rw empty;
    listed = λ x h. elim (mem-parts 0 1 es x h) [
      | inl d ↦ idle_held x d ∙ ap some (sym (idle_own x d))
      | inr r ↦ later.listed x r
    ];
    capped = λ x h. elim (mem-parts 0 1 es x h) [
      | inl d ↦ omega (arith, idle_own x d)
      | inr r ↦ later.capped x r
    ];
    total = omega (
      arith,
      later.total,
      grant_total (λ e. 0) 0 (idle es) m (Ordered-satisfied 0 1 0 es o)
          (All-satisfied 0 1 (λ e. get_or_zero e.id m ≡ 0) es no_rates),
      sum_of_zero (idle es),
      ap sum_values empty,
      wanted,
    );
    settled = λ enough x h. elim (mem-parts 0 1 es x h) [
      | inl d ↦ omega (arith, idle_own x d, idle_demand x d)
      | inr r ↦ later.settled (omega (arith, wanted)) x r
    ];
    fair = λ i j hi hj short. elim (mem-parts 0 1 es i hi) [
      | inl d ↦ absurd (omega (arith, idle_demand i d))
      | inr ri ↦ elim (mem-parts 0 1 es j hj) [
        | inl dj ↦ ground (arith, idle_own j dj, (All-mem IsEntry es i v hi).0, zero-mul i.weight)
        | inr rj ↦ later.fair i j ri rj short
      ]
    ];
  }
    where
      sum_of_zero : (xs : List Entry) → sum_of (λ x. 0) xs ≡ 0
      sum_of_zero [] = refl
      sum_of_zero (x ∷ xs) = omega (arith, sum_of_zero xs)

      wanted : demands es ≡ demands (wanting es)
      wanted = omega (
        arith,
        sum_of-parts 0 1 (λ x. x.demand) es,
        zero_demands (idle es) (satisfied_fit 0 1 es),
      )

Fresh-wanting : (es : List Entry) → Ordered 0 es → Fresh (grant (λ e. 0) (idle es) []) (wanting es)
unfolding get_or_zero lookup
Fresh-wanting es o =
    All-intro (λ x. get_or_zero x.id (grant (λ e. 0) (idle es) []) ≡ 0) (wanting es)
      λ x h.
        rate_congr x.id (grant (λ e. 0) (idle es) []) []
          (grant_other (λ e. 0) (idle es) [] x.id (remaining-Absent 0 1 0 es x o h))

-- On entries in ascending id order within their machine ranges, and for every `u64` capacity, the
-- helper ends and grants: no rate above its demand, in all the lesser of the capacity and the sum
-- of the demands, everything that is asked for if the capacity suffices, and to nobody who is short
-- a unit per weight less than to anybody else.
pub weighted_max_min-Shares :
    (es : List Entry) (c : ℕ)
    → Ordered 0 es
    → All IsEntry es
    → c < u64_mod
    → weights es < u64_mod
    → Shares es c (weighted_max_min es c)
unfolding weighted_max_min
weighted_max_min-Shares es c o v b t =
    let parts = intake-parts es [] [] in
    let ow = Ordered-remaining 0 1 0 es o in
    rw (parts, sort_by_id-Ordered 0 [] (wanting es) ow)
      (Fills-Shares es c o [] _ refl
        (fill-Fills (length (wanting es) + 1) c 0 (wanting es) _ (omega arith) b
          (omega (arith, sum_of-parts 0 1 (λ x. x.weight) es)) ow (All-remaining 0 1 IsEntry es v)
          (Fresh-wanting es o))
        v)
