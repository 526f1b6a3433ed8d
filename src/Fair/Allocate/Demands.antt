-- ===== src/Fair/Allocate/Demands.antt =====
-- The demands that `allocate` accepts, and the map that `collect` makes of them.
use spider_net.Prelude.{
  ok, ℕ, ◌+◌, ◌≡◌, ◌≢◌, refl, sym, ap, ◌∙◌, ◌⊎◌, inl, inr, List, [], ◌∷◌, arith, All, ◌∈◌, none,
  some, Option-cases, Bool-cases, sum_of, ◌==◌,
}
use spider_net.Prelude.TreeMap.{
  lookup, insert, get_or_zero, sum_values, lookup-insert, sum_values-insert,
}
use spider_net.Fair.Types.{Participation, Demand}
use spider_net.Fair.Allocate.{check_known, collect}

abbrev pub DistinctDemands : List Demand → Type 0
DistinctDemands [] = Unit {0}
DistinctDemands (d ∷ ds) = All (λ e. e.participant ≢ d.participant) ds × DistinctDemands ds

abbrev pub Undemanded : List (ℕ × ℕ) → List Demand → Type 0
Undemanded m ds = All (λ d. lookup d.participant m ≡ none) ds

-- Every demand refers to a registered participant.
abbrev pub Registers : List (ℕ × Participation) → List Demand → Type 0
Registers classes ds = All (λ d. lookup d.participant classes ≢ none) ds

pub check_known-ok :
    (classes : List (ℕ × Participation)) (ds : List Demand)
    → check_known classes ds ≡ ok tt
    → Registers classes ds
unfolding check_known
check_known-ok classes [] h = tt
check_known-ok classes (d ∷ ds) h = ground (arith, check_known-ok classes ds)

pub check_known-total :
    (classes : List (ℕ × Participation)) (ds : List Demand)
    → Registers classes ds
    → check_known classes ds ≡ ok tt
unfolding check_known
check_known-total classes [] h = refl
check_known-total classes (d ∷ ds) h = ground (arith, check_known-total classes ds h.1)

pub record Collected (m out : List (ℕ × ℕ)) (ds : List Demand) : Type 0 where
  pub kept : (k : ℕ) → All (λ d. d.participant ≢ k) ds → lookup k out ≡ lookup k m
  pub listed : (d : Demand) → d ∈ ds → lookup d.participant out ≡ some d.rate
  pub only :
      (k v : ℕ)
      → lookup k out ≡ some v
      → (lookup k m ≡ some v) ⊎ ((d : Demand) × (d ∈ ds) × (d.participant ≡ k) × (d.rate ≡ v))
  pub total : sum_values out ≡ sum_values m + sum_of (λ d. d.rate) ds

Undemanded-back :
    (k v : ℕ) (m : List (ℕ × ℕ)) (ds : List Demand)
    → Undemanded (insert k v m) ds
    → All (λ e. e.participant ≢ k) ds × Undemanded m ds
Undemanded-back k v m [] u = (tt, tt)
Undemanded-back k v m (d ∷ ds) u =
    let (ne, old) = Undemanded-back k v m ds u.1 in
    let apart : d.participant ≢ k = ground (arith, lookup-insert k d.participant v m) in
    ((apart, ne), (ground (arith, lookup-insert k d.participant v m), old))

Undemanded-insert :
    (k v : ℕ) (m : List (ℕ × ℕ)) (ds : List Demand)
    → All (λ e. e.participant ≢ k) ds
    → Undemanded m ds
    → Undemanded (insert k v m) ds
Undemanded-insert k v m [] h u = tt
Undemanded-insert k v m (d ∷ ds) h u =
    (ground (arith, lookup-insert k d.participant v m), Undemanded-insert k v m ds h.1 u.1)

zero_of_none : (k : ℕ) (m : List (ℕ × ℕ)) → lookup k m ≡ none → get_or_zero k m ≡ 0
unfolding get_or_zero
zero_of_none k m h = ground arith

Collected-cons :
    (d : Demand) (ds : List Demand) (m out : List (ℕ × ℕ))
    → lookup d.participant m ≡ none
    → All (λ e. e.participant ≢ d.participant) ds
    → Collected (insert d.participant d.rate m) out ds
    → Collected m out (d ∷ ds)
Collected-cons d ds m out fresh apart c = record {
  kept = λ k h. ground (arith, c.kept k h.1, lookup-insert d.participant k d.rate m);
  listed = λ e h. ground (
    arith,
    h,
    c.listed e,
    c.kept d.participant apart,
    lookup-insert d.participant d.participant d.rate m,
  );
  only = λ k v h. elim (c.only k v h) [
    | inl old ↦ earlier k v old
    | inr (e, mem, i, r) ↦ inr (e, inr mem, i, r)
  ];
  total = omega (
    arith,
    c.total,
    sum_values-insert d.participant d.rate m,
    zero_of_none d.participant m fresh,
  );
}
  where
    earlier :
        (k v : ℕ)
        → lookup k (insert d.participant d.rate m) ≡ some v
        → (lookup k m ≡ some v)
          ⊎ ((e : Demand) × (e ∈ (d ∷ ds)) × (e.participant ≡ k) × (e.rate ≡ v))
    earlier k v h = elim (Bool-cases (k == d.participant)) [
      | inl same ↦
          inr (d, inl refl, ground arith, ground (arith, lookup-insert d.participant k d.rate m))
      | inr other ↦ inl (ground (arith, lookup-insert d.participant k d.rate m))
    ]

-- `collect` goes through only on demands of distinct participants, and binds each to its rate.
pub collect-ok :
    (ds : List Demand) (m out : List (ℕ × ℕ))
    → collect ds m ≡ ok out
    → Collected m out ds × DistinctDemands ds × Undemanded m ds
unfolding collect
collect-ok [] m out h =
    let e : m ≡ out = cc in
    (
      record {
        kept = λ k a. ap (lookup k) (sym e);
        listed = λ d h. absurd h;
        only = λ k v l. inl (ap (lookup k) e ∙ l);
        total = omega (arith, ap sum_values e);
      },
      tt,
      tt,
    )
collect-ok (d ∷ ds) m out h = elim (Option-cases (lookup d.participant m)) [
  | inl fresh ↦
      let (c, distinct, u) =
        collect-ok ds (insert d.participant d.rate m) out (rw (fresh, collect) at h) in
      let (apart, old) = Undemanded-back d.participant d.rate m ds u in
      (Collected-cons d ds m out fresh apart c, (apart, distinct), (fresh, old))
  | inr (v, seen) ↦ absurd (refused v seen)
]
  where
    refused : (v : ℕ) → lookup d.participant m ≡ some v → ⊥
    refused v seen = ground (arith, seen)

pub collect-total :
    (ds : List Demand) (m : List (ℕ × ℕ))
    → DistinctDemands ds
    → Undemanded m ds
    → (out : List (ℕ × ℕ)) × (collect ds m ≡ ok out)
unfolding collect
collect-total [] m d u = (m, refl)
collect-total (d ∷ ds) m apart u =
    let (out, e) =
      collect-total ds (insert d.participant d.rate m) apart.1
        (Undemanded-insert d.participant d.rate m ds apart.0 u.1) in
    (out, rw (u.0, collect) e)
