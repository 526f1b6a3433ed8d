-- ===== src/Fair/Allocate/Refusals.antt =====
-- The inputs that `allocate` refuses, and what its errors say of them.
use spider_net.Prelude.{
  ok, >>=-eq-ok, ℕ, ◌≡◌, ◌≢◌, refl, ap, ◌↔◌, inl, inr, List, [], ◌∷◌, arith, All, All-intro,
  All-mem, ◌∈◌, none, Option-cases,
}
use spider_net.Prelude.TreeMap.{lookup}
use spider_net.Fair.Types.{Participation, Participant, Demand, FairShare}
use spider_net.Fair.Allocate.{register, check_known, collect, share_out, allocate}
use spider_net.Fair.Allocate.Checks.{
  DistinctIds, Registered, register-ok, register-total, Unregistered,
}
use spider_net.Fair.Allocate.Demands.{
  DistinctDemands, Undemanded, check_known-ok, check_known-total, collect-ok, collect-total,
}

-- Some participant has the id `k`.
abbrev pub Known : List Participant → ℕ → Type 0
Known ps k = (p : Participant) × (p ∈ ps) × (p.id ≡ k)

nothing-Unregistered : (ps : List Participant) → Unregistered [] ps
unfolding lookup
nothing-Unregistered [] = tt
nothing-Unregistered (p ∷ ps) = (refl, nothing-Unregistered ps)

nothing-Undemanded : (ds : List Demand) → Undemanded [] ds
unfolding lookup
nothing-Undemanded [] = tt
nothing-Undemanded (d ∷ ds) = (refl, nothing-Undemanded ds)

module _ (ps : List Participant) (classes : List (ℕ × Participation))
    (r : Registered [] classes ps) where
  -- A binding is a participant, and a participant has a binding.
  Known-bound : (k : ℕ) → Known ps k → lookup k classes ≢ none
  Known-bound k (p, mem, i) e = ground (arith, r.listed p mem, ap (λ t. lookup t classes) i, e)

  bound-Known : (k : ℕ) → lookup k classes ≢ none → Known ps k
  unfolding lookup
  bound-Known k h = elim (Option-cases (lookup k classes)) [
    | inl e ↦ absurd (h e)
    | inr (c, e) ↦ elim (r.only k c e) [ inl old ↦ cc | inr (p, mem, i, _) ↦ (p, mem, i) ]
  ]

-- `allocate` goes through exactly if no two participants share an id, no two demands are of one
-- participant, and every demand is of a participant. (No step can fail later on.)
pub allocate-ok_iff :
    (c : ℕ) (ps : List Participant) (ds : List Demand)
    → ((s : FairShare) × (allocate c ps ds ≡ ok s))
      ↔ (DistinctIds ps × All (λ d. Known ps d.participant) ds × DistinctDemands ds)
unfolding allocate
allocate-ok_iff c ps ds = (accepted, good)
  where
    accepted :
        (s : FairShare) × (allocate c ps ds ≡ ok s)
        → DistinctIds ps × All (λ d. Known ps d.participant) ds × DistinctDemands ds
    accepted (s, h) =
        let (classes, e, g) = >>=-eq-ok (register ps []) _ h in
        let (_, k, g') = >>=-eq-ok (check_known classes ds) _ g in
        let (demand_of, f, _) = >>=-eq-ok (collect ds []) _ g' in
        let (r, ids, _) = register-ok ps [] classes e in
        let known = check_known-ok classes ds (ground (arith, k)) in
        (
          ids,
          All-intro (λ d. Known ps d.participant) ds
              λ d mem.
                bound-Known ps classes r d.participant
                  (All-mem (λ x. lookup x.participant classes ≢ none) ds d known mem),
          (collect-ok ds [] demand_of f).1,
        )

    good :
        DistinctIds ps × All (λ d. Known ps d.participant) ds × DistinctDemands ds
        → (s : FairShare) × (allocate c ps ds ≡ ok s)
    good (ids, known, distinct) =
        let (classes, e) = register-total ps [] ids (nothing-Unregistered ps) in
        let (demand_of, f) = collect-total ds [] distinct (nothing-Undemanded ds) in
        let (r, _, _) = register-ok ps [] classes e in
        let k = check_known-total classes ds (
          All-intro (λ d. lookup d.participant classes ≢ none) ds
            λ d mem.
              Known-bound ps classes r d.participant
                (All-mem (λ x. Known ps x.participant) ds d known mem)) in
        (share_out c classes demand_of, rw (e, k, f))
