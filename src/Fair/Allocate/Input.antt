-- ===== src/Fair/Allocate/Input.antt =====
-- An input that `allocate` accepts, and the entries that the two phases work on.
use spider_net.Prelude.{
  ok, >>=-eq-ok, ℕ, ◌+◌, ◌<◌, ◌≡◌, refl, inl, inr, List, [], ◌∷◌, arith, All, All-mem, none, some,
  Option-cases, u64_mod, sum_of,
}
use spider_net.Prelude.TreeMap.{lookup, insert, get_or_zero, Ascending, All-insert}
use spider_net.Fair.Types.{Participation, Participant, Demand, FairShare}
use spider_net.Fair.Allocate.{check_previous, register, check_known, collect, share_out, allocate}
use spider_net.Fair.Allocate.Checks.{Registered, register-ok, register-Ascending, DistinctIds}
use spider_net.Fair.Allocate.Demands.{
  Collected, collect-ok, check_known-ok, Registers, DistinctDemands,
}
use spider_net.Fair.Allocate.Classes.{IsClass, asked, asked-insert}

-- Ids are `NonZeroU16`, weights `NonZeroU32`, and rates `u64`.
abbrev pub IsParticipant : Participant → Type 0
IsParticipant p = (0 < p.id) × IsClass (p.id, p.participation)

abbrev pub IsDemand : Demand → Type 0
IsDemand d = d.rate < u64_mod

-- What the checks leave of an accepted input.
pub record Accepted (c : ℕ) (ps : List Participant) (ds : List Demand) (s : FairShare)
    : Type 0 where
  pub classes : List (ℕ × Participation)
  pub demand_of : List (ℕ × ℕ)
  pub returns : s ≡ share_out c classes demand_of
  pub registered : Registered [] classes ps
  pub collected : Collected [] demand_of ds
  pub known : Registers classes ds
  pub distinct : DistinctIds ps × DistinctDemands ds
  pub ascending : Ascending 0 classes
  pub in_range : All IsClass classes
  pub demand_fits : (k : ℕ) → get_or_zero k demand_of < u64_mod
  pub total_asked : asked classes demand_of ≡ sum_of (λ d. d.rate) ds

register-IsClass :
    (ps : List Participant) (classes out : List (ℕ × Participation))
    → All IsParticipant ps
    → All IsClass classes
    → register ps classes ≡ ok out
    → All IsClass out
unfolding register check_previous
register-IsClass [] classes out v a h = ground arith
register-IsClass (p ∷ ps) classes out v a h = elim (Option-cases (lookup p.id classes)) [
  | inl fresh ↦
      register-IsClass ps _ out v.1 (All-insert IsClass p.id p.participation classes v.0.1 a)
        (rw fresh at h)
  | inr (c, seen) ↦ absurd (refused c seen)
]
  where
    refused : (c : Participation) → lookup p.id classes ≡ some c → ⊥
    refused c seen = ground (arith, seen)

collect-asked :
    (classes : List (ℕ × Participation)) (ds : List Demand) (m out : List (ℕ × ℕ))
    → Ascending 0 classes
    → Registers classes ds
    → collect ds m ≡ ok out
    → asked classes out ≡ asked classes m + sum_of (λ d. d.rate) ds
unfolding collect get_or_zero
collect-asked classes [] m out a k h = ground arith
collect-asked classes (d ∷ ds) m out a k h = elim (Option-cases (lookup d.participant m)) [
  | inl fresh ↦ omega (
    arith,
    collect-asked classes ds (insert d.participant d.rate m) out a k.1 (rw (fresh, collect) at h),
    asked-insert 0 d.participant d.rate classes m a k.0 (ground (arith, fresh)),
  )
  | inr (v, seen) ↦ absurd (refused v seen)
]
  where
    refused : (v : ℕ) → lookup d.participant m ≡ some v → ⊥
    refused v seen = ground (arith, seen)

positive : (ps : List Participant) → All IsParticipant ps → All (λ p. 0 < p.id) ps
positive [] v = tt
positive (p ∷ ps) v = (v.0.0, positive ps v.1)

-- The four steps of an accepted run.
steps :
    (c : ℕ) (ps : List Participant) (ds : List Demand) (s : FairShare)
    → allocate c ps ds ≡ ok s
    → (classes : List (ℕ × Participation)) × (register ps [] ≡ ok classes)
      × (demand_of : List (ℕ × ℕ)) × (check_known classes ds ≡ ok tt)
      × (collect ds [] ≡ ok demand_of)
      × (s ≡ share_out c classes demand_of)
unfolding allocate
steps c ps ds s h =
    let (classes, e, g) = >>=-eq-ok (register ps []) _ h in
    let (_, k, g') = >>=-eq-ok (check_known classes ds) _ g in
    let (demand_of, f, r) = >>=-eq-ok (collect ds []) _ g' in
    (classes, e, demand_of, ground (arith, k), f, cc r)

asked-nothing : (classes : List (ℕ × Participation)) → asked classes [] ≡ 0
unfolding get_or_zero lookup
asked-nothing [] = refl
asked-nothing ((id, c) ∷ classes) = omega (arith, asked-nothing classes)

demanded_fits :
    (ds : List Demand) (m : List (ℕ × ℕ)) (k : ℕ)
    → All IsDemand ds
    → Collected [] m ds
    → get_or_zero k m < u64_mod
unfolding get_or_zero lookup
demanded_fits ds m k v c = elim (Option-cases (lookup k m)) [
  | inl none_given ↦ rw (none_given, get_or_zero) (omega arith)
  | inr (r, given) ↦
      rw (given, get_or_zero)
        (elim (c.only k r given) [
          | inl old ↦ absurd (nothing r old)
          | inr (d, mem, i, e) ↦ omega (arith, All-mem IsDemand ds d v mem)
        ])
]
  where
    nothing : (r : ℕ) → none ≡ some r → ⊥
    nothing r e = cc

pub allocate-Accepted :
    (c : ℕ) (ps : List Participant) (ds : List Demand) (s : FairShare)
    → All IsParticipant ps
    → All IsDemand ds
    → allocate c ps ds ≡ ok s
    → Accepted c ps ds s
allocate-Accepted c ps ds s vp vd h =
    let (classes, e, demand_of, k, f, r) = steps c ps ds s h in
    let (registered, ids, _) = register-ok ps [] classes e in
    let (collected, demanded, _) = collect-ok ds [] demand_of f in
    let ascending = register-Ascending ps [] classes (positive ps vp) tt e in
    let known = check_known-ok classes ds k in
    record {
      classes = classes;
      demand_of = demand_of;
      returns = r;
      registered = registered;
      collected = collected;
      known = known;
      distinct = (ids, demanded);
      ascending = ascending;
      in_range = register-IsClass ps [] classes vp tt e;
      demand_fits = λ k. demanded_fits ds demand_of k vd collected;
      total_asked =
          omega
            (arith, collect-asked classes ds [] demand_of ascending known f, asked-nothing classes);
    }
