-- ===== src/Fair/Allocate/Checks.antt =====
-- The checks of `allocate`: which inputs are refused, and what the maps hold for the others.
use spider_net.Prelude.{
  ok, ℕ, ◌<◌, ◌≡◌, ◌≢◌, refl, sym, ap, ◌∙◌, ◌⊎◌, inl, inr, List, [], ◌∷◌, arith, All, ◌∈◌, none,
  some, Option-cases, Bool-cases, ◌==◌,
}
use spider_net.Prelude.TreeMap.{lookup, insert, lookup-insert, Ascending, insert-Ascending}
use spider_net.Fair.Types.{Participation, Participant}
use spider_net.Fair.Allocate.{check_previous, register}

-- No two participants, and no two demands, carry the same id.
abbrev pub DistinctIds : List Participant → Type 0
DistinctIds [] = Unit {0}
DistinctIds (p ∷ ps) = All (λ q. q.id ≢ p.id) ps × DistinctIds ps

abbrev pub Unregistered : List (ℕ × Participation) → List Participant → Type 0
Unregistered classes ps = All (λ p. lookup p.id classes ≡ none) ps

Unregistered-insert :
    (k : ℕ) (c : Participation) (classes : List (ℕ × Participation)) (ps : List Participant)
    → All (λ q. q.id ≢ k) ps
    → Unregistered classes ps
    → Unregistered (insert k c classes) ps
Unregistered-insert k c classes [] h u = tt
Unregistered-insert k c classes (p ∷ ps) h u =
    (ground (arith, lookup-insert k p.id c classes), Unregistered-insert k c classes ps h.1 u.1)

-- What `register` makes of the participants: a map with one binding for each.
pub record Registered (classes out : List (ℕ × Participation)) (ps : List Participant)
    : Type 0 where
  pub kept : (k : ℕ) → All (λ p. p.id ≢ k) ps → lookup k out ≡ lookup k classes
  pub listed : (p : Participant) → p ∈ ps → lookup p.id out ≡ some p.participation
  pub only :
      (k : ℕ) (c : Participation)
      → lookup k out ≡ some c
      → (lookup k classes ≡ some c)
        ⊎ ((p : Participant) × (p ∈ ps) × (p.id ≡ k) × (p.participation ≡ c))

Unregistered-back :
    (k : ℕ) (c : Participation) (classes : List (ℕ × Participation)) (ps : List Participant)
    → Unregistered (insert k c classes) ps
    → All (λ q. q.id ≢ k) ps × Unregistered classes ps
Unregistered-back k c classes [] u = (tt, tt)
Unregistered-back k c classes (p ∷ ps) u =
    let (ne, old) = Unregistered-back k c classes ps u.1 in
    let apart : p.id ≢ k = ground (arith, lookup-insert k p.id c classes) in
    ((apart, ne), (ground (arith, lookup-insert k p.id c classes), old))

Registered-cons :
    (p : Participant) (ps : List Participant) (classes out : List (ℕ × Participation))
    → All (λ q. q.id ≢ p.id) ps
    → Registered (insert p.id p.participation classes) out ps
    → Registered classes out (p ∷ ps)
Registered-cons p ps classes out apart r = record {
  kept = λ k h. ground (arith, r.kept k h.1, lookup-insert p.id k p.participation classes);
  listed = λ q h.
      ground
        (arith, h, r.listed q, r.kept p.id apart, lookup-insert p.id p.id p.participation classes);
  only = λ k c h. elim (r.only k c h) [
    | inl old ↦ earlier k c old
    | inr (q, m, i, e) ↦ inr (q, inr m, i, e)
  ];
}
  where
    earlier :
        (k : ℕ) (c : Participation)
        → lookup k (insert p.id p.participation classes) ≡ some c
        → (lookup k classes ≡ some c)
          ⊎ ((q : Participant) × (q ∈ (p ∷ ps)) × (q.id ≡ k) × (q.participation ≡ c))
    earlier k c h = elim (Bool-cases (k == p.id)) [
      | inl same ↦
          inr (
            p,
            inl refl,
            ground arith,
            ground (arith, lookup-insert p.id k p.participation classes),
          )
      | inr other ↦ inl (ground (arith, lookup-insert p.id k p.participation classes))
    ]

-- `register` goes through exactly on participants with distinct ids, and lists each of them.
pub register-ok :
    (ps : List Participant) (classes out : List (ℕ × Participation))
    → register ps classes ≡ ok out
    → Registered classes out ps × DistinctIds ps × Unregistered classes ps
unfolding register check_previous
register-ok [] classes out h =
    let e : classes ≡ out = cc in
    (
      record {
        kept = λ k a. ap (lookup k) (sym e);
        listed = λ p m. absurd m;
        only = λ k c l. inl (ap (lookup k) e ∙ l);
      },
      tt,
      tt,
    )
register-ok (p ∷ ps) classes out h = elim (Option-cases (lookup p.id classes)) [
  | inl fresh ↦
      let (r, d, u) = register-ok ps (insert p.id p.participation classes) out (rw fresh at h) in
      let (apart, old) = Unregistered-back p.id p.participation classes ps u in
      (Registered-cons p ps classes out apart r, (apart, d), (fresh, old))
  | inr (c, seen) ↦ absurd (refused c seen)
]
  where
    refused : (c : Participation) → lookup p.id classes ≡ some c → ⊥
    refused c seen = ground (arith, seen)

-- On participants with distinct ids none of which is registered, `register` goes through.
pub register-total :
    (ps : List Participant) (classes : List (ℕ × Participation))
    → DistinctIds ps
    → Unregistered classes ps
    → (out : List (ℕ × Participation)) × (register ps classes ≡ ok out)
unfolding register check_previous
register-total [] classes d u = (classes, refl)
register-total (p ∷ ps) classes d u =
    let (out, e) =
      register-total ps (insert p.id p.participation classes) d.1
        (Unregistered-insert p.id p.participation classes ps d.0 u.1) in
    (out, rw u.0 e)

pub register-Ascending :
    (ps : List Participant) (classes out : List (ℕ × Participation))
    → All (λ p. 0 < p.id) ps
    → Ascending 0 classes
    → register ps classes ≡ ok out
    → Ascending 0 out
unfolding register check_previous
register-Ascending [] classes out pos a h = ground arith
register-Ascending (p ∷ ps) classes out pos a h = elim (Option-cases (lookup p.id classes)) [
  | inl fresh ↦
      register-Ascending ps _ out pos.1 (insert-Ascending 0 p.id p.participation classes pos.0 a)
        (rw fresh at h)
  | inr (c, seen) ↦ absurd (refused c seen)
]
  where
    refused : (c : Participation) → lookup p.id classes ≡ some c → ⊥
    refused c seen = ground (arith, seen)
