-- ===== src/Fetch/Plan/Merge/Covering.antt =====
-- Assignments that follow one another.
use spider_net.Prelude.{subst, ℕ, ◌+◌, ◌≤◌, ◌≡◌, refl, sym, List, [], ◌∷◌, ◌++◌, arith}
use spider_net.Fetch.Plan.Merge.{Assignment}

-- The ranges follow one another from `a` up to and without `b`.
abbrev pub Covers : ℕ → List Assignment → ℕ → Type 0
Covers a [] b = a ≡ b
Covers a (x ∷ xs) b =
    (x.range.start ≡ a) × (a ≤ x.range.end_inclusive) × Covers (x.range.end_inclusive + 1) xs b

pub Covers-append :
    (a m b : ℕ) (xs ys : List Assignment) → Covers a xs m → Covers m ys b → Covers a (xs ++ ys) b
Covers-append a m b [] ys p q = subst (λ k. Covers k ys b) (sym p) q
Covers-append a m b (x ∷ xs) ys p q =
    (p.0, p.1, Covers-append (x.range.end_inclusive + 1) m b xs ys p.2 q)

pub Covers-parts :
    (a b : ℕ) (xs ys : List Assignment)
    → Covers a (xs ++ ys) b
    → (m : ℕ) × Covers a xs m × Covers m ys b
Covers-parts a b [] ys p = (a, refl, p)
Covers-parts a b (x ∷ xs) ys p =
    let (m, q, r) = Covers-parts (x.range.end_inclusive + 1) b xs ys p.2 in (m, (p.0, p.1, q), r)

pub Covers-le : (a b : ℕ) (xs : List Assignment) → Covers a xs b → a ≤ b
Covers-le a b [] p = omega arith
Covers-le a b (x ∷ xs) p = omega (arith, Covers-le (x.range.end_inclusive + 1) b xs p.2)
