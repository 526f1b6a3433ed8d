-- ===== src/Fetch/Exec/Assemble/Order.antt =====
-- The order of the parts: that of their names.
use mathlib.Core.List.{Perm}
use mathlib.Core.List.Perm
use spider_net.Prelude.{◌≡◌, inl, inr, refl, true, false, List, [], ◌∷◌, All, Bool-cases, arith}
use spider_net.Prelude.Text.{Text}
use spider_net.Fetch.Exec.Assemble.{Part, before, insert_part, sort_parts}

before_total : (s t : Text) → before s t ≡ false → before t s ≡ true
unfolding before
before_total [] t h = absurd (ground (arith, h))
before_total (c ∷ s) [] h = refl
before_total (c ∷ s) (d ∷ t) h = elim (Bool-cases (before s t)) [
  | inl le ↦ ground (arith, h, le)
  | inr gt ↦ let back = before_total s t gt in ground (arith, h, back)
]

module _ {I : Type 0} where
  -- Each name is not after the next one.
  abbrev pub IsAscending : List (Part I) → Type 0
  IsAscending [] = Unit
  IsAscending (p ∷ []) = Unit
  IsAscending (p ∷ q ∷ parts) = (before p.name q.name ≡ true) × IsAscending (q ∷ parts)

  below :
      (p q : Part I) (parts : List (Part I))
      → before q.name p.name ≡ true
      → IsAscending (q ∷ parts)
      → IsAscending (insert_part p parts)
      → IsAscending (q ∷ insert_part p parts)
  unfolding insert_part
  below p q [] h a b = (h, tt)
  below p q (r ∷ parts) h a b = elim (Bool-cases (before p.name r.name)) [
    | inl first ↦ rw first (h, rw first at b)
    | inr later ↦ rw later (a.0, rw later at b)
  ]

  tail-IsAscending :
      (p : Part I) (parts : List (Part I)) → IsAscending (p ∷ parts) → IsAscending parts
  tail-IsAscending p [] a = tt
  tail-IsAscending p (q ∷ parts) a = a.1

  insert_part-IsAscending :
      (p : Part I) (parts : List (Part I)) → IsAscending parts → IsAscending (insert_part p parts)
  unfolding insert_part
  insert_part-IsAscending p [] a = tt
  insert_part-IsAscending p (q ∷ parts) a = elim (Bool-cases (before p.name q.name)) [
    | inl first ↦ rw first (first, a)
    | inr later ↦ rw later (
        below p q parts (before_total p.name q.name later) a
          (insert_part-IsAscending p parts (tail-IsAscending q parts a)))
  ]

  pub sort_parts-IsAscending : (parts : List (Part I)) → IsAscending (sort_parts parts)
  unfolding sort_parts
  sort_parts-IsAscending [] = tt
  sort_parts-IsAscending (p ∷ parts) =
      insert_part-IsAscending p (sort_parts parts) (sort_parts-IsAscending parts)

  insert_part-perm : (p : Part I) (parts : List (Part I)) → Perm (insert_part p parts) (p ∷ parts)
  unfolding insert_part
  insert_part-perm p [] = Perm.refl (p ∷ [])
  insert_part-perm p (q ∷ parts) = elim (Bool-cases (before p.name q.name)) [
    | inl first ↦ rw first (Perm.refl (p ∷ q ∷ parts))
    | inr later ↦
        rw later (Perm.trans (Perm.cons q (insert_part-perm p parts)) (Perm.swap p q parts))
  ]

  pub sort_parts-perm : (parts : List (Part I)) → Perm (sort_parts parts) parts
  unfolding sort_parts
  sort_parts-perm [] = Perm.refl []
  sort_parts-perm (p ∷ parts) =
      Perm.trans (insert_part-perm p (sort_parts parts)) (Perm.cons p (sort_parts-perm parts))

  insert_part-All :
      (P : Part I → Type 0) (p : Part I) (parts : List (Part I))
      → P p
      → All P parts
      → All P (insert_part p parts)
  unfolding insert_part
  insert_part-All P p [] h all = (h, tt)
  insert_part-All P p (q ∷ parts) h all = elim (Bool-cases (before p.name q.name)) [
    | inl first ↦ rw first (h, all)
    | inr later ↦ rw later (all.0, insert_part-All P p parts h all.1)
  ]

  pub sort_parts-All :
      (P : Part I → Type 0) (parts : List (Part I)) → All P parts → All P (sort_parts parts)
  unfolding sort_parts
  sort_parts-All P [] all = tt
  sort_parts-All P (p ∷ parts) all =
      insert_part-All P p (sort_parts parts) all.0 (sort_parts-All P parts all.1)
