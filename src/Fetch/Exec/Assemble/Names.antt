-- ===== src/Fetch/Exec/Assemble/Names.antt =====
-- When the order of the part names is that of the segments.
use mathlib.Core.List.{Perm}
use spider_net.Prelude.{
  List, ap, ℕ, zero, suc, ◌+◌, ◌-◌, ◌*◌, ◌/◌, ◌%◌, ◌≤◌, ◌<◌, ◌≡◌, inl, inr, refl, sym, subst, ◌∙◌,
  true, false, [], ◌∷◌, ◌++◌, All, All-append, length, length-append, Bool-cases, ltb, ltb→lt,
  lt→ltb, ltb→ge, arith,
}
use spider_net.Prelude.Text.{Text, codes}
use spider_net.Prelude.Text.Decimal.{digits, decimal, IsDigit, decimal-IsDigit}
use spider_net.Fetch.Exec.Assemble.Order.{
  IsAscending, sort_parts-IsAscending, sort_parts-perm, sort_parts-All,
}
use spider_net.Fetch.Exec.Assemble.{Part, sort_parts, before, zeros, padded, part_name}

-- The number that digits spell behind `acc`.
value : ℕ → Text → ℕ
value acc [] = acc
value acc (c ∷ s) = value (acc * 10 + (c - 48)) s

value-append : (acc d : ℕ) (s : Text) → value acc (s ++ d ∷ []) ≡ value acc s * 10 + (d - 48)
unfolding value
value-append acc d [] = refl
value-append acc d (c ∷ s) = value-append (acc * 10 + (c - 48)) d s

value-digits : (fuel n : ℕ) → n < fuel → value 0 (digits fuel n) ≡ n
unfolding digits value
value-digits zero n h = absurd (omega (arith, h))
value-digits (suc fuel) n h = elim (Bool-cases (ltb n 10)) [
  | inl small ↦ rw small (omega arith)
  | inr big ↦
      let more = ltb→ge n 10 big in
      let front = value-digits fuel (n / 10) (omega (arith, h, more)) in
      rw big (value-append 0 (n % 10 + 48) (digits fuel (n / 10)) ∙ omega (arith, front))
]

value-zeros : (k : ℕ) (s : Text) → value 0 (zeros k ++ s) ≡ value 0 s
unfolding value zeros
value-zeros zero s = refl
value-zeros (suc k) s = value-zeros k s

zeros-IsDigit : (k : ℕ) → All IsDigit (zeros k)
unfolding zeros
zeros-IsDigit zero = tt
zeros-IsDigit (suc k) = (omega arith, zeros-IsDigit k)

length-zeros : (k : ℕ) → length (zeros k) ≡ k
unfolding zeros
length-zeros zero = refl
length-zeros (suc k) = omega (arith, length-zeros k)

-- 10 ^ (k + 1).
ten : ℕ → ℕ
ten zero = 10
ten (suc k) = 10 * ten k

length-digits : (fuel n k : ℕ) → n < ten k → length (digits fuel n) ≤ k + 1
unfolding digits ten
length-digits zero n k h = omega arith
length-digits (suc fuel) n zero h = rw (lt→ltb n 10 h) (omega arith)
length-digits (suc fuel) n (suc k) h = elim (Bool-cases (ltb n 10)) [
  | inl small ↦ rw small (omega arith)
  | inr big ↦
      let front = length-digits fuel (n / 10) k (omega (arith, h)) in
      rw (big, length-append (digits fuel (n / 10)) ((n % 10 + 48) ∷ [])) (omega (arith, front))
]

-- Numbers of as many digits are ordered by what stands before them, and then by their digits.
value-lt :
    (a b : ℕ) (s t : Text)
    → All IsDigit s
    → All IsDigit t
    → length s ≡ length t
    → a < b
    → value a s < value b t
unfolding value
value-lt a b [] [] ds dt same h = h
value-lt a b [] (d ∷ t) ds dt same h = absurd (omega (arith, same))
value-lt a b (c ∷ s) [] ds dt same h = absurd (omega (arith, same))
value-lt a b (c ∷ s) (d ∷ t) ds dt same h =
    value-lt (a * 10 + (c - 48)) (b * 10 + (d - 48)) s t ds.1 dt.1 (omega (arith, same))
      (omega (arith, h, ds.0, dt.0))

before_of_value :
    (acc : ℕ) (s t rest : Text)
    → All IsDigit s
    → All IsDigit t
    → length s ≡ length t
    → value acc s < value acc t
    → (before (s ++ rest) (t ++ rest) ≡ true) × (before (t ++ rest) (s ++ rest) ≡ false)
unfolding value before
before_of_value acc [] [] rest ds dt same h = absurd (omega (arith, h))
before_of_value acc [] (d ∷ t) rest ds dt same h = absurd (omega (arith, same))
before_of_value acc (c ∷ s) [] rest ds dt same h = absurd (omega (arith, same))
before_of_value acc (c ∷ s) (d ∷ t) rest ds dt same h = elim (Bool-cases (ltb c d)) [
  | inl less ↦ ground (arith, less)
  | inr not_less ↦ elim (Bool-cases (ltb d c)) [
    | inl more ↦
        let back =
          value-lt (acc * 10 + (d - 48)) (acc * 10 + (c - 48)) t s dt.1 ds.1 (omega (arith, same))
            (omega (arith, ltb→lt d c more, dt.0, ds.0)) in
        absurd (omega (arith, h, back))
    | inr not_more ↦
        let eq : d ≡ c = omega (arith, ltb→ge c d not_less, ltb→ge d c not_more) in
        let rest_order =
          before_of_value (acc * 10 + (c - 48)) s t rest ds.1 dt.1 (omega (arith, same))
            (subst (λ x. value (acc * 10 + (c - 48)) s < value (acc * 10 + (x - 48)) t) eq h) in
        ground (arith, eq, rest_order.0, rest_order.1, not_less, not_more)
  ]
]

length-padded : (index : ℕ) → index < 1000000 → length (padded index) ≡ 6
unfolding padded decimal ten
length-padded index h =
    let short : length (digits (index + 1) index) ≤ 6 = length-digits (index + 1) index 5 h in
    length-append (zeros (6 - length (digits (index + 1) index))) (digits (index + 1) index)
    ∙ omega (arith, length-zeros (6 - length (digits (index + 1) index)), short)

padded-IsDigit : (index : ℕ) → All IsDigit (padded index)
unfolding padded
padded-IsDigit index =
    All-append IsDigit (zeros (6 - length (decimal index))) (decimal index)
      (zeros-IsDigit (6 - length (decimal index))) (decimal-IsDigit index)

value-padded : (index : ℕ) → value 0 (padded index) ≡ index
unfolding padded decimal
value-padded index =
    value-zeros (6 - length (digits (index + 1) index)) (digits (index + 1) index)
    ∙ value-digits (index + 1) index (omega arith)

-- Below a million the names of two parts are in the order of their segments, and so different.
part_name_ordered :
    (i j : ℕ)
    → i < j
    → j < 1000000
    → (before (part_name i) (part_name j) ≡ true) × (before (part_name j) (part_name i) ≡ false)
unfolding part_name before
part_name_ordered i j h small =
    before_of_value 0 (padded i) (padded j) (codes ".part") (padded-IsDigit i) (padded-IsDigit j)
      (length-padded i (omega (arith, h, small)) ∙ sym (length-padded j small))
      (omega (arith, h, value-padded i, value-padded j))

module _ {I : Type 0} (index : Part I → ℕ) where
  -- The part of a segment below a million, under the name that the code gives it.
  abbrev pub IsNamed : Part I → Type 0
  IsNamed p = (p.name ≡ part_name (index p)) × (index p < 1000000)

  -- No part has a smaller index than the one before it.
  abbrev pub IsInOrder : List (Part I) → Type 0
  IsInOrder [] = Unit
  IsInOrder (p ∷ []) = Unit
  IsInOrder (p ∷ q ∷ parts) = (index p ≤ index q) × IsInOrder (q ∷ parts)

  index_order :
      (p q : Part I) → IsNamed p → IsNamed q → before p.name q.name ≡ true → index p ≤ index q
  index_order p q hp hq h = elim (Bool-cases (ltb (index q) (index p))) [
    | inr fine ↦ ltb→ge (index q) (index p) fine
    | inl less ↦
        let order = part_name_ordered (index q) (index p) (ltb→lt (index q) (index p) less) hp.1 in
        let back : before p.name q.name ≡ false =
          ap (λ s. before s q.name) hp.0 ∙ ap (before (part_name (index p))) hq.0 ∙ order.1 in
        absurd (ground (arith, h, back))
  ]

  ascending-IsInOrder :
      (parts : List (Part I)) → All IsNamed parts → IsAscending parts → IsInOrder parts
  ascending-IsInOrder [] named a = tt
  ascending-IsInOrder (p ∷ []) named a = tt
  ascending-IsInOrder (p ∷ q ∷ parts) named a =
      (index_order p q named.0 named.1.0 a.0, ascending-IsInOrder (q ∷ parts) named.1 a.1)

  -- The sorted parts are the parts of the directory, each as often as there. Where every part has the name
  -- of a segment below a million, they are in the order of the segments.
  pub sort_parts-IsInOrder :
      (parts : List (Part I))
      → All IsNamed parts
      → Perm (sort_parts parts) parts × IsInOrder (sort_parts parts)
  sort_parts-IsInOrder parts named = (
    sort_parts-perm parts,
    ascending-IsInOrder (sort_parts parts) (sort_parts-All IsNamed parts named)
        (sort_parts-IsAscending parts),
  )
