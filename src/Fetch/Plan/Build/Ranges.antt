-- ===== src/Fetch/Plan/Build/Ranges.antt =====
-- The ranges and the exits that the loops of `FetchPlan::build` of server/crates/sn-fetch/src/plan.rs make.
use mathlib.Core.Option
use spider_net.Prelude.{
  ok, err, ok-inj, >>=-eq-ok, ℕ, zero, suc, ◌+◌, ◌-◌, ◌≤◌, ◌≡◌, ◌⊎◌, wrap64, refl, subst, inl, inr,
  List, [], ◌∷◌, ◌++◌, Option, none, some, Option-cases, arith, All, All-append, length, ltb, leb,
  ◌==◌, u64_mod, Bool-cases,
}
use spider_net.Fetch.Types.{ByteRange, try_new_range, len, range_reversed}
use spider_net.Fetch.Plan.Split.{part_len, subsplit_loop, even_subsplit}
use spider_net.Fetch.Plan.Merge.{
  Assignment, Found, find_tiny, merge_into_last, merge_round, merge_loop,
}
use spider_net.Fetch.Plan.Build.{assign, Cut, cut_for, whole_file, extend_last}

-- A range that has a byte.
abbrev pub IsForward : ByteRange → Type 0
IsForward r = r.start ≤ r.end_inclusive

try_new_range-cases :
    (a b : ℕ)
    → ((r : ByteRange) × (try_new_range a b ≡ ok r) × IsForward r)
      ⊎ (try_new_range a b ≡ err (range_reversed a b))
unfolding try_new_range
try_new_range-cases a b = elim (Bool-cases (ltb b a)) [
  | inl t ↦ inr (rw t refl)
  | inr t ↦ inl (record { start = a; end_inclusive = b }, rw t refl, ground (arith, t))
]

subsplit_loop-IsForward :
    (base remainder left i cursor : ℕ) (out : List ByteRange)
    → All IsForward out
    → All IsForward (subsplit_loop base remainder left i cursor out)
unfolding subsplit_loop
subsplit_loop-IsForward base remainder zero i cursor out h = h
subsplit_loop-IsForward base remainder (suc left) i cursor out h =
    elim (try_new_range-cases cursor (wrap64 (cursor + part_len base remainder i + u64_mod - 1))) [
      | inl (r, e, f) ↦
          rw (e, subsplit_loop)
            (subsplit_loop-IsForward base remainder left (i + 1) _ (out ++ r ∷ [])
              (All-append IsForward out (r ∷ []) h (f, tt)))
      | inr e ↦ rw (e, subsplit_loop) tt
    ]

module _ (P : ℕ → Type 0) where
  -- An assignment of some bytes to an exit that satisfies `P`.
  abbrev pub IsGood : Assignment → Type 0
  IsGood x = IsForward x.range × P x.exit

  assign-IsGood :
      (exit : ℕ) (rs : List ByteRange) → P exit → All IsForward rs → All IsGood (assign exit rs)
  unfolding assign
  assign-IsGood exit [] p f = tt
  assign-IsGood exit (r ∷ rs) p f = ((f.0, p), assign-IsGood exit rs p f.1)

  pub cut_for-IsGood :
      (exit exit_end spe : ℕ) (c : Cut)
      → P exit
      → All IsGood c.assignments
      → All IsGood (cut_for exit exit_end spe c).assignments
  unfolding cut_for even_subsplit
  cut_for-IsGood exit exit_end spe c p g = elim (Bool-cases (leb c.start (exit_end - 1))) [
    | inl t ↦ rw t (
        All-append IsGood c.assignments _ g
          (assign-IsGood exit _ p (subsplit_loop-IsForward _ _ spe 0 c.start [] tt)))
    | inr t ↦ rw t g
  ]

  pub whole_file-IsGood :
      (size exit : ℕ) (xs : List Assignment) → P exit → whole_file size exit ≡ ok xs → All IsGood xs
  unfolding whole_file
  whole_file-IsGood size exit xs p h = elim (try_new_range-cases 0 (size - 1)) [
    | inl (r, e, f) ↦ subst (All IsGood) (ok-inj (rw (e, whole_file) at h)) ((f, p), tt)
    | inr e ↦ absurd (ground (arith, rw (e, whole_file) at h))
  ]

  pub extend_last-IsGood :
      (size : ℕ) (xs ys : List Assignment)
      → All IsGood xs
      → extend_last size xs ≡ ok ys
      → All IsGood ys
  unfolding extend_last
  extend_last-IsGood size [] ys g h = subst (All IsGood) (ok-inj h) tt
  extend_last-IsGood size (a ∷ []) ys g h = elim (try_new_range-cases a.range.start (size - 1)) [
    | inl (r, e, f) ↦ subst (All IsGood) (ok-inj (rw e at h)) ((f, g.0.1), tt)
    | inr e ↦ absurd (ground (arith, rw e at h))
  ]
  extend_last-IsGood size (a ∷ b ∷ more) ys g h =
      let (rest, e, f) = >>=-eq-ok (extend_last size (b ∷ more)) _ h in
      subst (All IsGood) (ok-inj f) (g.0, extend_last-IsGood size (b ∷ more) rest g.1 e)

  merge_into_last-IsGood :
      (xs ys : List Assignment) (tiny : Assignment)
      → All IsGood xs
      → merge_into_last xs tiny ≡ some ys
      → All IsGood ys
  unfolding merge_into_last
  merge_into_last-IsGood [] ys tiny g h = absurd (ground (arith, h))
  merge_into_last-IsGood (a ∷ []) ys tiny g h =
      elim (try_new_range-cases a.range.start tiny.range.end_inclusive) [
        | inl (r, e, f) ↦
            subst (All IsGood) (Option.some_inj.0 (rw (e, merge_into_last) at h)) ((f, g.0.1), tt)
        | inr e ↦ absurd (ground (arith, rw (e, merge_into_last) at h))
      ]
  merge_into_last-IsGood (a ∷ b ∷ more) ys tiny g h =
      elim (Option-cases (merge_into_last (b ∷ more) tiny)) [
        | inl e ↦ absurd (ground (arith, rw e at h))
        | inr (rest, e) ↦
            subst (All IsGood) (Option.some_inj.0 (rw e at h))
              (g.0, merge_into_last-IsGood (b ∷ more) rest tiny g.1 e)
      ]

  -- What `find_tiny` finds is of the list.
  abbrev Holds : Option Found → Type 0
  Holds none = Unit
  Holds (some f) = All IsGood f.before × IsGood f.tiny × All IsGood f.after

  find_tiny-IsGood :
      (min_segment : ℕ) (before xs : List Assignment)
      → All IsGood before
      → All IsGood xs
      → Holds (find_tiny min_segment before xs)
  unfolding find_tiny
  find_tiny-IsGood min_segment before [] b g = tt
  find_tiny-IsGood min_segment before (a ∷ rest) b g =
      elim (Bool-cases (ltb (len a.range) min_segment)) [
        | inl t ↦ rw t (b, g.0, g.1)
        | inr t ↦ rw t (
            find_tiny-IsGood min_segment (before ++ a ∷ []) rest
              (All-append IsGood before (a ∷ []) b (g.0, tt)) g.1)
      ]

  merge_round-IsGood :
      (before after ys : List Assignment) (tiny : Assignment)
      → All IsGood before
      → IsGood tiny
      → All IsGood after
      → merge_round (record { before = before; tiny = tiny; after = after }) ≡ some ys
      → All IsGood ys
  unfolding merge_round
  merge_round-IsGood before [] ys tiny b t a h = merge_into_last-IsGood before ys tiny b h
  merge_round-IsGood before (next ∷ rest) ys tiny b t a h =
      elim (try_new_range-cases tiny.range.start next.range.end_inclusive) [
        | inl (r, e, f) ↦
            subst (All IsGood) (Option.some_inj.0 (rw (e, merge_round) at h))
              (All-append IsGood before _ b ((f, a.0.1), a.1))
        | inr e ↦ absurd (ground (arith, rw (e, merge_round) at h))
      ]

  pub merge_loop-IsGood :
      (min_segment fuel : ℕ) (xs : List Assignment)
      → All IsGood xs
      → All IsGood (merge_loop min_segment fuel xs)
  unfolding merge_loop
  merge_loop-IsGood min_segment zero xs g = g
  merge_loop-IsGood min_segment (suc fuel) xs g =
      elim (Option-cases (find_tiny min_segment [] xs)) [
        | inl e ↦ rw (e, merge_loop) g
        | inr (f, e) ↦ elim (Bool-cases (length xs == 1)) [
          | inl one ↦ rw (e, one, merge_loop) g
          | inr more ↦ elim (Option-cases (merge_round f)) [
            | inl stop ↦ rw (e, more, stop, merge_loop) g
            | inr (ys, on) ↦
                let (b, t, a) = rw e at (find_tiny-IsGood min_segment [] xs tt g) in
                rw (e, more, on, merge_loop)
                  (merge_loop-IsGood min_segment fuel ys
                    (merge_round-IsGood f.before f.after ys f.tiny b t a on))
          ]
        ]
      ]
