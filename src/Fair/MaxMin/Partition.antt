-- ===== src/Fair/MaxMin/Partition.antt =====
-- `satisfied` and `remaining` part the active entries by whether the demand fits the share.
use spider_net.Prelude.{
  ℕ, ◌+◌, ◌≤◌, ◌<◌, ◌≡◌, refl, ◌⊎◌, inl, inr, List, [], ◌∷◌, arith, All, ◌∈◌, length, true, false,
  sum_of, Bool-cases, leb→le, leb→gt,
}
use spider_net.Fair.MaxMin.{Entry, share, fits, satisfied, remaining}
use spider_net.Fair.MaxMin.Entries.{Ordered, Ordered-mono, Ordered-Absent, Absent}

module _ (c w : ℕ) where
  pub fits-le : (e : Entry) → fits c w e ≡ true → e.demand ≤ share c w e
  unfolding fits
  fits-le e h = leb→le _ _ h

  pub fits-gt : (e : Entry) → fits c w e ≡ false → share c w e < e.demand
  unfolding fits
  fits-gt e h = leb→gt _ _ h

  pub All-satisfied {κ} :
      (P : Entry → Type κ) (es : List Entry) → All P es → All P (satisfied c w es)
  unfolding satisfied
  All-satisfied P [] h = tt
  All-satisfied P (e ∷ es) h = elim (Bool-cases (fits c w e)) [
    | inl t ↦ rw t (h.0, All-satisfied P es h.1)
    | inr t ↦ rw t (All-satisfied P es h.1)
  ]

  pub All-remaining {κ} :
      (P : Entry → Type κ) (es : List Entry) → All P es → All P (remaining c w es)
  unfolding remaining
  All-remaining P [] h = tt
  All-remaining P (e ∷ es) h = elim (Bool-cases (fits c w e)) [
    | inl t ↦ rw t (All-remaining P es h.1)
    | inr t ↦ rw t (h.0, All-remaining P es h.1)
  ]

  -- Every entry that is granted its demand fits its share.
  pub satisfied_fit : (es : List Entry) → All (λ e. e.demand ≤ share c w e) (satisfied c w es)
  unfolding satisfied
  satisfied_fit [] = tt
  satisfied_fit (e ∷ es) = ground (arith, satisfied_fit es, fits-le e)

  pub remaining_exceed : (es : List Entry) → All (λ e. share c w e < e.demand) (remaining c w es)
  unfolding remaining
  remaining_exceed [] = tt
  remaining_exceed (e ∷ es) = ground (arith, remaining_exceed es, fits-gt e)

  -- No entry is lost: a measure adds up over the two parts.
  pub sum_of-parts :
      (f : Entry → ℕ) (es : List Entry)
      → sum_of f es ≡ sum_of f (satisfied c w es) + sum_of f (remaining c w es)
  unfolding satisfied remaining
  sum_of-parts f [] = refl
  sum_of-parts f (e ∷ es) = ground (arith, sum_of-parts f es)

  pub length-parts :
      (es : List Entry) → length es ≡ length (satisfied c w es) + length (remaining c w es)
  unfolding satisfied remaining
  length-parts [] = refl
  length-parts (e ∷ es) = ground (arith, length-parts es)

  pub mem-parts :
      (es : List Entry) (e : Entry) → e ∈ es → (e ∈ satisfied c w es) ⊎ (e ∈ remaining c w es)
  unfolding satisfied remaining
  mem-parts [] e h = absurd h
  mem-parts (x ∷ es) e (inl h) = ground arith
  mem-parts (x ∷ es) e (inr h) = ground (arith, mem-parts es e h)

  pub Ordered-satisfied : (lo : ℕ) (es : List Entry) → Ordered lo es → Ordered lo (satisfied c w es)
  unfolding satisfied
  Ordered-satisfied lo [] o = tt
  Ordered-satisfied lo (e ∷ es) o =
      ground (arith, Ordered-satisfied e.id es o.1, Ordered-mono lo e.id (satisfied c w es))

  pub Ordered-remaining : (lo : ℕ) (es : List Entry) → Ordered lo es → Ordered lo (remaining c w es)
  unfolding remaining
  Ordered-remaining lo [] o = tt
  Ordered-remaining lo (e ∷ es) o =
      ground (arith, Ordered-remaining e.id es o.1, Ordered-mono lo e.id (remaining c w es))

  satisfied_above :
      (lo : ℕ) (es : List Entry) (e : Entry) → Ordered lo es → e ∈ satisfied c w es → lo < e.id
  unfolding satisfied
  satisfied_above lo [] e o h = absurd h
  satisfied_above lo (x ∷ es) e o h = ground (arith, satisfied_above x.id es e o.1)

  -- The two parts share no id.
  pub satisfied-Absent :
      (lo : ℕ) (es : List Entry) (e : Entry)
      → Ordered lo es
      → e ∈ satisfied c w es
      → Absent e.id (remaining c w es)
  unfolding satisfied remaining
  satisfied-Absent lo [] e o h = tt
  satisfied-Absent lo (x ∷ es) e o h = ground (
    arith,
    satisfied-Absent x.id es e o.1,
    satisfied_above x.id es e o.1,
    Ordered-Absent x.id x.id (remaining c w es) (Ordered-remaining x.id es o.1),
  )

  remaining_above :
      (lo : ℕ) (es : List Entry) (e : Entry) → Ordered lo es → e ∈ remaining c w es → lo < e.id
  unfolding remaining
  remaining_above lo [] e o h = absurd h
  remaining_above lo (x ∷ es) e o h = ground (arith, remaining_above x.id es e o.1)

  pub remaining-Absent :
      (lo : ℕ) (es : List Entry) (e : Entry)
      → Ordered lo es
      → e ∈ remaining c w es
      → Absent e.id (satisfied c w es)
  unfolding satisfied remaining
  remaining-Absent lo [] e o h = tt
  remaining-Absent lo (x ∷ es) e o h = ground (
    arith,
    remaining-Absent x.id es e o.1,
    remaining_above x.id es e o.1,
    Ordered-Absent x.id x.id (satisfied c w es) (Ordered-satisfied x.id es o.1),
  )

  -- Nobody is satisfied: every demand exceeds its share.
  pub none_satisfied :
      (es : List Entry) → length (satisfied c w es) ≡ 0 → All (λ e. share c w e < e.demand) es
  unfolding satisfied
  none_satisfied [] h = tt
  none_satisfied (e ∷ es) h = ground (arith, none_satisfied es, fits-gt e)
