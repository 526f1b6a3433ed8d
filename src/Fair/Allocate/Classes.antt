-- ===== src/Fair/Allocate/Classes.antt =====
-- The two lists of entries that `allocate` makes of the participants.
use spider_net.Prelude.{
  ℕ, ◌+◌, ◌*◌, ◌≤◌, ◌<◌, ◌≡◌, ◌≢◌, refl, inl, inr, List, [], ◌∷◌, arith, All, ◌∈◌, none, some,
  u16_mod, u32_mod, u64_mod, ◌==◌, ltb, Bool-cases,
}
use spider_net.Prelude.TreeMap.{lookup, insert, get_or_zero, get_or_zero-insert, Ascending}
use spider_net.Fair.Types.{Participation, contributing, leeching}
use spider_net.Fair.MaxMin.{Entry}
use spider_net.Fair.MaxMin.Entries.{
  IsEntry, Ordered, Ordered-mono, Ordered-Absent, Absent, weights, demands,
}
use spider_net.Fair.Allocate.{contributors, leeches}

-- A `NonZeroU16` id, and the `NonZeroU32` weight of a contributor.
abbrev pub IsClass : ℕ × Participation → Type 0
IsClass (id, contributing weight) = (id < u16_mod) × (0 < weight) × (weight < u32_mod)
IsClass (id, leeching) = id < u16_mod

module _ (demand_of : List (ℕ × ℕ)) where
  pub contributors-Ordered :
      (lo : ℕ) (classes : List (ℕ × Participation))
      → Ascending lo classes
      → Ordered lo (contributors classes demand_of)
  unfolding contributors
  contributors-Ordered lo [] a = tt
  contributors-Ordered lo ((id, contributing weight) ∷ classes) a =
      (a.0, contributors-Ordered id classes a.1)
  contributors-Ordered lo ((id, leeching) ∷ classes) a =
      Ordered-mono lo id _ (omega arith) (contributors-Ordered id classes a.1)

  pub leeches-Ordered :
      (lo : ℕ) (classes : List (ℕ × Participation))
      → Ascending lo classes
      → Ordered lo (leeches classes demand_of)
  unfolding leeches
  leeches-Ordered lo [] a = tt
  leeches-Ordered lo ((id, leeching) ∷ classes) a = (a.0, leeches-Ordered id classes a.1)
  leeches-Ordered lo ((id, contributing weight) ∷ classes) a =
      Ordered-mono lo id _ (omega arith) (leeches-Ordered id classes a.1)

  pub contributors-IsEntry :
      (classes : List (ℕ × Participation))
      → All IsClass classes
      → ((k : ℕ) → get_or_zero k demand_of < u64_mod)
      → All (λ e. IsEntry e × (e.id < u16_mod)) (contributors classes demand_of)
  unfolding contributors
  contributors-IsEntry [] v d = tt
  contributors-IsEntry ((id, contributing weight) ∷ classes) v d =
      (((v.0.1, v.0.2, d id), v.0.0), contributors-IsEntry classes v.1 d)
  contributors-IsEntry ((id, leeching) ∷ classes) v d = contributors-IsEntry classes v.1 d

  pub leeches-IsEntry :
      (classes : List (ℕ × Participation))
      → All IsClass classes
      → ((k : ℕ) → get_or_zero k demand_of < u64_mod)
      → All (λ e. IsEntry e × (e.id < u16_mod)) (leeches classes demand_of)
  unfolding leeches
  leeches-IsEntry [] v d = tt
  leeches-IsEntry ((id, contributing weight) ∷ classes) v d = leeches-IsEntry classes v.1 d
  leeches-IsEntry ((id, leeching) ∷ classes) v d =
      (((omega arith, omega arith, d id), v.0), leeches-IsEntry classes v.1 d)

  -- A contributor and a leech each stand in the list of their class.
  pub mem-contributors :
      (k weight : ℕ) (classes : List (ℕ × Participation))
      → lookup k classes ≡ some (contributing weight)
      → record { id = k; demand = get_or_zero k demand_of; weight = weight }
        ∈ contributors classes demand_of
  unfolding contributors lookup
  mem-contributors k weight [] h = cc
  mem-contributors k weight ((id, contributing w) ∷ classes) h =
      ground (arith, mem-contributors k weight classes)
  mem-contributors k weight ((id, leeching) ∷ classes) h =
      ground (arith, mem-contributors k weight classes)

  pub mem-leeches :
      (k : ℕ) (classes : List (ℕ × Participation))
      → lookup k classes ≡ some leeching
      → record { id = k; demand = get_or_zero k demand_of; weight = 1 } ∈ leeches classes demand_of
  unfolding leeches lookup
  mem-leeches k [] h = cc
  mem-leeches k ((id, contributing w) ∷ classes) h = ground (arith, mem-leeches k classes)
  mem-leeches k ((id, leeching) ∷ classes) h = ground (arith, mem-leeches k classes)

  -- Nobody stands in the list of the other class.
  pub contributors-Absent :
      (lo k : ℕ) (classes : List (ℕ × Participation))
      → Ascending lo classes
      → ((weight : ℕ) → lookup k classes ≢ some (contributing weight))
      → Absent k (contributors classes demand_of)
  unfolding contributors lookup
  contributors-Absent lo k [] a h = tt
  contributors-Absent lo k ((id, contributing w) ∷ classes) a h = elim (Bool-cases (ltb k id)) [
    | inl below ↦
        (ground arith, Ordered-Absent id k _ (contributors-Ordered id classes a.1) (ground arith))
    | inr above ↦ elim (Bool-cases (k == id)) [
      | inl same ↦ absurd (h w (rw (above, same)))
      | inr other ↦
          (ground arith, contributors-Absent id k classes a.1 (λ x. rw (above, other) at (h x)))
    ]
  ]
  contributors-Absent lo k ((id, leeching) ∷ classes) a h = elim (Bool-cases (ltb k id)) [
    | inl below ↦ Ordered-Absent id k _ (contributors-Ordered id classes a.1) (ground arith)
    | inr above ↦ elim (Bool-cases (k == id)) [
      | inl same ↦ Ordered-Absent id k _ (contributors-Ordered id classes a.1) (ground arith)
      | inr other ↦ contributors-Absent id k classes a.1 (λ x. rw (above, other) at (h x))
    ]
  ]

  pub leeches-Absent :
      (lo k : ℕ) (classes : List (ℕ × Participation))
      → Ascending lo classes
      → lookup k classes ≢ some leeching
      → Absent k (leeches classes demand_of)
  unfolding leeches lookup
  leeches-Absent lo k [] a h = tt
  leeches-Absent lo k ((id, leeching) ∷ classes) a h = ground (
    arith,
    leeches-Absent id k classes a.1,
    Ordered-Absent id k _ (leeches-Ordered id classes a.1),
  )
  leeches-Absent lo k ((id, contributing w) ∷ classes) a h = ground (
    arith,
    leeches-Absent id k classes a.1,
    Ordered-Absent id k _ (leeches-Ordered id classes a.1),
  )

-- Ids below 2 ^ 16 and weights below 2 ^ 32 keep the total weight of distinct ids far below 2 ^ 64.
pub weights_bounded :
    (lo : ℕ) (es : List Entry)
    → lo < u16_mod
    → Ordered lo es
    → All (λ e. IsEntry e × (e.id < u16_mod)) es
    → weights es + lo * u32_mod ≤ u16_mod * u32_mod
weights_bounded lo [] b o v = omega arith
weights_bounded lo (e ∷ es) b o v = omega (arith, weights_bounded e.id es v.0.1 o.1 v.1)

-- What the registered participants ask for in all.
abbrev pub asked : List (ℕ × Participation) → List (ℕ × ℕ) → ℕ
asked [] m = 0
asked ((id, c) ∷ classes) m = get_or_zero id m + asked classes m

pub asked-demands :
    (classes : List (ℕ × Participation)) (m : List (ℕ × ℕ))
    → asked classes m ≡ demands (contributors classes m) + demands (leeches classes m)
unfolding contributors leeches
asked-demands [] m = refl
asked-demands ((id, contributing w) ∷ classes) m = omega (arith, asked-demands classes m)
asked-demands ((id, leeching) ∷ classes) m = omega (arith, asked-demands classes m)

asked-insert_other :
    (lo k v : ℕ) (classes : List (ℕ × Participation)) (m : List (ℕ × ℕ))
    → Ascending lo classes
    → k ≤ lo
    → asked classes (insert k v m) ≡ asked classes m
asked-insert_other lo k v [] m a h = refl
asked-insert_other lo k v ((id, c) ∷ classes) m a h =
    ground (arith, asked-insert_other id k v classes m a.1, get_or_zero-insert k id v m)

-- A new demand of a registered participant adds to what is asked for.
pub asked-insert :
    (lo k v : ℕ) (classes : List (ℕ × Participation)) (m : List (ℕ × ℕ))
    → Ascending lo classes
    → lookup k classes ≢ none
    → get_or_zero k m ≡ 0
    → asked classes (insert k v m) ≡ asked classes m + v
unfolding lookup
asked-insert lo k v [] m a h z = absurd (h refl)
asked-insert lo k v ((id, c) ∷ classes) m a h z = ground (
  arith,
  asked-insert id k v classes m a.1,
  asked-insert_other id k v classes m a.1,
  get_or_zero-insert k id v m,
)
