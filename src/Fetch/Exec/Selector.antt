-- ===== src/Fetch/Exec/Selector.antt =====
-- `ExitSelector` of server/crates/sn-fetch/src/exec.rs. An `Instant` is a number that grows with
-- time.
use spider_net.Prelude.{
  ℕ, suc, ◌≤◌, ◌<◌, ◌≡◌, ◌≢◌, refl, ◌⊎◌, inl, inr, Bool, true, false, List, [], ◌∷◌, arith, All,
  ◌∈◌, Option, none, some, if◌then◌else◌, ◌==◌, ltb, Bool-cases,
}
use spider_net.Prelude.TreeMap.{lookup, insert}

-- The ids of the registry in ascending order, and when each exit failed last.
pub record ExitSelector : Type 0 where
  pub ids : List ℕ
  pub last_failed : List (ℕ × ℕ)

-- `ExitSelector::mark_failed` at the instant `now`.
unfoldable pub mark_failed : ExitSelector → ℕ → ℕ → ExitSelector
mark_failed s id now = record s { last_failed = insert id now s.last_failed }

-- `prefer_id`, by when the current best and the candidate failed.
unfoldable pub prefer : Option ℕ → Option ℕ → Bool
prefer none id_failed = false
prefer (some current_failed) none = true
prefer (some current_failed) (some id_failed) = ltb id_failed current_failed

unfoldable pub better : List (ℕ × ℕ) → Option ℕ → ℕ → ℕ
better failed none id = id
better failed (some current) id =
    if prefer (lookup current failed) (lookup id failed) then id else current

-- The loop over the ids.
unfoldable pub best_of : List (ℕ × ℕ) → ℕ → List ℕ → Option ℕ → Option ℕ
best_of failed avoid [] best = best
best_of failed avoid (id ∷ ids) best =
    best_of failed avoid ids (if id == avoid then best else some (better failed best id))

unfoldable pub or_avoid : ℕ → Option ℕ → ℕ
or_avoid avoid none = avoid
or_avoid avoid (some id) = id

-- `ExitSelector::pick_retry`.
unfoldable pub pick_retry : ExitSelector → ℕ → ℕ
pick_retry s avoid = or_avoid avoid (best_of s.last_failed avoid s.ids none)

-- How recently an exit failed: 0 if it never did.
unfoldable pub recency : List (ℕ × ℕ) → ℕ → ℕ
recency failed id = elim (lookup id failed) [ none ↦ 0 | some t ↦ suc t ]

-- Ids ascend strictly from `lo`.
abbrev pub Rising : ℕ → List ℕ → Type 0
Rising lo [] = Unit {0}
Rising lo (id ∷ ids) = (lo ≤ id) × Rising (suc id) ids

-- `a` is as good as `b`: it failed less recently, or as recently and has no higher id.
abbrev pub NoWorse : List (ℕ × ℕ) → ℕ → ℕ → Type 0
NoWorse failed a b =
    (recency failed a < recency failed b) ⊎ ((recency failed a ≡ recency failed b) × (a ≤ b))

better-NoWorse :
    (failed : List (ℕ × ℕ)) (current id : ℕ)
    → current < id
    → NoWorse failed (better failed (some current) id) current
      × NoWorse failed (better failed (some current) id) id
      × ((better failed (some current) id ≡ current) ⊎ (better failed (some current) id ≡ id))
unfolding better prefer recency
better-NoWorse failed current id h = ground arith

module _ (failed : List (ℕ × ℕ)) (avoid : ℕ) where
  -- The best of the ids that are not avoided, from a current best below all of them.
  best_of-NoWorse :
      (ids : List ℕ) (current lo : ℕ)
      → Rising lo ids
      → current < lo
      → (r : ℕ) × (best_of failed avoid ids (some current) ≡ some r)
        × NoWorse failed r current
        × All (λ id. (id ≡ avoid) ⊎ NoWorse failed r id) ids
        × ((r ≡ current) ⊎ ((r ∈ ids) × (r ≢ avoid)))
  unfolding best_of
  best_of-NoWorse [] current lo o h = (current, refl, inr (refl, omega arith), tt, inl refl)
  best_of-NoWorse (id ∷ ids) current lo o h = elim (Bool-cases (id == avoid)) [
    | inl same ↦
        let (r, e, w, all, from) = best_of-NoWorse ids current (suc id) o.1 (omega arith) in
        (r, rw same e, w, (inl (ground arith), all), ground (arith, from))
    | inr other ↦
        let next = better failed (some current) id in
        let (wc, wi, choice) = better-NoWorse failed current id (omega arith) in
        let (r, e, w, all, from) = best_of-NoWorse ids next (suc id) o.1 (ground arith) in
        (
          r,
          rw other e,
          ground (arith, w, wc),
          (inr (ground (arith, w, wi)), all),
          ground (arith, from, choice),
        )
  ]

  best_of-none :
      (ids : List ℕ) (lo : ℕ)
      → Rising lo ids
      → ((best_of failed avoid ids none ≡ none) × All (λ id. id ≡ avoid) ids)
        ⊎ ((r : ℕ) × (best_of failed avoid ids none ≡ some r)
            × (r ∈ ids)
            × (r ≢ avoid)
            × All (λ id. (id ≡ avoid) ⊎ NoWorse failed r id) ids)
  unfolding best_of better
  best_of-none [] lo o = inl (refl, tt)
  best_of-none (id ∷ ids) lo o = elim (Bool-cases (id == avoid)) [
    | inl same ↦ rw same (elim (best_of-none ids (suc id) o.1) [
      | inl (e, all) ↦ inl (e, (ground arith, all))
      | inr (r, e, m, d, all) ↦ inr (r, e, inr m, d, (inl (ground arith), all))
    ])
    | inr other ↦
        let (r, e, w, all, from) = best_of-NoWorse ids id (suc id) o.1 (omega arith) in
        inr (r, rw other e, ground (arith, from), ground (arith, from, other), (inr w, all))
  ]

-- A retry goes to an exit of the registry other than the one to avoid, and there is none that failed
-- less recently, or as recently with a lower id; only if there is no other exit at all does it go to
-- the same exit again.
pub pick_retry-NoWorse :
    (s : ExitSelector) (avoid lo : ℕ)
    → Rising lo s.ids
    → ((pick_retry s avoid ≡ avoid) × All (λ id. id ≡ avoid) s.ids)
      ⊎ ((pick_retry s avoid ∈ s.ids)
          × (pick_retry s avoid ≢ avoid)
          × All (λ id. (id ≡ avoid) ⊎ NoWorse s.last_failed (pick_retry s avoid) id) s.ids)
unfolding pick_retry or_avoid
pick_retry-NoWorse s avoid lo o = elim (best_of-none s.last_failed avoid s.ids lo o) [
  | inl (e, all) ↦ inl (rw e refl, all)
  | inr (r, e, m, d, all) ↦ inr (rw e m, rw e d, rw e all)
]
