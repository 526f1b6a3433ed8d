-- ===== src/Fetch/Plan/Exits/Weakest.antt =====
-- Which exits `FetchPlan::build` of server/crates/sn-fetch/src/plan.rs drops, and what it keeps.
use mathlib.Core.List.{Perm, perm_middle, append-nil}
use mathlib.Core.List.Perm
use spider_net.Prelude.{
  ℕ, zero, suc, ◌+◌, ◌*◌, ◌≤◌, ◌<◌, ◌≡◌, refl, sym, ap, ◌∙◌, subst, if◌then◌else◌, ◌⊎◌, inl, inr,
  true, List, [], ◌∷◌, ◌++◌, ltb, length, ◌&&◌, ◌∈◌, Bool-cases, All, arith,
}
use spider_net.Fetch.Types.{ExitSpec}
use spider_net.Fetch.Plan.Exits.{
  weaker, weakest, weakest-mem, same_rank, same_rank_self, remove_first, All-remove_first,
  one_fewer, drop_weakest, drop_weakest-Kept, insert_exit, sort_exits, length-sort_exits,
  All-sort_exits, used_exits,
}

-- When no more is dropped, the file had no minimum segment for each of one exit more.
last_dropped :
    (size min_segment n fewer dropped kept : ℕ)
    → (ltb 1 n && ltb size (n * min_segment)) ≡ true
    → suc fewer ≡ n
    → fewer ≡ dropped + kept
    → dropped ≡ 0
    → size < (kept + 1) * min_segment
last_dropped size min_segment n fewer dropped kept t less counted none =
    let same : n ≡ kept + 1 = omega (arith, less, counted, none) in
    let big : size < n * min_segment = ground (arith, t) in
    subst (λ m. size < m * min_segment) same big

module _ {U : Type 0} where
  -- An exit goes before another one: it weighs less, or the same and its id is not lower.
  abbrev pub GoesBefore : ExitSpec U → ExitSpec U → Type 0
  GoesBefore d k = (d.weight < k.weight) ⊎ ((d.weight ≡ k.weight) × (k.id ≤ d.id))

  -- No id is above the next one.
  abbrev pub IsById : List (ExitSpec U) → Type 0
  IsById [] = Unit
  IsById (e ∷ []) = Unit
  IsById (e ∷ x ∷ es) = (e.id ≤ x.id) × IsById (x ∷ es)

  -- The exits are parted into those that are dropped and those that are kept, some of them. Each dropped one goes before
  -- each kept one. With one exit more, the file would have no minimum segment for each, if one was dropped; for the
  -- kept ones it has, or there is one only.
  pub record Parted (size min_segment : ℕ) (exits kept : List (ExitSpec U)) : Type 0 where
    pub dropped : List (ExitSpec U)
    pub parts : Perm exits (dropped ++ kept)
    pub counted : length exits ≡ length dropped + length kept
    pub lowest : All (λ d. All (GoesBefore d) kept) dropped
    pub some_left : 0 < length kept
    pub roomy : (length kept ≡ 1) ⊎ (length kept * min_segment ≤ size)
    pub tight : (dropped ≡ []) ⊎ (size < (length kept + 1) * min_segment)

  same_rank-GoesBefore :
      (d w k : ExitSpec U) → same_rank d w ≡ true → GoesBefore w k → GoesBefore d k
  unfolding same_rank
  same_rank-GoesBefore d w k same before = ground (arith, same, before)

  GoesBefore-trans : (a b c : ExitSpec U) → GoesBefore a b → GoesBefore b c → GoesBefore a c
  GoesBefore-trans a b c p q = ground (arith, p, q)

  chosen-GoesBefore :
      (best e : ExitSpec U)
      → GoesBefore (if weaker e best then e else best) best
        × GoesBefore (if weaker e best then e else best) e
  unfolding weaker
  chosen-GoesBefore best e = ground arith

  weakest-All :
      (best : ExitSpec U) (es : List (ExitSpec U)) → All (GoesBefore (weakest best es)) (best ∷ es)
  unfolding weakest
  weakest-All best [] = (inr (refl, omega arith), tt)
  weakest-All best (e ∷ es) =
      let next = if weaker e best then e else best in
      let all = weakest-All next es in
      let (over, at) = chosen-GoesBefore best e in
      (
        GoesBefore-trans (weakest next es) next best all.0 over,
        (GoesBefore-trans (weakest next es) next e all.0 at, all.1),
      )

  -- What is removed has the least rank.
  remove_first-perm :
      (w : ExitSpec U) (es : List (ExitSpec U))
      → w ∈ es
      → (d : ExitSpec U) × (same_rank d w ≡ true) × Perm es (d ∷ remove_first w es)
  unfolding remove_first
  remove_first-perm w [] m = absurd m
  remove_first-perm w (e ∷ es) m = elim (Bool-cases (same_rank e w)) [
    | inl t ↦ (e, t, rw t (Perm.refl (e ∷ es)))
    | inr t ↦
        let later : w ∈ es = elim m [
          | inl same ↦ absurd (ground (arith, rw same at t, same_rank_self w))
          | inr later ↦ later
        ] in
        let (d, same, p) = remove_first-perm w es later in
        (d, same, rw t (Perm.trans (Perm.cons e p) (Perm.swap d e (remove_first w es))))
  ]

  map-All :
      (P Q : ExitSpec U → Type 0) (es : List (ExitSpec U))
      → ((x : ExitSpec U) → P x → Q x)
      → All P es
      → All Q es
  map-All P Q [] f h = tt
  map-All P Q (e ∷ es) f h = (f e h.0, map-All P Q es f h.1)

  drop_weakest-Parted :
      (size min_segment fuel : ℕ) (es : List (ExitSpec U))
      → 0 < length es
      → length es ≤ fuel
      → Parted size min_segment es (drop_weakest size min_segment fuel es)
  unfolding drop_weakest
  drop_weakest-Parted size min_segment zero es pos n = absurd (omega arith)
  drop_weakest-Parted size min_segment (suc fuel) [] pos n = elim pos [ ]
  drop_weakest-Parted size min_segment (suc fuel) (e ∷ es) pos n =
      elim (Bool-cases (ltb 1 (length (e ∷ es)) && ltb size (length (e ∷ es) * min_segment))) [
        | inl t ↦
            let less = one_fewer e es in
            let w = weakest e es in
            let (d, same, p) = remove_first-perm w (e ∷ es) (ground (arith, weakest-mem e es)) in
            let fewer = remove_first w (e ∷ es) in
            let rest : Parted size min_segment fewer (drop_weakest size min_segment fuel fewer) =
              drop_weakest-Parted size min_segment fuel fewer (ground (arith, less))
                (omega (arith, less)) in
            let before =
              map-All (GoesBefore w) (GoesBefore d) (e ∷ es) (λ k. same_rank-GoesBefore d w k same)
                (weakest-All e es) in
            let kept =
              drop_weakest-Kept (GoesBefore d) size min_segment fuel fewer (ground (arith, less))
                (omega (arith, less)) (All-remove_first (GoesBefore d) w (e ∷ es) before) in
            rw t (record {
              dropped = d ∷ rest.dropped;
              parts = Perm.trans p (Perm.cons d rest.parts);
              lowest = (kept.from, rest.lowest);
              some_left = rest.some_left;
              roomy = rest.roomy;
              counted = omega (arith, less, rest.counted);
              tight = inr (elim rest.tight [
                | inl none ↦
                    last_dropped size min_segment _ _ _ _ t less rest.counted (ap length none)
                | inr more ↦ more
              ]);
            })
        | inr t ↦ rw t (record {
          dropped = [];
          parts = Perm.refl (e ∷ es);
          lowest = tt;
          some_left = pos;
          roomy = ground arith;
          counted = omega arith;
          tight = inl refl;
        })
      ]

  insert_exit-perm : (e : ExitSpec U) (es : List (ExitSpec U)) → Perm (insert_exit e es) (e ∷ es)
  unfolding insert_exit
  insert_exit-perm e [] = Perm.refl (e ∷ [])
  insert_exit-perm e (x ∷ es) = elim (Bool-cases (ltb e.id x.id)) [
    | inl t ↦ rw t (Perm.refl (e ∷ x ∷ es))
    | inr t ↦ rw t (Perm.trans (Perm.cons x (insert_exit-perm e es)) (Perm.swap e x es))
  ]

  insert_exit-IsById :
      (e : ExitSpec U) (es : List (ExitSpec U)) → IsById es → IsById (insert_exit e es)
  unfolding insert_exit
  insert_exit-IsById e [] h = tt
  insert_exit-IsById e (x ∷ []) h = ground arith
  insert_exit-IsById e (x ∷ y ∷ es) h = ground (arith, insert_exit-IsById e (y ∷ es) h.1)

  sort_exits-IsById :
      (sorted es : List (ExitSpec U)) → IsById sorted → IsById (sort_exits sorted es)
  unfolding sort_exits
  sort_exits-IsById sorted [] h = h
  sort_exits-IsById sorted (e ∷ es) h =
      sort_exits-IsById (insert_exit e sorted) es (insert_exit-IsById e sorted h)

  sort_exits-perm : (sorted es : List (ExitSpec U)) → Perm (sorted ++ es) (sort_exits sorted es)
  unfolding sort_exits
  sort_exits-perm sorted [] =
      subst (λ l. Perm l sorted) (sym (append-nil sorted)) (Perm.refl sorted)
  sort_exits-perm sorted (e ∷ es) = Perm.trans (perm_middle sorted es) (
      Perm.trans (Perm.append_right es (Perm.symm (insert_exit-perm e sorted)))
        (sort_exits-perm (insert_exit e sorted) es))

  -- From at least one exit, the loop drops the weakest, those of the least weight and among them those of the
  -- highest id, just until the file has a minimum segment for each exit that is left or one is left, and
  -- the exits that are left are in the order of their ids.
  pub used_exits-Parted :
      (size min_segment : ℕ) (exits : List (ExitSpec U))
      → 0 < length exits
      → Parted size min_segment exits (used_exits size min_segment exits)
        × IsById (used_exits size min_segment exits)
  unfolding used_exits
  used_exits-Parted size min_segment exits pos =
      let kept = drop_weakest size min_segment (length exits) exits in
      let p : Parted size min_segment exits kept =
        drop_weakest-Parted size min_segment (length exits) exits pos (omega arith) in
      let sorted = sort_exits [] kept in
      let same : length sorted ≡ length kept = omega (arith, length-sort_exits [] kept) in
      (
        record {
          dropped = p.dropped;
          parts = Perm.trans p.parts (Perm.append_left p.dropped (sort_exits-perm [] kept));
          counted = p.counted ∙ ap (λ n. length p.dropped + n) (sym same);
          lowest =
              map-All (λ d. All (GoesBefore d) kept) (λ d. All (GoesBefore d) sorted) p.dropped
                (λ d h. All-sort_exits (GoesBefore d) [] kept tt h) p.lowest;
          some_left = omega (arith, same, p.some_left);
          roomy = rw same p.roomy;
          tight = rw same p.tight;
        },
        sort_exits-IsById [] kept tt,
      )
