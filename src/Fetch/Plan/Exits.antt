-- ===== src/Fetch/Plan/Exits.antt =====
-- The choice of the exits in `FetchPlan::build` of server/crates/sn-fetch/src/plan.rs.
pub mod Weakest
use spider_net.Prelude.{
  ℕ, zero, suc, ◌+◌, ◌*◌, ◌/◌, ◌≤◌, ◌<◌, ◌≡◌, refl, Bool, ◌&&◌, ◌||◌, List, [], ◌∷◌, if◌then◌else◌,
  ◌==◌, true, ltb, leb, length, arith, u64_mod, ◌∈◌, inl, inr, Bool-cases, All, ◌⊎◌,
}
use spider_net.Fetch.Types.{ExitSpec}

module _ {U : Type 0} where
  -- `min_by_key` by weight, ties by the higher id; the first of equals.
  unfoldable pub weaker : ExitSpec U → ExitSpec U → Bool
  weaker a b = ltb a.weight b.weight || a.weight == b.weight && ltb b.id a.id

  unfoldable pub weakest : ExitSpec U → List (ExitSpec U) → ExitSpec U
  weakest best [] = best
  weakest best (e ∷ es) = weakest (if weaker e best then e else best) es

  unfoldable pub same_rank : ExitSpec U → ExitSpec U → Bool
  same_rank a b = a.weight == b.weight && a.id == b.id

  -- `exits.remove(weakest)`: the position is that of the first exit with the least key.
  unfoldable pub remove_first : ExitSpec U → List (ExitSpec U) → List (ExitSpec U)
  remove_first w [] = []
  remove_first w (e ∷ es) = if same_rank e w then es else e ∷ remove_first w es

  unfoldable pub drop_weakest : ℕ → ℕ → ℕ → List (ExitSpec U) → List (ExitSpec U)
  drop_weakest size min_segment zero exits = exits
  drop_weakest size min_segment (suc fuel) [] = []
  drop_weakest size min_segment (suc fuel) (e ∷ es) =
      let exits = e ∷ es in
      let fewer = drop_weakest size min_segment fuel (remove_first (weakest e es) exits) in
      if ltb 1 (length exits) && ltb size (length exits * min_segment) then fewer else exits

  -- `sort_by_key(|(id, _, _)| *id)`, which is stable.
  unfoldable pub insert_exit : ExitSpec U → List (ExitSpec U) → List (ExitSpec U)
  insert_exit e [] = e ∷ []
  insert_exit e (x ∷ xs) = if ltb e.id x.id then e ∷ x ∷ xs else x ∷ insert_exit e xs

  unfoldable pub sort_exits : List (ExitSpec U) → List (ExitSpec U) → List (ExitSpec U)
  sort_exits sorted [] = sorted
  sort_exits sorted (e ∷ es) = sort_exits (insert_exit e sorted) es

-- The segments per exit: one if an even share would put segments below the minimum.
unfoldable pub effective_segments : ℕ → ℕ → ℕ → ℕ → ℕ
effective_segments size exits min_segment segments_per_exit =
    let quotient = size / (exits * min_segment) in
    let limit = if ltb quotient u64_mod then quotient else 0 in
    if leb segments_per_exit limit then segments_per_exit else 1

module _ {U : Type 0} where
  pub weakest-mem :
      (best : ExitSpec U) (es : List (ExitSpec U))
      → (weakest best es ≡ best) ⊎ (weakest best es ∈ es)
  unfolding weakest
  weakest-mem best [] = inl refl
  weakest-mem best (e ∷ es) = ground (arith, weakest-mem (if weaker e best then e else best) es)

  pub same_rank_self : (e : ExitSpec U) → same_rank e e ≡ true
  unfolding same_rank
  same_rank_self e = ground arith

  length-remove_first :
      (w : ExitSpec U) (es : List (ExitSpec U))
      → w ∈ es
      → suc (length (remove_first w es)) ≡ length es
  unfolding remove_first
  length-remove_first w [] m = absurd m
  length-remove_first w (e ∷ es) (inl h) = ground (arith, h, same_rank_self w, same_rank_self e)
  length-remove_first w (e ∷ es) (inr h) = ground (arith, length-remove_first w es h)

  pub All-remove_first :
      (P : ExitSpec U → Type 0) (w : ExitSpec U) (es : List (ExitSpec U))
      → All P es
      → All P (remove_first w es)
  unfolding remove_first
  All-remove_first P w [] h = tt
  All-remove_first P w (e ∷ es) h = ground (arith, All-remove_first P w es h.1)

  pub one_fewer :
      (e : ExitSpec U) (es : List (ExitSpec U))
      → suc (length (remove_first (weakest e es) (e ∷ es))) ≡ length (e ∷ es)
  one_fewer e es = length-remove_first (weakest e es) (e ∷ es) (ground (arith, weakest-mem e es))

  -- What is left of the exits: some of them, and one only or enough bytes for a minimum segment
  -- each.
  pub record Kept (P : ExitSpec U → Type 0) (size min_segment : ℕ) (out : List (ExitSpec U))
      : Type 0 where
    pub some_left : 0 < length out
    pub from : All P out
    pub roomy : (length out ≡ 1) ⊎ (length out * min_segment ≤ size)

  pub drop_weakest-Kept :
      (P : ExitSpec U → Type 0) (size min_segment fuel : ℕ) (es : List (ExitSpec U))
      → 0 < length es
      → length es ≤ fuel
      → All P es
      → Kept P size min_segment (drop_weakest size min_segment fuel es)
  unfolding drop_weakest
  drop_weakest-Kept P size min_segment zero es pos n h = absurd (omega arith)
  drop_weakest-Kept P size min_segment (suc fuel) [] pos n h = elim pos [ ]
  drop_weakest-Kept P size min_segment (suc fuel) (e ∷ es) pos n h =
      elim (Bool-cases (ltb 1 (length (e ∷ es)) && ltb size (length (e ∷ es) * min_segment))) [
        | inl t ↦
            let fewer = one_fewer e es in
            rw t (
              drop_weakest-Kept P size min_segment fuel (remove_first (weakest e es) (e ∷ es))
                (ground (arith, fewer)) (omega (arith, fewer)) (All-remove_first P _ (e ∷ es) h))
        | inr t ↦ rw t (record { some_left = pos; from = h; roomy = ground arith })
      ]

  length-insert_exit :
      (e : ExitSpec U) (es : List (ExitSpec U)) → length (insert_exit e es) ≡ suc (length es)
  unfolding insert_exit
  length-insert_exit e [] = refl
  length-insert_exit e (x ∷ es) = ground (arith, length-insert_exit e es)

  pub length-sort_exits :
      (sorted es : List (ExitSpec U)) → length (sort_exits sorted es) ≡ length sorted + length es
  unfolding sort_exits
  length-sort_exits sorted [] = omega arith
  length-sort_exits sorted (e ∷ es) =
      omega (arith, length-sort_exits (insert_exit e sorted) es, length-insert_exit e sorted)

  All-insert_exit :
      (P : ExitSpec U → Type 0) (e : ExitSpec U) (es : List (ExitSpec U))
      → P e
      → All P es
      → All P (insert_exit e es)
  unfolding insert_exit
  All-insert_exit P e [] p h = (p, tt)
  All-insert_exit P e (x ∷ es) p h = ground (arith, All-insert_exit P e es p h.1)

  pub All-sort_exits :
      (P : ExitSpec U → Type 0) (sorted es : List (ExitSpec U))
      → All P sorted
      → All P es
      → All P (sort_exits sorted es)
  unfolding sort_exits
  All-sort_exits P sorted [] s h = s
  All-sort_exits P sorted (e ∷ es) s h =
      All-sort_exits P (insert_exit e sorted) es (All-insert_exit P e sorted h.0 s) h.1

  -- The exits that `build` uses.
  unfoldable pub used_exits : ℕ → ℕ → List (ExitSpec U) → List (ExitSpec U)
  used_exits size min_segment exits =
      sort_exits [] (drop_weakest size min_segment (length exits) exits)

  -- From at least one exit, the loop that drops the weakest ends with some of the exits: with one
  -- exit, or with few enough that the file has a minimum segment for each.
  pub used_exits-Kept :
      (P : ExitSpec U → Type 0) (size min_segment : ℕ) (es : List (ExitSpec U))
      → 0 < length es
      → All P es
      → Kept P size min_segment (used_exits size min_segment es)
  unfolding used_exits
  used_exits-Kept P size min_segment es pos h =
      let k = drop_weakest-Kept P size min_segment (length es) es pos (omega arith) h in
      let dropped = drop_weakest size min_segment (length es) es in
      let same = length-sort_exits [] dropped in
      record {
        some_left = omega (arith, same, k.some_left);
        from = All-sort_exits P [] dropped tt k.from;
        roomy = ground (arith, k.roomy, same);
      }
