-- ===== src/Fetch/Plan/Merge/Whole.antt =====
-- What `merge_tiny_segments` makes of assignments that follow one another.
use mathlib.Core.List.{append_assoc}
use spider_net.Prelude.{
  subst, All-append, ℕ, zero, suc, ◌+◌, ◌≤◌, ◌<◌, ◌≡◌, refl, sym, ap, ◌∙◌, ◌⊎◌, inl, inr, List, [],
  ◌∷◌, ◌++◌, ◌==◌, true, false, ltb, length, length-append, Option, none, some, Option-cases,
  Bool-cases, arith, All,
}
use spider_net.Fetch.Types.{try_new_range, len}
use spider_net.Fetch.Plan.Merge.{
  Assignment, Found, find_tiny, merge_into_last, merge_round, merge_loop, merge_tiny_segments,
}
use spider_net.Fetch.Plan.Merge.Covering.{Covers, Covers-append, Covers-parts}

-- A merge makes one list of another that is one longer, over the same bytes and exits.
record Merges (a b n : ℕ) (P : ℕ → Type 0) (result : Option (List Assignment)) : Type 0 where
  merged : List Assignment
  returns : result ≡ some merged
  covers : Covers a merged b
  counted : length merged ≡ n
  exits : All (λ x. P x.exit) merged

module _ (P : ℕ → Type 0) where
  merge_into_last-Merges :
      (a m : ℕ) (before : List Assignment) (tiny : Assignment)
      → 0 < length before
      → Covers a before m
      → (tiny.range.start ≡ m)
      → m ≤ tiny.range.end_inclusive
      → All (λ x. P x.exit) before
      → Merges a (tiny.range.end_inclusive + 1) (length before) P (merge_into_last before tiny)
  unfolding merge_into_last try_new_range
  merge_into_last-Merges a m [] tiny n c s t p = elim n [ ]
  merge_into_last-Merges a m (prev ∷ []) tiny n c s t p = record {
    merged =
        record {
          range = record { start = prev.range.start; end_inclusive = tiny.range.end_inclusive };
          exit = prev.exit;
        }
        ∷ [];
    returns = ground arith;
    covers = (c.0, omega arith, refl);
    counted = refl;
    exits = p;
  }
  merge_into_last-Merges a m (x ∷ y ∷ more) tiny n c s t p =
      let rest =
        merge_into_last-Merges (x.range.end_inclusive + 1) m (y ∷ more) tiny (omega arith) c.2 s t
          p.1 in
      record {
        merged = x ∷ rest.merged;
        returns = rw rest.returns;
        covers = (c.0, c.1, rest.covers);
        counted = ap suc rest.counted;
        exits = (p.0, rest.exits);
      }

  All-parts :
      (xs ys : List Assignment)
      → All (λ x. P x.exit) (xs ++ ys)
      → All (λ x. P x.exit) xs × All (λ x. P x.exit) ys
  All-parts [] ys p = (tt, p)
  All-parts (x ∷ xs) ys p = let (q, r) = All-parts xs ys p.1 in ((p.0, q), r)

  merge_round-Merges :
      (a b : ℕ) (before after : List Assignment) (tiny : Assignment)
      → 0 < length before + length after
      → Covers a (before ++ tiny ∷ after) b
      → All (λ x. P x.exit) (before ++ tiny ∷ after)
      → Merges a b
          (length before + length after)
          P
          (merge_round (record { before = before; tiny = tiny; after = after }))
  unfolding merge_round try_new_range
  merge_round-Merges a b before (next ∷ rest) tiny n c p =
      let (m, front, t) = Covers-parts a b before (tiny ∷ next ∷ rest) c in
      let (pf, pt) = All-parts before (tiny ∷ next ∷ rest) p in
      let joined : Assignment = record {
        range = record { start = tiny.range.start; end_inclusive = next.range.end_inclusive };
        exit = next.exit;
      } in
      record {
        merged = before ++ joined ∷ rest;
        returns = ground arith;
        covers = Covers-append a m b before (joined ∷ rest) front (t.0, omega arith, t.2.2);
        counted = length-append before (joined ∷ rest);
        exits = All-append (λ x. P x.exit) before (joined ∷ rest) pf (pt.1.0, pt.1.1);
      }
  merge_round-Merges a b before [] tiny n c p =
      let (m, front, t) = Covers-parts a b before (tiny ∷ []) c in
      let (pf, _) = All-parts before (tiny ∷ []) p in
      let r = merge_into_last-Merges a m before tiny (omega arith) front t.0 t.1 pf in
      record {
        merged = r.merged;
        returns = r.returns;
        covers = subst (Covers a r.merged) t.2 r.covers;
        counted = omega (arith, r.counted);
        exits = r.exits;
      }

  -- What the merging leaves: the same bytes, exits of the input only, and no tiny segment beside
  -- another segment.
  pub record Settled (a b n min_segment : ℕ) (out : List Assignment) : Type 0 where
    pub covers : Covers a out b
    pub exits : All (λ x. P x.exit) out
    pub fewer : length out ≤ n
    pub big : (length out ≡ 1) ⊎ All (λ x. min_segment ≤ len x.range) out

  find_tiny-none :
      (min_segment : ℕ) (before rest : List Assignment)
      → find_tiny min_segment before rest ≡ none
      → All (λ x. min_segment ≤ len x.range) rest
  unfolding find_tiny
  find_tiny-none min_segment before [] h = tt
  find_tiny-none min_segment before (x ∷ rest) h =
      elim (Bool-cases (ltb (len x.range) min_segment)) [
        | inl t ↦ absurd (found t)
        | inr t ↦ (ground arith, find_tiny-none min_segment (before ++ x ∷ []) rest (rw t at h))
      ]
    where
      found : ltb (len x.range) min_segment ≡ true → ⊥
      found t = ground arith

  find_tiny-some :
      (min_segment : ℕ) (before rest : List Assignment) (f : Found)
      → find_tiny min_segment before rest ≡ some f
      → before ++ rest ≡ f.before ++ f.tiny ∷ f.after
  unfolding find_tiny
  find_tiny-some min_segment before [] f h = cc
  find_tiny-some min_segment before (x ∷ rest) f h =
      elim (Bool-cases (ltb (len x.range) min_segment)) [
        | inl t ↦ ground arith
        | inr t ↦
            sym (append_assoc before (x ∷ []) rest)
            ∙ find_tiny-some min_segment (before ++ x ∷ []) rest f (rw t at h)
      ]

  lone :
      (f : Found) (xs : List Assignment)
      → xs ≡ f.before ++ f.tiny ∷ f.after
      → (length xs ≡ 1) ⊎ (0 < length f.before + length f.after)
  lone f xs e =
      let n = length-append f.before (f.tiny ∷ f.after) in
      elim (Bool-cases (length f.before + length f.after == 0)) [
        | inl z ↦ inl (ap length e ∙ n ∙ ground arith)
        | inr z ↦ inr (ground arith)
      ]

  merge_loop-Settled :
      (a b min_segment fuel : ℕ) (xs : List Assignment)
      → length xs ≤ fuel
      → Covers a xs b
      → All (λ x. P x.exit) xs
      → Settled a b (length xs) min_segment (merge_loop min_segment fuel xs)
  unfolding merge_loop
  merge_loop-Settled a b min_segment zero [] n c p = record {
    covers = c;
    exits = p;
    fewer = omega arith;
    big = inr tt;
  }
  merge_loop-Settled a b min_segment zero (x ∷ xs) n c p = elim n [ ]
  merge_loop-Settled a b min_segment (suc fuel) xs n c p =
      elim (Option-cases (find_tiny min_segment [] xs)) [
        | inl e ↦
            rw (e, merge_loop)
              (record {
                covers = c;
                exits = p;
                fewer = omega arith;
                big = inr (find_tiny-none min_segment [] xs e);
              })
        | inr (f, e) ↦
            let parts = find_tiny-some min_segment [] xs f e in
            elim (lone f xs parts) [
              | inl single ↦
                  let stop : (length xs == 1) ≡ true = ground (arith, single) in
                  rw (e, stop, merge_loop)
                    (record { covers = c; exits = p; fewer = omega arith; big = inl single })
              | inr pos ↦
                  let r =
                    merge_round-Merges a b f.before f.after f.tiny pos
                      (subst (λ t. Covers a t b) parts c) (subst (All (λ x. P x.exit)) parts p) in
                  let more : (length xs == 1) ≡ false =
                    ground (arith, ap length parts, length-append f.before (f.tiny ∷ f.after)) in
                  let shorter : suc (length r.merged) ≡ length xs = omega (
                    arith,
                    r.counted,
                    ap length parts,
                    length-append f.before (f.tiny ∷ f.after),
                  ) in
                  let later =
                    merge_loop-Settled a b min_segment fuel r.merged (omega arith) r.covers
                      r.exits in
                  rw (e, more, r.returns, merge_loop)
                    (record {
                      covers = later.covers;
                      exits = later.exits;
                      fewer = omega (arith, later.fewer, shorter);
                      big = later.big;
                    })
            ]
      ]

-- On ranges that follow one another, and whatever their exits, merging ends: the same bytes are
-- covered, every exit is one of the input, and either one segment is left or none is below the
-- minimum size.
pub merge_tiny_segments-Settled :
    (P : ℕ → Type 0) (a b min_segment : ℕ) (xs : List Assignment)
    → Covers a xs b
    → All (λ x. P x.exit) xs
    → Settled P a b (length xs) min_segment (merge_tiny_segments xs min_segment)
unfolding merge_tiny_segments
merge_tiny_segments-Settled P a b min_segment xs c p =
    merge_loop-Settled P a b min_segment (length xs) xs (omega arith) c p
