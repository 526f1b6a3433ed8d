-- ===== src/Fetch/Plan/Build/Shares.antt =====
-- The weighted split of a file, where every exit gets at least a byte for each of its segments.
use spider_net.Prelude.{
  ok, ℕ, suc, ◌+◌, ◌-◌, ◌*◌, ◌/◌, ◌≤◌, ◌<◌, ◌≡◌, refl, ap, ◌∙◌, List, [], ◌∷◌, arith, All,
  All-append, length, length-append, u64_mod, u128_mod, wrap128, wrap128-eq_of_lt, ◌==◌, leb, true,
  false, subst, sum_of,
}
use spider_net.Fetch.Types.{ByteRange, ExitSpec, Tiles}
use spider_net.Fetch.Plan.Split.{even_subsplit, even_subsplit_even}
use spider_net.Fetch.Plan.Merge.Covering.{Covers, Covers-append}
use spider_net.Fetch.Plan.Build.{Cut, assign, cut_for, cut_loop, units, end_exclusive}

assign-Covers : (exit a b : ℕ) (rs : List ByteRange) → Tiles a rs b → Covers a (assign exit rs) b
unfolding assign
assign-Covers exit a b [] t = t
assign-Covers exit a b (r ∷ rs) t = (t.0, t.1, assign-Covers exit (r.end_inclusive + 1) b rs t.2)

assign-exit :
    (P : ℕ → Type 0) (exit : ℕ) (rs : List ByteRange)
    → P exit
    → All (λ x. P x.exit) (assign exit rs)
unfolding assign
assign-exit P exit [] p = tt
assign-exit P exit (r ∷ rs) p = (p, assign-exit P exit rs p)

length-assign : (exit : ℕ) (rs : List ByteRange) → length (assign exit rs) ≡ length rs
unfolding assign
length-assign exit [] = refl
length-assign exit (r ∷ rs) = ap suc (length-assign exit rs)

-- The assignments cover the file up to `start`, with `n` segments on exits that satisfy `P`.
pub record IsCut (P : ℕ → Type 0) (n start : ℕ) (c : Cut) : Type 0 where
  pub at : c.start ≡ start
  pub covers : Covers 0 c.assignments start
  pub counted : length c.assignments ≡ n
  pub exits : All (λ x. P x.exit) c.assignments

cut_for-IsCut :
    (P : ℕ → Type 0) (n start exit exit_end spe : ℕ) (c : Cut)
    → IsCut P n start c
    → P exit
    → 0 < spe
    → start + spe ≤ exit_end
    → exit_end < u64_mod
    → IsCut P (n + spe) exit_end (cut_for exit exit_end spe c)
unfolding cut_for
cut_for-IsCut P n start exit exit_end spe c k p pos room fits =
    let last = exit_end - 1 in
    let (tiled, count, _) =
      even_subsplit_even start last spe (omega arith) (omega arith) pos (omega arith) in
    let whole : exit_end - 1 + 1 ≡ exit_end = omega arith in
    let some_bytes : leb start (exit_end - 1) ≡ true = ground arith in
    let fresh = assign exit (even_subsplit start last spe) in
    rw (k.at, some_bytes)
      (record {
        at = refl;
        covers =
            Covers-append 0 start exit_end c.assignments fresh k.covers
              (subst (Covers start fresh) whole (assign-Covers exit start (last + 1) _ tiled));
        counted = omega (
          arith,
          length-append c.assignments fresh,
          k.counted,
          count,
          length-assign exit (even_subsplit start last spe),
        );
        exits =
            All-append (λ x. P x.exit) c.assignments fresh k.exits
              (assign-exit P exit (even_subsplit start last spe) p);
      })

-- Every exit gets at least a byte for each segment, and no product leaves 128 bits.
abbrev pub Ample : {U : Type 0} → (ℕ → Type 0) → ℕ → ℕ → ℕ → List (ExitSpec U) → Type 0
Ample P size total spe es =
    All (λ e. (spe ≤ size * units spe e / total) × (size * units spe e < u128_mod) × P e.id) es

module _ {U : Type 0} (P : ℕ → Type 0) (size total spe : ℕ) (fits : size < u64_mod)
    (pos : 0 < spe) where
  abbrev share_of : ExitSpec U → ℕ
  share_of e = size * units spe e / total

  end_exclusive-last :
      (cursor : ℕ) (e : ExitSpec U) → end_exclusive size total spe cursor e [] ≡ size
  unfolding end_exclusive
  end_exclusive-last cursor e = refl

  end_exclusive-inner :
      (cursor : ℕ) (e f : ExitSpec U) (es : List (ExitSpec U))
      → size * units spe e < u128_mod
      → cursor + share_of e ≤ size
      → end_exclusive size total spe cursor e (f ∷ es) ≡ cursor + share_of e
  unfolding end_exclusive
  end_exclusive-inner cursor e f es small b =
      let more : (length (f ∷ es) == 0) ≡ false = ground arith in
      rw more (
        ap (λ t. wrap128 (cursor + t / total)) (wrap128-eq_of_lt _ small)
        ∙ wrap128-eq_of_lt (cursor + share_of e) (omega arith))

  cut_loop-step :
      (e f : ExitSpec U) (es : List (ExitSpec U)) (cursor : ℕ) (c : Cut)
      → size * units spe e < u128_mod
      → cursor + share_of e ≤ size
      → cut_loop size total spe cursor (e ∷ f ∷ es) c
        ≡ cut_loop size total spe
            (cursor + share_of e)
            (f ∷ es)
            (cut_for e.id (cursor + share_of e) spe c)
  unfolding cut_loop
  cut_loop-step e f es cursor c small b =
      let end_ok : leb u64_mod (cursor + share_of e) ≡ false = ground arith in
      rw (end_exclusive-inner cursor e f es small b, end_ok)

  pub cut_loop-IsCut :
      (e : ExitSpec U) (es : List (ExitSpec U)) (n cursor : ℕ) (c : Cut)
      → Ample P size total spe (e ∷ es)
      → cursor + sum_of share_of (e ∷ es) ≤ size
      → IsCut P n cursor c
      → (out : Cut) × (cut_loop size total spe cursor (e ∷ es) c ≡ ok out)
        × IsCut P (n + length (e ∷ es) * spe) size out
  unfolding cut_loop
  cut_loop-IsCut e [] n cursor c a b k =
      let end_ok : leb u64_mod size ≡ false = ground arith in
      (
        cut_for e.id size spe c,
        rw (end_exclusive-last cursor e, end_ok),
        subst (λ t. IsCut P t size (cut_for e.id size spe c)) (omega arith)
            (cut_for-IsCut P n cursor e.id size spe c k a.0.2 pos (omega arith) fits),
      )
  cut_loop-IsCut e (f ∷ es) n cursor c a b k =
      let at = cursor + share_of e in
      let here = cut_for-IsCut P n cursor e.id at spe c k a.0.2 pos (omega arith) (omega arith) in
      let next = cut_for e.id at spe c in
      let (out, run, done) = cut_loop-IsCut f es (n + spe) at next a.1 (omega arith) here in
      (
        out,
        cut_loop-step e f es cursor c a.0.1 (omega arith) ∙ run,
        subst (λ t. IsCut P t size out) (omega arith) done,
      )
