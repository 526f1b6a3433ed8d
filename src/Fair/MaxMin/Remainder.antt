-- ===== src/Fair/MaxMin/Remainder.antt =====
-- The remainder loop: a remainder of at most one unit for each entry is handed out in one pass.
use spider_net.Prelude.{
  ℕ, zero, suc, ◌+◌, ◌-◌, ◌≤◌, ◌<◌, ◌≡◌, refl, sym, ◌∙◌, ap, List, [], ◌∷◌, arith, All, length,
  some, Bool-cases, inl, inr, ◌==◌, false,
}
use spider_net.Prelude.TreeMap.{lookup, insert, sum_values, lookup-insert, sum_values-insert}
use spider_net.Fair.MaxMin.{Entry, Spread, top_up, spread_pass, spread}
use spider_net.Fair.MaxMin.Entries.{Ordered, Ordered-Absent, Absent, rate, rate-of_lookup}

module _ (q : Entry → ℕ) where
  -- Each entry holds `q` of it, which is below its demand.
  abbrev pub Holds : List (ℕ × ℕ) → List Entry → Type 0
  Holds m es = All (λ e. (lookup e.id m ≡ some (q e)) × (q e < e.demand)) es

  Holds-insert :
      (k v : ℕ) (es : List Entry) (m : List (ℕ × ℕ))
      → Absent k es
      → Holds m es
      → Holds (insert k v m) es
  Holds-insert k v [] m a h = tt
  Holds-insert k v (e ∷ es) m a h =
      ((ground (arith, lookup-insert k e.id v m), h.0.1), Holds-insert k v es m a.1 h.1)

  -- An entry holds its `q` or one more.
  abbrev pub Near : List (ℕ × ℕ) → Entry → Type 0
  Near m e = (lookup e.id m ≡ some (rate m e)) × (q e ≤ rate m e) × (rate m e ≤ q e + 1)

  -- A pass gives one unit to each entry until the remainder is used up.
  pub record Passed (es : List Entry) (s t : Spread) : Type 0 where
    pub kept : (k : ℕ) → Absent k es → lookup k t.result ≡ lookup k s.result
    pub near : All (Near t.result) es
    pub total : sum_values t.result + t.remainder ≡ sum_values s.result + s.remainder
    pub left : t.remainder ≡ s.remainder - length es
    pub counted : t.handed_out + t.remainder ≡ s.handed_out + s.remainder

  Near-Holds : (m : List (ℕ × ℕ)) (es : List Entry) → Holds m es → All (Near m) es
  Near-Holds m [] h = tt
  Near-Holds m (e ∷ es) h =
      let own = rate-of_lookup e.id (q e) m h.0.0 in
      ((h.0.0 ∙ ap some (sym own), omega (arith, own), omega (arith, own)), Near-Holds m es h.1)

  topped : Entry → Spread → Spread
  topped e s = record {
    result = insert e.id (q e + 1) s.result;
    remainder = s.remainder - 1;
    handed_out = s.handed_out + 1;
  }

  top_up-topped :
      (e : Entry) (s : Spread)
      → lookup e.id s.result ≡ some (q e)
      → q e < e.demand
      → top_up e s (lookup e.id s.result) ≡ topped e s
  unfolding top_up topped
  top_up-topped e s h k = rw h (ground arith)

  -- The first entry takes its unit, and the pass goes on behind it.
  Passed-step :
      (lo : ℕ) (e : Entry) (es : List Entry) (s t : Spread)
      → Ordered lo (e ∷ es)
      → Holds s.result (e ∷ es)
      → 0 < s.remainder
      → Passed es (topped e s) t
      → Passed (e ∷ es) s t
  unfolding topped
  Passed-step lo e es s t o h pos p = record {
    kept = λ k a. ground (arith, p.kept k a.1, lookup-insert e.id k (q e + 1) s.result);
    near = ((held ∙ ap some (sym own), omega (arith, own), omega (arith, own)), p.near);
    total = omega (
      arith,
      p.total,
      sum_values-insert e.id (q e + 1) s.result,
      rate-of_lookup e.id (q e) s.result h.0.0,
    );
    left = omega (arith, p.left);
    counted = omega (arith, p.counted);
  }
    where
      held : lookup e.id t.result ≡ some (q e + 1)
      held =
          p.kept e.id (Ordered-Absent e.id e.id es o.1 (omega arith))
          ∙ ground (arith, lookup-insert e.id e.id (q e + 1) s.result)

      own : rate t.result e ≡ q e + 1
      own = rate-of_lookup e.id (q e + 1) t.result held

  pub spread_pass-Passed :
      (lo : ℕ) (es : List Entry) (s : Spread)
      → Ordered lo es
      → Holds s.result es
      → Passed es s (spread_pass es s)
  unfolding spread_pass topped
  spread_pass-Passed lo [] s o h = record {
    kept = λ k a. refl;
    near = tt;
    total = refl;
    left = omega arith;
    counted = refl;
  }
  spread_pass-Passed lo (e ∷ es) s o h = elim (Bool-cases (s.remainder == 0)) [
    | inl t ↦ rw t (record {
      kept = λ k a. refl;
      near = Near-Holds s.result (e ∷ es) h;
      total = refl;
      left = ground arith;
      counted = refl;
    })
    | inr t ↦
        rw (t, top_up-topped e s h.0.0 h.0.1)
          (Passed-step lo e es s _ o h (ground arith) (
            spread_pass-Passed e.id es (topped e s) o.1 (
              Holds-insert e.id (q e + 1) es s.result
                (Ordered-Absent e.id e.id es o.1 (omega arith)) h.1)))
  ]

  -- A remainder of at most one unit for each entry is gone after one pass.
  pub record Spreads (es : List Entry) (m out : List (ℕ × ℕ)) (r : ℕ) : Type 0 where
    pub kept : (k : ℕ) → Absent k es → lookup k out ≡ lookup k m
    pub near : All (Near out) es
    pub total : sum_values out ≡ sum_values m + r

  spread-zero : (fuel : ℕ) (es : List Entry) (m : List (ℕ × ℕ)) → spread (suc fuel) es m 0 ≡ m
  unfolding spread
  spread-zero fuel es m = refl

  pub spread-Spreads :
      (lo : ℕ) (es : List Entry) (m : List (ℕ × ℕ)) (r : ℕ)
      → Ordered lo es
      → Holds m es
      → r ≤ length es
      → Spreads es m (spread (suc r) es m r) r
  unfolding spread
  spread-Spreads lo es m zero o h b = record {
    kept = λ k a. refl;
    near = Near-Holds m es h;
    total = omega arith;
  }
  spread-Spreads lo es m (suc r) o h b =
      let s : Spread = record { result = m; remainder = suc r; handed_out = 0 } in
      let p = spread_pass-Passed lo es s o h in
      let gone : (spread_pass es s).remainder ≡ 0 = omega (arith, p.left) in
      let some_units : ((spread_pass es s).handed_out == 0) ≡ false =
        ground (arith, p.counted, gone) in
      let left : (suc r == 0) ≡ false = ground arith in
      rw (left, some_units, gone)
        (record { kept = p.kept; near = p.near; total = omega (arith, p.total, gone) })
