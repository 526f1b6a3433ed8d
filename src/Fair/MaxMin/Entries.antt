-- ===== src/Fair/MaxMin/Entries.antt =====
-- Entries in ascending id order, what a map grants them, and the rates after `grant`.
use spider_net.Prelude.{
  ℕ, ◌+◌, ◌≤◌, ◌<◌, ◌≡◌, ◌≢◌, refl, inl, inr, List, [], ◌∷◌, arith, All, ◌∈◌, sum_of, some, u32_mod,
  u64_mod,
}
use spider_net.Prelude.TreeMap.{
  lookup, insert, get_or_zero, sum_values, lookup-insert, get_or_zero-insert, sum_values-insert,
}
use spider_net.Fair.MaxMin.{Entry, grant}

-- Ids ascend strictly and lie above `lo`.
abbrev pub Ordered : ℕ → List Entry → Type 0
Ordered lo [] = Unit {0}
Ordered lo (e ∷ es) = (lo < e.id) × Ordered e.id es

-- The range of the fields: a `u64` demand and a `NonZeroU32` weight.
abbrev pub IsEntry : Entry → Type 0
IsEntry e = (0 < e.weight) × (e.weight < u32_mod) × (e.demand < u64_mod)

abbrev pub rate : List (ℕ × ℕ) → Entry → ℕ
rate m e = get_or_zero e.id m

abbrev pub weights : List Entry → ℕ
weights es = sum_of (λ e. e.weight) es

abbrev pub demands : List Entry → ℕ
demands es = sum_of (λ e. e.demand) es

-- No entry has the id `k`.
abbrev pub Absent : ℕ → List Entry → Type 0
Absent k es = All (λ e. e.id ≢ k) es

pub Ordered-mono : (lo hi : ℕ) (es : List Entry) → lo ≤ hi → Ordered hi es → Ordered lo es
Ordered-mono lo hi [] h o = tt
Ordered-mono lo hi (e ∷ es) h o = (omega arith, o.1)

pub Ordered-Absent : (lo k : ℕ) (es : List Entry) → Ordered lo es → k ≤ lo → Absent k es
Ordered-Absent lo k [] o h = tt
Ordered-Absent lo k (e ∷ es) o h = (omega arith, Ordered-Absent e.id k es o.1 (omega arith))

pub weights-pos : (e : Entry) (es : List Entry) → All IsEntry (e ∷ es) → 0 < weights (e ∷ es)
weights-pos e es v = omega arith

-- `grant` changes the granted ids only.
pub grant_other :
    (f : Entry → ℕ) (es : List Entry) (m : List (ℕ × ℕ)) (k : ℕ)
    → Absent k es
    → lookup k (grant f es m) ≡ lookup k m
unfolding grant
grant_other f [] m k h = refl
grant_other f (e ∷ es) m k h =
    ground (arith, grant_other f es (insert e.id (f e) m) k h.1, lookup-insert e.id k (f e) m)

pub grant_own :
    (f : Entry → ℕ) (lo : ℕ) (es : List Entry) (m : List (ℕ × ℕ)) (e : Entry)
    → Ordered lo es
    → e ∈ es
    → lookup e.id (grant f es m) ≡ some (f e)
unfolding grant
grant_own f lo [] m e o h = absurd h
grant_own f lo (x ∷ es) m e o (inl h) = ground (
  arith,
  grant_other f es (insert x.id (f x) m) x.id (Ordered-Absent x.id x.id es o.1 (omega arith)),
  lookup-insert x.id x.id (f x) m,
)
grant_own f lo (x ∷ es) m e o (inr h) = grant_own f x.id es (insert x.id (f x) m) e o.1 h

pub rate-of_lookup : (k v : ℕ) (m : List (ℕ × ℕ)) → lookup k m ≡ some v → get_or_zero k m ≡ v
unfolding get_or_zero
rate-of_lookup k v m h = ground arith

pub rate_congr :
    (k : ℕ) (m n : List (ℕ × ℕ)) → lookup k m ≡ lookup k n → get_or_zero k m ≡ get_or_zero k n
unfolding get_or_zero
rate_congr k m n h = rw (h, get_or_zero)

-- Ids that have no rate yet.
abbrev pub Fresh : List (ℕ × ℕ) → List Entry → Type 0
Fresh m es = All (λ e. get_or_zero e.id m ≡ 0) es

pub Fresh-insert :
    (k v : ℕ) (es : List Entry) (m : List (ℕ × ℕ))
    → Absent k es
    → Fresh m es
    → Fresh (insert k v m) es
Fresh-insert k v [] m a f = tt
Fresh-insert k v (e ∷ es) m a f =
    (ground (arith, get_or_zero-insert k e.id v m), Fresh-insert k v es m a.1 f.1)

pub grant_total :
    (f : Entry → ℕ) (lo : ℕ) (es : List Entry) (m : List (ℕ × ℕ))
    → Ordered lo es
    → Fresh m es
    → sum_values (grant f es m) ≡ sum_values m + sum_of f es
unfolding grant
grant_total f lo [] m o h = omega arith
grant_total f lo (e ∷ es) m o h = omega (
  arith,
  grant_total f e.id es (insert e.id (f e) m) o.1
      (Fresh-insert e.id (f e) es m (Ordered-Absent e.id e.id es o.1 (omega arith)) h.1),
  sum_values-insert e.id (f e) m,
)
