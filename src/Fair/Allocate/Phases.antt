-- ===== src/Fair/Allocate/Phases.antt =====
-- `extend`: the rates of the second phase beside those of the first.
use spider_net.Prelude.{ℕ, ◌+◌, ◌≤◌, ◌≡◌, refl, List, [], ◌∷◌, arith, none, some, Option}
use spider_net.Prelude.TreeMap.{
  lookup, insert, get_or_zero, sum_values, lookup-insert, get_or_zero-insert, sum_values-insert,
  Ascending,
}
use spider_net.Fair.Allocate.{extend}

-- The later binding, if there is one.
abbrev pub override : Option ℕ → Option ℕ → Option ℕ
override (some v) old = some v
override none old = old

lookup_below : (lo k : ℕ) (n : List (ℕ × ℕ)) → Ascending lo n → k ≤ lo → lookup k n ≡ none
unfolding lookup
lookup_below lo k [] a h = refl
lookup_below lo k ((j, v) ∷ n) a h = ground arith

pub lookup-extend :
    (lo k : ℕ) (m n : List (ℕ × ℕ))
    → Ascending lo n
    → lookup k (extend m n) ≡ override (lookup k n) (lookup k m)
unfolding extend lookup
lookup-extend lo k m [] a = refl
lookup-extend lo k m ((j, v) ∷ n) a =
    ground
      (arith, lookup-extend j k (insert j v m) n a.1, lookup-insert j k v m, lookup_below j k n a.1)

-- No key of the second map has a rate in the first.
abbrev pub Apart : List (ℕ × ℕ) → List (ℕ × ℕ) → Type 0
Apart m [] = Unit {0}
Apart m ((k, v) ∷ n) = (get_or_zero k m ≡ 0) × Apart m n

Apart-insert :
    (lo k v : ℕ) (m n : List (ℕ × ℕ)) → Ascending lo n → k ≤ lo → Apart m n → Apart (insert k v m) n
Apart-insert lo k v m [] a h p = tt
Apart-insert lo k v m ((j, w) ∷ n) a h p =
    (ground (arith, get_or_zero-insert k j v m), Apart-insert j k v m n a.1 (omega arith) p.1)

pub sum_values-extend :
    (lo : ℕ) (m n : List (ℕ × ℕ))
    → Ascending lo n
    → Apart m n
    → sum_values (extend m n) ≡ sum_values m + sum_values n
unfolding extend sum_values
sum_values-extend lo m [] a p = omega arith
sum_values-extend lo m ((k, v) ∷ n) a p = omega (
  arith,
  sum_values-extend k (insert k v m) n a.1 (Apart-insert k k v m n a.1 (omega arith) p.1),
  sum_values-insert k v m,
)

pub Apart-intro :
    (lo : ℕ) (m n : List (ℕ × ℕ))
    → Ascending lo n
    → ((k v : ℕ) → lookup k n ≡ some v → get_or_zero k m ≡ 0)
    → Apart m n
unfolding lookup
Apart-intro lo m [] a h = tt
Apart-intro lo m ((k, v) ∷ n) a h =
    (h k v (ground arith), Apart-intro k m n a.1 (λ j w e. h j w (below j w e)))
  where
    below : (j w : ℕ) → lookup j n ≡ some w → lookup j ((k, v) ∷ n) ≡ some w
    below j w e = ground (arith, lookup_below k j n a.1)
