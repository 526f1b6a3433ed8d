-- ===== src/Prelude/TreeMap.antt =====
-- `BTreeMap` with numbers for keys: a list of bindings in ascending key order, searched and filled
-- in that order, so that iteration is ascending.
use Prim.Native.Nat.{ℕ, ◌+◌, ◌<◌, ◌≤◌}
use mathlib.Core.Path.{◌≡◌}
use mathlib.Core.List.{List, [], ◌∷◌}
use mathlib.Core.Option.{Option, none, some}
use native.Mathlib.Omega.{arith}
use spider_net.Prelude.Lists.{All}
use spider_net.Prelude.Tests.{ltb, ◌==◌, if◌then◌else◌}

module _ {ℓ} {V : Type ℓ} where
  unfoldable pub lookup : ℕ → List (ℕ × V) → Option V
  lookup k [] = none
  lookup k ((j, v) ∷ m) = if ltb k j then none else if k == j then some v else lookup k m

  unfoldable pub insert : ℕ → V → List (ℕ × V) → List (ℕ × V)
  insert k v [] = (k, v) ∷ []
  insert k v ((j, w) ∷ m) =
      if ltb k j then (k, v) ∷ (j, w) ∷ m else if k == j then (k, v) ∷ m else (j, w) ∷ insert k v m

  pub lookup-insert :
      (k j : ℕ) (v : V) (m : List (ℕ × V))
      → lookup j (insert k v m) ≡ (if j == k then some v else lookup j m)
  unfolding lookup insert
  lookup-insert k j v [] = ground arith
  lookup-insert k j v ((i, w) ∷ m) = ground (arith, lookup-insert k j v m)

  -- Keys ascend strictly and lie above `lo`.
  abbrev pub Ascending : ℕ → List (ℕ × V) → Type 0
  Ascending lo [] = Unit {0}
  Ascending lo ((k, v) ∷ m) = (lo < k) × Ascending k m

  pub insert-Ascending :
      (lo k : ℕ) (v : V) (m : List (ℕ × V)) → lo < k → Ascending lo m → Ascending lo (insert k v m)
  unfolding insert
  insert-Ascending lo k v [] h a = (h, tt)
  insert-Ascending lo k v ((j, w) ∷ m) h a = ground (arith, insert-Ascending j k v m)

-- The number at a key, 0 if there is none.
unfoldable pub get_or_zero : ℕ → List (ℕ × ℕ) → ℕ
unfolding lookup
get_or_zero k m = elim (lookup k m) [ none ↦ 0 | some v ↦ v ]

unfoldable pub sum_values : List (ℕ × ℕ) → ℕ
sum_values [] = 0
sum_values ((k, v) ∷ m) = v + sum_values m

pub get_or_zero-insert :
    (k j v : ℕ) (m : List (ℕ × ℕ))
    → get_or_zero j (insert k v m) ≡ (if j == k then v else get_or_zero j m)
unfolding get_or_zero
get_or_zero-insert k j v m = ground (arith, lookup-insert k j v m)

pub sum_values-insert :
    (k v : ℕ) (m : List (ℕ × ℕ)) → sum_values (insert k v m) + get_or_zero k m ≡ sum_values m + v
unfolding sum_values insert get_or_zero lookup
sum_values-insert k v [] = ground arith
sum_values-insert k v ((j, w) ∷ m) = ground (arith, sum_values-insert k v m)

pub All-insert {ℓ} :
    {V : Type 0} (P : ℕ × V → Type ℓ) (k : ℕ) (v : V) (m : List (ℕ × V))
    → P (k, v)
    → All P m
    → All P (insert k v m)
unfolding insert
All-insert P k v [] p h = (p, tt)
All-insert P k v ((j, w) ∷ m) p h = ground (arith, All-insert P k v m p h.1)

pub get_or_zero-le : (k : ℕ) (m : List (ℕ × ℕ)) → get_or_zero k m ≤ sum_values m
unfolding get_or_zero lookup sum_values
get_or_zero-le k [] = omega arith
get_or_zero-le k ((j, v) ∷ m) = ground (arith, get_or_zero-le k m)
