-- ===== src/Prelude/Lists.antt =====
-- Lists measured by native numbers, sums, membership and predicates over all elements.
use Prim.Native.Nat.{ℕ, zero, suc, ◌+◌, ◌≤◌}
use mathlib.Core.Path.{◌≡◌, refl, subst, ap}
use mathlib.Core.Logic.{◌⊎◌, inl, inr}
use mathlib.Core.List.{List, [], ◌∷◌, ◌++◌}
use mathlib.Core.Option.{Option, none, some}
use native.Mathlib.Omega.{arith}

module _ {ℓ} {A : Type ℓ} where
  abbrev pub length : List A → ℕ
  length [] = 0
  length (x ∷ xs) = suc (length xs)

  abbrev pub get_elem? : List A → ℕ → Option A
  get_elem? [] i = none
  get_elem? (x ∷ xs) zero = some x
  get_elem? (x ∷ xs) (suc i) = get_elem? xs i

  pub length-append : (xs ys : List A) → length (xs ++ ys) ≡ length xs + length ys
  length-append [] ys = omega arith
  length-append (x ∷ xs) ys = omega (arith, length-append xs ys)

  abbrev pub All {κ} : (A → Type κ) → List A → Type κ
  All P [] = Unit
  All P (x ∷ xs) = P x × All P xs

  -- The sum of a measure over a list.
  abbrev pub sum_of : (A → ℕ) → List A → ℕ
  sum_of f [] = 0
  sum_of f (x ∷ xs) = f x + sum_of f xs

module _ {ℓ} {A : Type ℓ} where
  pub All-append {κ} : (P : A → Type κ) (xs ys : List A) → All P xs → All P ys → All P (xs ++ ys)
  All-append P [] ys p q = q
  All-append P (x ∷ xs) ys p q = (p.0, All-append P xs ys p.1 q)

  pub sum_of-append : (f : A → ℕ) (xs ys : List A) → sum_of f (xs ++ ys) ≡ sum_of f xs + sum_of f ys
  sum_of-append f [] ys = omega arith
  sum_of-append f (x ∷ xs) ys = omega (arith, sum_of-append f xs ys)

  pub sum_of_mono :
      (f g : A → ℕ) (xs : List A) → All (λ x. f x ≤ g x) xs → sum_of f xs ≤ sum_of g xs
  sum_of_mono f g [] h = omega arith
  sum_of_mono f g (x ∷ xs) h = omega (arith, sum_of_mono f g xs h.1)

  pub sum_of_congr :
      (f g : A → ℕ) (xs : List A) → All (λ x. f x ≡ g x) xs → sum_of f xs ≡ sum_of g xs
  sum_of_congr f g [] h = refl
  sum_of_congr f g (x ∷ xs) h = omega (arith, sum_of_congr f g xs h.1)

-- Membership as a disjunction, which the tactics take apart.
module _ {A : Type 0} where
  infix 50 ◌∈◌
  abbrev pub ◌∈◌ : A → List A → Type 0
  a ∈ [] = ⊥
  a ∈ (x ∷ xs) = (x ≡ a) ⊎ (a ∈ xs)

  pub All-mem {κ} : (P : A → Type κ) (xs : List A) (a : A) → All P xs → a ∈ xs → P a
  All-mem P [] a p m = absurd m
  All-mem P (x ∷ xs) a p (inl e) = subst P e p.0
  All-mem P (x ∷ xs) a p (inr m) = All-mem P xs a p.1 m

  pub All-intro {κ} : (P : A → Type κ) (xs : List A) → ((a : A) → a ∈ xs → P a) → All P xs
  All-intro P [] h = tt
  All-intro P (x ∷ xs) h = (h x (inl refl), All-intro P xs (λ a m. h a (inr m)))

  pub mem-le-sum_of : (f : A → ℕ) (xs : List A) (a : A) → a ∈ xs → f a ≤ sum_of f xs
  mem-le-sum_of f [] a m = absurd m
  mem-le-sum_of f (x ∷ xs) a (inl e) = ground (arith, ap f e)
  mem-le-sum_of f (x ∷ xs) a (inr m) = omega (arith, mem-le-sum_of f xs a m)
