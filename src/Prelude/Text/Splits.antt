-- ===== src/Prelude/Text/Splits.antt =====
-- Laws of prefixes, splits and trimming.
use Prim.Native.Nat.{ℕ}
use mathlib.Core.Bool.{true, false}
use mathlib.Core.List.{[], ◌∷◌, ◌++◌}
use mathlib.Core.Logic.{◌≢◌, ◌↔◌, ◌⊎◌, inl, inr}
use mathlib.Core.Option.{none, some}
use mathlib.Core.Path.{◌≡◌, refl}
use native.Mathlib.Omega.{arith}
use spider_net.Prelude.Tests.{Bool-cases}
use spider_net.Prelude.Lists.{All}
use spider_net.Prelude.Text.{
  Text, text_eq, strip_prefix, split_once, rsplit_once, trim, trim_start, trim_end, cons_trimmed,
  is_whitespace,
}

pub text_eq_iff : (s t : Text) → (text_eq s t ≡ true) ↔ (s ≡ t)
unfolding text_eq
text_eq_iff [] [] = ground arith
text_eq_iff [] (d ∷ t) = ground arith
text_eq_iff (c ∷ s) [] = ground arith
text_eq_iff (c ∷ s) (d ∷ t) = ground (arith, text_eq_iff s t)

pub strip_prefix-append : (p s : Text) → strip_prefix p (p ++ s) ≡ some s
unfolding strip_prefix
strip_prefix-append [] s = refl
strip_prefix-append (c ∷ p) s = ground (arith, strip_prefix-append p s)

pub strip_prefix-some : (p s rest : Text) → strip_prefix p s ≡ some rest → s ≡ p ++ rest
unfolding strip_prefix
strip_prefix-some [] s rest h = cc
strip_prefix-some (c ∷ p) [] rest h = cc
strip_prefix-some (c ∷ p) (d ∷ s) rest h = ground (arith, strip_prefix-some p s rest)

pub split_once-append :
    (c : ℕ) (a b : Text) → All (λ d. d ≢ c) a → split_once c (a ++ c ∷ b) ≡ some (a, b)
unfolding split_once
split_once-append c [] b h = ground arith
split_once-append c (d ∷ a) b h = ground (arith, split_once-append c a b, h.0)

pub rsplit_once-none : (c : ℕ) (s : Text) → All (λ d. d ≢ c) s → rsplit_once c s ≡ none
unfolding rsplit_once
rsplit_once-none c [] h = refl
rsplit_once-none c (d ∷ s) h = ground (arith, rsplit_once-none c s, h.0)

pub rsplit_once-append :
    (c : ℕ) (a b : Text) → All (λ d. d ≢ c) b → rsplit_once c (a ++ c ∷ b) ≡ some (a, b)
unfolding rsplit_once
rsplit_once-append c [] b h = ground (arith, rsplit_once-none c b)
rsplit_once-append c (d ∷ a) b h = ground (arith, rsplit_once-append c a b)

pub rsplit_once-eq_none : (c : ℕ) (s : Text) → rsplit_once c s ≡ none → All (λ d. d ≢ c) s
unfolding rsplit_once
rsplit_once-eq_none c [] h = tt
rsplit_once-eq_none c (d ∷ s) h = ground (arith, rsplit_once-eq_none c s)

-- Trimming leaves text alone that neither begins nor ends with white space.
abbrev pub Solid : Text → Type 0
Solid [] = ⊥
Solid (c ∷ []) = is_whitespace c ≡ false
Solid (c ∷ d ∷ s) = Solid (d ∷ s)

pub trim_end-Solid : (s : Text) → Solid s → trim_end s ≡ s
unfolding trim_end cons_trimmed
trim_end-Solid [] h = refl
trim_end-Solid (c ∷ []) h = rw h refl
trim_end-Solid (c ∷ d ∷ s) h = rw (trim_end-Solid (d ∷ s) h) refl

pub trim-Solid : (c : ℕ) (s : Text) → is_whitespace c ≡ false → Solid (c ∷ s) → trim (c ∷ s) ≡ c ∷ s
unfolding trim trim_start
trim-Solid c s h solid = rw h (trim_end-Solid (c ∷ s) solid)

pub Solid-append : (a b : Text) → Solid b → Solid (a ++ b)
Solid-append [] b h = h
Solid-append (c ∷ []) [] h = absurd h
Solid-append (c ∷ []) (d ∷ b) h = h
Solid-append (c ∷ d ∷ a) b h = Solid-append (d ∷ a) b h

pub split_once-none : (c : ℕ) (s : Text) → All (λ d. d ≢ c) s → split_once c s ≡ none
unfolding split_once
split_once-none c [] h = refl
split_once-none c (d ∷ s) h = ground (arith, split_once-none c s, h.0)

cons_trimmed-Solid : (c : ℕ) → (cons_trimmed c [] ≡ []) ⊎ Solid (cons_trimmed c [])
unfolding cons_trimmed
cons_trimmed-Solid c = elim (Bool-cases (is_whitespace c)) [
  | inl space ↦ rw space (inl refl)
  | inr other ↦ rw other (inr other)
]

-- What is trimmed is empty or does not end in white space.
pub trim_end-Solid_or_empty : (s : Text) → (trim_end s ≡ []) ⊎ Solid (trim_end s)
unfolding trim_end cons_trimmed
trim_end-Solid_or_empty [] = inl refl
trim_end-Solid_or_empty (c ∷ s) = behind (trim_end s) (trim_end-Solid_or_empty s)
  where
    behind : (t : Text) → (t ≡ []) ⊎ Solid t → (cons_trimmed c t ≡ []) ⊎ Solid (cons_trimmed c t)
    behind [] h = cons_trimmed-Solid c
    behind (d ∷ t) (inl e) = absurd (ground (arith, e))
    behind (d ∷ t) (inr solid) = inr solid

pub Solid-suffix : (p rest : Text) → rest ≢ [] → Solid (p ++ rest) → Solid rest
Solid-suffix [] rest some_rest h = h
Solid-suffix (c ∷ []) [] some_rest h = absurd (some_rest refl)
Solid-suffix (c ∷ []) (d ∷ rest) some_rest h = h
Solid-suffix (c ∷ d ∷ p) rest some_rest h = Solid-suffix (d ∷ p) rest some_rest h

-- What is trimmed is empty, or is trimmed at both ends.
abbrev pub IsTrimmed : Text → Type 0
IsTrimmed [] = Unit {0}
IsTrimmed (c ∷ s) = (is_whitespace c ≡ false) × Solid (c ∷ s)

cons_trimmed-IsTrimmed :
    (c : ℕ) (t : Text) → is_whitespace c ≡ false → (t ≡ []) ⊎ Solid t → IsTrimmed (cons_trimmed c t)
unfolding cons_trimmed
cons_trimmed-IsTrimmed c [] h s = rw h (h, h)
cons_trimmed-IsTrimmed c (d ∷ t) h (inl e) = absurd (ground (arith, e))
cons_trimmed-IsTrimmed c (d ∷ t) h (inr s) = (h, s)

pub trim-IsTrimmed : (s : Text) → IsTrimmed (trim s)
unfolding trim trim_start trim_end
trim-IsTrimmed [] = tt
trim-IsTrimmed (c ∷ s) = elim (Bool-cases (is_whitespace c)) [
  | inl space ↦ rw space (trim-IsTrimmed s)
  | inr other ↦ rw other (cons_trimmed-IsTrimmed c (trim_end s) other (trim_end-Solid_or_empty s))
]

pub trim_of_IsTrimmed : (s : Text) → IsTrimmed s → trim s ≡ s
unfolding trim trim_start trim_end
trim_of_IsTrimmed [] h = refl
trim_of_IsTrimmed (c ∷ s) h = trim-Solid c s h.0 h.1

pub trim_idem : (s : Text) → trim (trim s) ≡ trim s
trim_idem s = trim_of_IsTrimmed (trim s) (trim-IsTrimmed s)
