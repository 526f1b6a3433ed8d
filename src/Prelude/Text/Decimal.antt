-- ===== src/Prelude/Text/Decimal.antt =====
-- Printing an unsigned number, and reading it back.
use Prim.Native.Nat.{ℕ, zero, suc, ◌+◌, ◌-◌, ◌*◌, ◌/◌, ◌%◌, ◌≤◌, ◌<◌}
use mathlib.Core.List.{[], ◌∷◌, ◌++◌}
use mathlib.Core.Logic.{◌≢◌, inl, inr}
use mathlib.Core.Option.{some}
use mathlib.Core.Path.{◌≡◌, refl, ap, sym, subst, ◌∙◌}
use native.Mathlib.Omega.{arith}
use spider_net.Prelude.Tests.{ltb, if◌then◌else◌, Bool-cases, ltb→lt, ltb→ge}
use spider_net.Prelude.Lists.{All, All-append}
use spider_net.Prelude.Text.{Text, is_digit, parse_digits, parse_uint, is_whitespace}
use spider_net.Prelude.Text.Splits.{Solid}

-- The digits of a number, with fuel.
unfoldable pub digits : ℕ → ℕ → Text
digits zero n = []
digits (suc fuel) n =
    let shorter = digits fuel (n / 10) in
    if ltb n 10 then (n + 48) ∷ [] else shorter ++ (n % 10 + 48) ∷ []

-- `Display` of an unsigned number.
unfoldable pub decimal : ℕ → Text
decimal n = digits (n + 1) n

abbrev pub IsDigit : ℕ → Type 0
IsDigit c = (48 ≤ c) × (c ≤ 57)

digits-IsDigit : (fuel n : ℕ) → All IsDigit (digits fuel n)
unfolding digits
digits-IsDigit zero n = tt
digits-IsDigit (suc fuel) n = elim (Bool-cases (ltb n 10)) [
  | inl small ↦ rw small (ground (arith, small), tt)
  | inr big ↦ rw big (All-append IsDigit _ _ (digits-IsDigit fuel (n / 10)) (omega arith, tt))
]

-- Digits are read from the left.
parse_digits-append :
    (bound acc v d : ℕ) (s : Text)
    → parse_digits bound acc s ≡ some v
    → d < 10
    → v * 10 + d < bound
    → parse_digits bound acc (s ++ (d + 48) ∷ []) ≡ some (v * 10 + d)
unfolding parse_digits is_digit
parse_digits-append bound acc v d [] h small fits = ground (arith, h)
parse_digits-append bound acc v d (c ∷ s) h small fits =
    ground (arith, parse_digits-append bound (acc * 10 + (c - 48)) v d s)

suc_add : (n : ℕ) → suc n ≡ n + 1
suc_add n = omega arith

digit_read : (bound n : ℕ) → n < 10 → n < bound → parse_digits bound 0 ((n + 48) ∷ []) ≡ some n
unfolding parse_digits is_digit
digit_read bound n small fits = ground arith

parse_digits-digits :
    (bound fuel n : ℕ) → n < fuel → n < bound → parse_digits bound 0 (digits fuel n) ≡ some n
unfolding digits
parse_digits-digits bound zero n enough fits = absurd (omega (arith, enough))
parse_digits-digits bound (suc fuel) n enough fits = elim (Bool-cases (ltb n 10)) [
  | inl small ↦ rw small (digit_read bound n (ltb→lt n 10 small) fits)
  | inr big ↦
      let more = ltb→ge n 10 big in
      rw big (
        parse_digits-append bound 0 (n / 10) (n % 10) (digits fuel (n / 10))
          (parse_digits-digits bound fuel (n / 10) (omega arith) (omega arith)) (omega arith)
          (omega arith)
        ∙ ap some (omega arith))
]

parse_uint-digits :
    (bound : ℕ) (c : ℕ) (s : Text)
    → All IsDigit (c ∷ s)
    → parse_uint bound (c ∷ s) ≡ parse_digits bound 0 (c ∷ s)
unfolding parse_uint
parse_uint-digits bound c [] h = refl
parse_uint-digits bound c (d ∷ s) h = ground arith

digits-cons : (fuel n : ℕ) → (c : ℕ) × (s : Text) × (digits (suc fuel) n ≡ c ∷ s)
unfolding digits
digits-cons fuel n = elim (Bool-cases (ltb n 10)) [
  | inl small ↦ rw small (n + 48, [], refl)
  | inr big ↦ rw big (last_cons (digits fuel (n / 10)) (n % 10 + 48))
]
  where
    last_cons : (a : Text) (d : ℕ) → (c : ℕ) × (s : Text) × (a ++ d ∷ [] ≡ c ∷ s)
    last_cons [] d = (d, [], refl)
    last_cons (c ∷ a) d = (c, a ++ d ∷ [], refl)

-- A printed number is read back.
pub parse_uint-decimal : (bound n : ℕ) → n < bound → parse_uint bound (decimal n) ≡ some n
unfolding decimal
parse_uint-decimal bound n fits = rw (← suc_add n) (read (digits-cons n n))
  where
    read :
        ((c : ℕ) × (s : Text) × (digits (suc n) n ≡ c ∷ s))
        → parse_uint bound (digits (suc n) n) ≡ some n
    read (c, s, e) = rw e (
        parse_uint-digits bound c s (subst (All IsDigit) e (digits-IsDigit (suc n) n))
        ∙ ap (parse_digits bound 0) (sym e)
        ∙ parse_digits-digits bound (suc n) n (omega arith) fits)

pub decimal-IsDigit : (n : ℕ) → All IsDigit (decimal n)
unfolding decimal
decimal-IsDigit n = digits-IsDigit (n + 1) n

Solid-digits : (c : ℕ) (s : Text) → All IsDigit (c ∷ s) → Solid (c ∷ s)
unfolding is_whitespace
Solid-digits c [] h = ground arith
Solid-digits c (d ∷ s) h = Solid-digits d s h.1

pub decimal-Solid : (n : ℕ) → Solid (decimal n)
unfolding decimal
decimal-Solid n = rw (← suc_add n) (solid (digits-cons n n))
  where
    solid : ((c : ℕ) × (s : Text) × (digits (suc n) n ≡ c ∷ s)) → Solid (digits (suc n) n)
    solid (c, s, e) = rw e (Solid-digits c s (subst (All IsDigit) e (digits-IsDigit (suc n) n)))

-- No digit is a separator.
pub decimal_apart : (n c : ℕ) → 57 < c → All (λ d. d ≢ c) (decimal n)
decimal_apart n c above = apart (decimal n) (decimal-IsDigit n)
  where
    apart : (s : Text) → All IsDigit s → All (λ d. d ≢ c) s
    apart [] h = tt
    apart (d ∷ s) h = ((λ e. omega (arith, e, h.0, above)), apart s h.1)

parse_digits-lt :
    (bound acc v : ℕ) (s : Text) → acc < bound → parse_digits bound acc s ≡ some v → v < bound
unfolding parse_digits
parse_digits-lt bound acc v [] small h = ground (arith, h)
parse_digits-lt bound acc v (c ∷ s) small h =
    ground (arith, parse_digits-lt bound (acc * 10 + (c - 48)) v s, h)

-- A number that is read is one of the type.
pub parse_uint-lt : (bound v : ℕ) (s : Text) → 0 < bound → parse_uint bound s ≡ some v → v < bound
unfolding parse_uint
parse_uint-lt bound v [] pos h = ground (arith, h)
parse_uint-lt bound v (c ∷ []) pos h = parse_digits-lt bound 0 v (c ∷ []) pos h
parse_uint-lt bound v (c ∷ d ∷ s) pos h =
    ground (arith, parse_digits-lt bound 0 v (d ∷ s), parse_digits-lt bound 0 v (c ∷ d ∷ s), h)
