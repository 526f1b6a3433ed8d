-- ===== src/Prelude/Results.antt =====
-- `Result` of Rust's library: a value or an error, chained by `?`.
use mathlib.Core.Path.{◌≡◌, refl}

pub data Result (E A : Type 0) : Type 0 where
  err : E → Result E A
  ok : A → Result E A

infixl 5 ◌>>=◌
abbrev pub ◌>>=◌ : {E A B : Type 0} → Result E A → (A → Result E B) → Result E B
err fault >>= next = err fault
ok value >>= next = next value

-- The parts of a chain that goes through.
pub >>=-eq-ok :
    {E A B : Type 0} (attempt : Result E A) (next : A → Result E B) {last : B}
    → (attempt >>= next) ≡ ok last
    → (value : A) × (attempt ≡ ok value) × (next value ≡ ok last)
>>=-eq-ok (err fault) next through = cc
>>=-eq-ok (ok value) next through = (value, refl, through)

pub ok-inj : {E A : Type 0} {x y : A} → ◌≡◌ {A = Result E A} (ok x) (ok y) → x ≡ y
ok-inj h = cc
