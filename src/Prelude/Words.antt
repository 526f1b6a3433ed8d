-- ===== src/Prelude/Words.antt =====
-- Machine words. A value stays a number; the wrap-around of an operation is written out.
use Prim.Native.Nat.{ℕ, ◌+◌, ◌-◌, ◌*◌, ◌^◌, ◌%◌, ◌<◌, min}
use mathlib.Core.Path.{◌≡◌}
use native.Mathlib.Omega.{arith}
use spider_net.Prelude.Tests.{ltb, if◌then◌else◌}

abbrev pub u16_mod : ℕ
u16_mod = 2 ^ 16

abbrev pub u32_mod : ℕ
u32_mod = 2 ^ 32

abbrev pub u64_mod : ℕ
u64_mod = 2 ^ 64

abbrev pub u128_mod : ℕ
u128_mod = 2 ^ 128

unfoldable pub wrap32 : ℕ → ℕ
wrap32 x = x % u32_mod

unfoldable pub wrap64 : ℕ → ℕ
wrap64 x = x % u64_mod

unfoldable pub wrap128 : ℕ → ℕ
wrap128 x = x % u128_mod

pub wrap32-eq_of_lt : (x : ℕ) → x < u32_mod → wrap32 x ≡ x
unfolding wrap32
wrap32-eq_of_lt x h = omega arith

pub wrap64-eq_of_lt : (x : ℕ) → x < u64_mod → wrap64 x ≡ x
unfolding wrap64
wrap64-eq_of_lt x h = omega arith

pub wrap128-eq_of_lt : (x : ℕ) → x < u128_mod → wrap128 x ≡ x
unfolding wrap128
wrap128-eq_of_lt x h = omega arith

-- `saturating_add` on u64.
unfoldable pub saturating_add64 : ℕ → ℕ → ℕ
saturating_add64 a b = if ltb (a + b) u64_mod then a + b else u64_mod - 1

pub wrap64-add : (x y : ℕ) → wrap64 (wrap64 x + y) ≡ wrap64 (x + y)
unfolding wrap64
wrap64-add x y = omega arith

pub saturating_add64-capped : (x y : ℕ) → saturating_add64 x y ≡ min (x + y) (u64_mod - 1)
unfolding saturating_add64
saturating_add64-capped x y = ground arith

-- `saturating_mul` on u64.
unfoldable pub saturating_mul64 : ℕ → ℕ → ℕ
saturating_mul64 a b = if ltb (a * b) u64_mod then a * b else u64_mod - 1

pub saturating_mul64-capped : (x y : ℕ) → saturating_mul64 x y ≡ min (x * y) (u64_mod - 1)
unfolding saturating_mul64
saturating_mul64-capped x y = ground arith
