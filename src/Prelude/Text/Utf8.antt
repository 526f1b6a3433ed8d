-- ===== src/Prelude/Text/Utf8.antt =====
-- `str::from_utf8`: bytes to code points, without overlong forms, surrogates and too large values.
use Prim.Native.Nat.{ℕ, ◌+◌, ◌-◌, ◌*◌, ◌<◌}
use mathlib.Core.Bool.{◌&&◌}
use mathlib.Core.List.{List, [], ◌∷◌}
use mathlib.Core.Option
use mathlib.Core.Option.{Option, none, some}
use mathlib.Core.Path.{◌≡◌, refl}
use native.Mathlib.Omega.{arith}
use spider_net.Prelude.Tests.{◌==◌, leb, ltb, if◌then◌else◌}
use spider_net.Prelude.Lists.{All}
use spider_net.Prelude.Text.{Text}

-- A sequence that is not complete: the bytes that are missing, the bits so far, and the range of the
-- next byte.
pub record Partial : Type 0 where
  pub missing : ℕ
  pub bits : ℕ
  pub low : ℕ
  pub high : ℕ

abbrev sequence : ℕ → ℕ → ℕ → ℕ → Option Partial
sequence missing bits low high =
    some (record { missing = missing; bits = bits; low = low; high = high })

-- What a first byte of 128 or more begins.
unfoldable pub begin : ℕ → Option Partial
begin b =
    if ltb b 194
    then none
    else if ltb b 224
    then sequence 1 (b - 192) 128 191
    else if b == 224
    then sequence 2 0 160 191
    else if b == 237
    then sequence 2 13 128 159
    else if ltb b 240
    then sequence 2 (b - 224) 128 191
    else if b == 240
    then sequence 3 0 144 191
    else if ltb b 244
    then sequence 3 (b - 240) 128 191
    else if b == 244
    then sequence 3 4 128 143
    else none

-- The bytes of a text, inside a sequence or between two.
unfoldable pub decode_from : Option Partial → List ℕ → Option Text
decode_from none [] = some []
decode_from (some p) [] = none
decode_from none (b ∷ bytes) =
    if ltb b 128
    then Option.map (λ s. b ∷ s) (decode_from none bytes)
    else elim (begin b) [ none ↦ none | some p ↦ decode_from (some p) bytes ]
decode_from (some p) (b ∷ bytes) =
    let bits = p.bits * 64 + (b - 128) in
    if leb p.low b && leb b p.high
    then (if p.missing == 1
        then Option.map (λ s. bits ∷ s) (decode_from none bytes)
        else decode_from
            (some (record { missing = p.missing - 1; bits = bits; low = 128; high = 191 })) bytes)
    else none

unfoldable pub from_utf8 : List ℕ → Option Text
from_utf8 bytes = decode_from none bytes

-- ASCII bytes are their own code points.
pub from_utf8-ascii : (s : List ℕ) → All (λ b. b < 128) s → from_utf8 s ≡ some s
unfolding from_utf8 decode_from
from_utf8-ascii [] h = refl
from_utf8-ascii (b ∷ s) h = ground (arith, from_utf8-ascii s)
