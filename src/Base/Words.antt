-- ===== src/Base/Words.antt =====
-- Machine words: a value is its bit pattern, and the operations wrap around.
use Prim.Native.Nat.{ℕ, ◌+◌, ◌-◌, ◌%◌, ◌^◌}
use mathlib.Core.Bool.{Bool}
use cidl.Base.Tests.{ltb, leb, if◌then◌else◌}

abbrev pub word64 : ℕ
word64 = 2 ^ 64

-- `unsigned long` and `unsigned long long` addition and subtraction.
abbrev pub add64 : ℕ → ℕ → ℕ
add64 a b = (a + b) % word64

abbrev pub sub64 : ℕ → ℕ → ℕ
sub64 a b = (a + word64 - b) % word64

-- The conversions to `int` and to `short` keep the low bits.
abbrev pub to_int : ℕ → ℕ
to_int a = a % 2 ^ 32

abbrev pub to_short : ℕ → ℕ
to_short a = a % 2 ^ 16

-- The conversion of an `int`, given by its bit pattern, to `unsigned long long` copies the sign.
abbrev pub sign_extend : ℕ → ℕ
sign_extend a = if ltb a (2 ^ 31) then a else a + word64 - 2 ^ 32

-- The conversion of a `short` to 64 bits.
abbrev pub sign_extend16 : ℕ → ℕ
sign_extend16 a = if ltb a (2 ^ 15) then a else a + word64 - 2 ^ 16

-- `a <= b` of two `short`s.
abbrev pub leb_short : ℕ → ℕ → Bool
leb_short a b = leb ((a + 2 ^ 15) % 2 ^ 16) ((b + 2 ^ 15) % 2 ^ 16)

-- `MIN(a, b)` of two `int`s, the first of which is not negative.
abbrev pub min_int : ℕ → ℕ → ℕ
min_int a b = if ltb b (2 ^ 31) then (if ltb a b then a else b) else b

-- The null pointer.
abbrev pub null : ℕ
null = 0
