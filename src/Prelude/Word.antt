-- ===== src/Prelude/Word.antt =====
-- Go's int64 and int: the bit pattern of a value, a number below 2 ^ 64. A pattern from 2 ^ 63 on
-- stands for a negative number.
use Prim.Native.Nat.{ℕ, ◌+◌, ◌-◌, ◌%◌, ◌^◌, ◌<◌}
use mathlib.Core.Bool.{Bool}
use binfinity_addon_sdk.Prelude.Tests.{leb, ltb}

abbrev pub word : ℕ
word = 2 ^ 64

abbrev pub half_word : ℕ
half_word = 2 ^ 63

abbrev pub wrap : ℕ → ℕ
wrap n = n % word

-- a - b
abbrev pub sub_word : ℕ → ℕ → ℕ
sub_word a b = (a + word - b) % word

-- a < b and a <= b as signed numbers
abbrev pub slt : ℕ → ℕ → Bool
slt a b = ltb ((a + half_word) % word) ((b + half_word) % word)

abbrev pub sle : ℕ → ℕ → Bool
sle a b = leb ((a + half_word) % word) ((b + half_word) % word)

-- A value of the type that is not negative.
abbrev pub NonNegative : ℕ → Type 0
NonNegative n = n < half_word
