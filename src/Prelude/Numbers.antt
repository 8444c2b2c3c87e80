-- ===== src/Prelude/Numbers.antt =====
-- Numbers in text: strconv.ParseInt with base 10 and 64 bits, and strings.TrimSpace on ASCII text.
use Prim.Native.Nat.{ℕ, ◌+◌, ◌-◌, ◌*◌, ◌%◌, ◌<◌}
use mathlib.Core.Path.{◌≡◌}
use mathlib.Core.Bool.{Bool, ◌&&◌, ◌||◌}
use mathlib.Core.Option.{Option, none, some}
use mathlib.Core.List.{[], ◌∷◌, reverse}
use native.Mathlib.Omega.{arith}
use binfinity_addon_sdk.Prelude.Tests.{if◌then◌else◌, leb, ltb, ◌==◌}
use binfinity_addon_sdk.Prelude.Bytes.{Str}
use binfinity_addon_sdk.Prelude.Word.{half_word, word}

unfoldable pub is_digit : ℕ → Bool
is_digit c = leb b'0' c && leb c b'9'

-- The value of a run of digits, or `none` at any other byte.
unfoldable pub parse_digits : ℕ → Str → Option ℕ
unfolding is_digit
parse_digits acc [] = some acc
parse_digits acc (c ∷ s) =
    let rest = parse_digits (acc * 10 + (c - b'0')) s in if is_digit c then rest else none

pub parse_unsigned : Str → Option ℕ
unfolding parse_digits
parse_unsigned [] = none
parse_unsigned (c ∷ s) = parse_digits 0 (c ∷ s)

-- The range of an int64; the pattern of the value.
pub positive : Option ℕ → Option ℕ
positive none = none
positive (some n) = if ltb n half_word then some n else none

pub negative : Option ℕ → Option ℕ
negative none = none
negative (some n) = if leb n half_word then some ((word - n) % word) else none

unfoldable pub parse_int : Str → Option ℕ
unfolding parse_unsigned positive negative
parse_int [] = none
parse_int (c ∷ s) =
    if c == b'-'
    then negative (parse_unsigned s)
    else if c == b'+'
    then positive (parse_unsigned s)
    else positive (parse_unsigned (c ∷ s))

pub parse_int-lt-word : (s : Str) {n : ℕ} → parse_int s ≡ some n → n < word
unfolding parse_int positive negative
parse_int-lt-word [] h = cc
parse_int-lt-word (c ∷ s) h = ground arith

pub is_space : ℕ → Bool
is_space c = c == 32 || leb 9 c && leb c 13

pub trim_left_space : Str → Str
unfolding is_space
trim_left_space [] = []
trim_left_space (c ∷ s) = let rest = trim_left_space s in if is_space c then rest else c ∷ s

unfoldable pub trim_space : Str → Str
unfolding trim_left_space
trim_space s = reverse (trim_left_space (reverse (trim_left_space s)))
