-- ===== src/Prelude/Decimal.antt =====
-- Numbers printed in decimal, as fmt's %d prints them, and how a run of digits is read back.
use Prim.Native.Nat.{ℕ, zero, suc, ◌+◌, ◌-◌, ◌*◌, ◌/◌, ◌%◌, ◌<◌}
use mathlib.Core.Path.{◌≡◌, refl, ap, ◌∙◌}
use mathlib.Core.Logic.{inl, inr}
use mathlib.Core.Bool.{true, false, ◌&&◌}
use mathlib.Core.List.{[], ◌∷◌, ◌++◌}
use native.Mathlib.Omega.{arith}
use binfinity_addon_sdk.Prelude.Tests.{Bool-cases, if◌then◌else◌, leb, ltb}
use binfinity_addon_sdk.Prelude.Bytes.{Str}
use binfinity_addon_sdk.Prelude.Numbers.{is_digit}

-- Each round puts the last digit in front of `out`; one more round than the number is enough.
unfoldable pub decimal_from : ℕ → ℕ → Str → Str
decimal_from zero n out = out
decimal_from (suc rounds) n out = elim (ltb n 10) [
  | true ↦ (b'0' + n % 10) ∷ out
  | false ↦ decimal_from rounds (n / 10) ((b'0' + n % 10) ∷ out)
]

unfoldable pub decimal : ℕ → Str
unfolding decimal_from
decimal n = decimal_from (suc n) n []

-- The value of the digits in front of a text, after `n`, and what follows them.
unfoldable pub read_digits : ℕ → Str → ℕ × Str
unfolding is_digit
read_digits n [] = (n, [])
read_digits n (c ∷ s) =
    let rest = read_digits (n * 10 + (c - b'0')) s in if is_digit c then rest else (n, c ∷ s)

read_digit : (n : ℕ) (out : Str) → read_digits (n / 10) ((b'0' + n % 10) ∷ out) ≡ read_digits n out
unfolding read_digits is_digit
read_digit n out =
    let e : n / 10 * 10 + (b'0' + n % 10 - b'0') ≡ n = omega arith in
    let d : (leb b'0' (b'0' + n % 10) && leb (b'0' + n % 10) b'9') ≡ true = ground arith in
    rw (e, d) refl

pub read_digits-decimal_from :
    (rounds n : ℕ) (out : Str)
    → n < rounds
    → read_digits 0 (decimal_from rounds n out) ≡ read_digits n out
unfolding decimal_from
read_digits-decimal_from zero n out h = absurd (omega arith)
read_digits-decimal_from (suc rounds) n out h = elim (Bool-cases (ltb n 10)) [
  | inl e ↦
      let small : n / 10 ≡ 0 = ground arith in
      rw (e, decimal_from)
        (ap (λ k. read_digits k ((b'0' + n % 10) ∷ out)) (omega (arith, small)) ∙ read_digit n out)
  | inr e ↦
      rw (e, decimal_from)
        (read_digits-decimal_from rounds (n / 10) ((b'0' + n % 10) ∷ out) (ground arith)
          ∙ read_digit n out)
]

pub read_digits-decimal :
    (n : ℕ) (out : Str) → read_digits 0 (decimal_from (suc n) n out) ≡ read_digits n out
read_digits-decimal n out = read_digits-decimal_from (suc n) n out (omega arith)

-- A printed number before a text is the printed number and then the text.
decimal_from-append :
    (rounds n : ℕ) (out rest : Str)
    → decimal_from rounds n out ++ rest ≡ decimal_from rounds n (out ++ rest)
unfolding decimal_from
decimal_from-append zero n out rest = refl
decimal_from-append (suc rounds) n out rest = elim (Bool-cases (ltb n 10)) [
  | inl e ↦ rw (e, decimal_from) refl
  | inr e ↦ rw (e, decimal_from) (decimal_from-append rounds (n / 10) ((b'0' + n % 10) ∷ out) rest)
]

-- A number is read back from its print, before a text that starts with no digit.
pub read_digits_print :
    (n : ℕ) (rest : Str)
    → read_digits n rest ≡ (n, rest)
    → read_digits 0 (decimal n ++ rest) ≡ (n, rest)
unfolding decimal
read_digits_print n rest h =
    ap (read_digits 0) (decimal_from-append (suc n) n [] rest) ∙ read_digits-decimal n rest ∙ h

abbrev StartsWithDigit : Str → Type 0
StartsWithDigit t = (c : ℕ) × (s : Str) × (t ≡ c ∷ s) × (is_digit c ≡ true)

decimal_from_first :
    (rounds n : ℕ) (out : Str) → n < rounds → StartsWithDigit (decimal_from rounds n out)
unfolding decimal_from is_digit
decimal_from_first zero n out h = absurd (omega arith)
decimal_from_first (suc rounds) n out h =
    let d : (leb b'0' (b'0' + n % 10) && leb (b'0' + n % 10) b'9') ≡ true = ground arith in
    elim (Bool-cases (ltb n 10)) [
      | inl e ↦ (b'0' + n % 10, out, rw (e, decimal_from) refl, d)
      | inr e ↦
          let (c, s, q, k) =
            decimal_from_first rounds (n / 10) ((b'0' + n % 10) ∷ out) (ground arith) in
          (c, s, rw (e, decimal_from) q, k)
    ]

-- A print starts with a digit.
pub decimal_first : (n : ℕ) → (c : ℕ) × (s : Str) × (decimal n ≡ c ∷ s) × (is_digit c ≡ true)
unfolding decimal
decimal_first n = decimal_from_first (suc n) n [] (omega arith)
