-- ===== src/Cli/Stored.antt =====
-- How the stored size is read from the program's output (dataplane.go, bytesStoredRe).
use binfinity_addon_sdk.Prelude.{
  All, Str, [], ap, arith, codes, contains_byte, cut_prefix, decimal, decimal_first, false,
  half_word, if◌then◌else◌, is_digit, none, read_digits, read_digits_print, refl, some, sym, true,
  ℕ, ◌*◌, ◌++◌, ◌+◌, ◌-◌, ◌<◌, ◌==◌, ◌∙◌, ◌∷◌, ◌≡◌,
}
use binfinity_addon_sdk.Cli.{
  find_stored, first_found, first_number, is_blank, match_number, saturated, size_of, skip_blanks,
  stored_bytes, take_digits,
}

take_digits_read : (n : ℕ) (s : Str) → take_digits n s ≡ (read_digits n s).0
unfolding take_digits read_digits
take_digits_read n [] = refl
take_digits_read n (c ∷ s) = ground (arith, take_digits_read (n * 10 + (c - b'0')) s)

-- Only blanks.
abbrev pub IsBlank : Str → Type 0
IsBlank s = All (λ c. is_blank c ≡ true) s

digit_no_blank : (c : ℕ) → is_digit c ≡ true → is_blank c ≡ false
unfolding is_digit
digit_no_blank c h = ground arith

skip_blanks_digit :
    (blanks : Str) (c : ℕ) (s : Str)
    → IsBlank blanks
    → is_digit c ≡ true
    → skip_blanks (blanks ++ (c ∷ s)) ≡ c ∷ s
unfolding skip_blanks
skip_blanks_digit [] c s h d = rw (digit_no_blank c d) refl
skip_blanks_digit (b ∷ blanks) c s h d = rw h.0 (skip_blanks_digit blanks c s h.1 d)

first_number_digit :
    (c : ℕ) (s : Str) (n : ℕ)
    → is_digit c ≡ true
    → (read_digits 0 (c ∷ s)).0 ≡ n
    → n < half_word
    → first_number (c ∷ s) ≡ some n
unfolding first_number
first_number_digit c s n d e fits =
    let value : take_digits 0 (c ∷ s) ≡ n = take_digits_read 0 (c ∷ s) ∙ e in
    let small : saturated n ≡ n = ground arith in
    (λ i. if d i then some (saturated (value i)) else none) ∙ ap some small

match_number_print :
    (b : ℕ) (blanks : Str) (n : ℕ) (rest : Str)
    → IsBlank (b ∷ blanks)
    → n < half_word
    → read_digits n rest ≡ (n, rest)
    → match_number (some (b ∷ (blanks ++ (decimal n ++ rest)))) ≡ some n
unfolding match_number
match_number_print b blanks n rest h fits ends =
    let (c, s, e, d) = decimal_first n in
    let number : (read_digits 0 (c ∷ (s ++ rest))).0 ≡ n =
      ap (λ t. (read_digits 0 (t ++ rest)).0) (sym e)
      ∙ ap (λ (r : ℕ × Str). r.0) (read_digits_print n rest ends) in
    let skipped : skip_blanks (blanks ++ (decimal n ++ rest)) ≡ c ∷ (s ++ rest) =
      ap (λ t. skip_blanks (blanks ++ (t ++ rest))) e
      ∙ skip_blanks_digit blanks c (s ++ rest) h.1 d in
    rw (h.0, skipped) (first_number_digit c (s ++ rest) n d number fits)

no_match_other : (c : ℕ) (s p : Str) → (c == b'b') ≡ false → cut_prefix (c ∷ s) (b'b' ∷ p) ≡ none
unfolding cut_prefix
no_match_other c s p h = rw h refl

find_stored_later :
    (before s : Str) → contains_byte b'b' before ≡ false → find_stored (before ++ s) ≡ find_stored s
unfolding find_stored contains_byte match_number
find_stored_later [] s h = refl
find_stored_later (c ∷ before) s h =
    rw (no_match_other c (before ++ s) (codes "ytes stored:") (ground arith))
      (find_stored_later before s (ground arith))

find_label :
    (s : Str) (n : ℕ)
    → match_number (some s) ≡ some n
    → find_stored (codes "bytes stored:" ++ s) ≡ some n
unfolding find_stored
find_label s n h = ap (λ o. first_found o (find_stored (codes "ytes stored:" ++ s))) h

-- If the program's output has no "b" before "bytes stored:", and after it one or more blanks and
-- the decimal digits of n, with no digit next, the size read from it is n, for n below 2 ^ 63.
pub stored_bytes_print :
    (before : Str) (b : ℕ) (blanks : Str) (n : ℕ) (rest : Str)
    → contains_byte b'b' before ≡ false
    → IsBlank (b ∷ blanks)
    → n < half_word
    → read_digits n rest ≡ (n, rest)
    → stored_bytes (before ++ (codes "bytes stored:" ++ (b ∷ (blanks ++ (decimal n ++ rest))))) ≡ n
stored_bytes_print before b blanks n rest h blank fits ends = ap size_of (
    find_stored_later before (codes "bytes stored:" ++ (b ∷ (blanks ++ (decimal n ++ rest)))) h
    ∙ find_label (b ∷ (blanks ++ (decimal n ++ rest))) n
        (match_number_print b blanks n rest blank fits ends))
