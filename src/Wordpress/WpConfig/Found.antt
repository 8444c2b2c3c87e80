-- ===== src/Wordpress/WpConfig/Found.antt =====
-- The calls of define that FindAllStringSubmatch finds in a file (examples/wordpress-client/main.go,
-- parseWPConfig).
use binfinity_addon_sdk.Prelude.{
  All, List, Str, [], ap, append_assoc, arith, codes, contains_byte, false, length, length-append,
  map, none, refl, some, str_eq, str_eq_refl, subst, sym, ℕ, ◌++◌, ◌-◌, ◌∙◌, ◌∷◌, ◌≡◌,
}
use binfinity_addon_sdk.Wordpress.WpConfig.{
  find_all, fold_prefix, last_value, match_define, parse_wp_config,
}
use binfinity_addon_sdk.Wordpress.WpConfig.Printed.{
  Define, IsDefine, Key, call_text, key_part, key_text, match_define_print,
}

-- No opening parenthesis.
abbrev pub IsClear : Str → Type 0
IsClear s = contains_byte b'(' s ≡ false

fold_prefix_later :
    (c d : ℕ) (s p : Str) → fold_prefix s p ≡ none → fold_prefix (c ∷ s) (d ∷ p) ≡ none
unfolding fold_prefix
fold_prefix_later c d s p h = ground arith

fold_prefix_clear : (s p : Str) → IsClear s → fold_prefix s (p ++ codes "(") ≡ none
unfolding fold_prefix contains_byte
fold_prefix_clear [] [] h = refl
fold_prefix_clear [] (d ∷ p) h = refl
fold_prefix_clear (c ∷ s) [] h = ground arith
fold_prefix_clear (c ∷ s) (d ∷ p) h =
    fold_prefix_later c d s (p ++ codes "(") (fold_prefix_clear s p (ground arith))

-- Neither this nor what it ends in, with the parenthesis, starts the text.
Rejects : Str → Str → Type 0
Rejects t [] = fold_prefix t (codes "(") ≡ none
Rejects t (d ∷ p) = (fold_prefix t ((d ∷ p) ++ codes "(") ≡ none) × Rejects t p

fold_prefix_early :
    (w p t : Str) → IsClear w → Rejects t p → fold_prefix (w ++ t) (p ++ codes "(") ≡ none
unfolding Rejects fold_prefix contains_byte
fold_prefix_early [] [] t h r = r
fold_prefix_early [] (d ∷ p) t h r = r.0
fold_prefix_early (c ∷ w) [] t h r = ground arith
fold_prefix_early (c ∷ w) (d ∷ p) t h r =
    fold_prefix_later c d (w ++ t) (p ++ codes "(") (fold_prefix_early w p t (ground arith) r.1)

match_define_early :
    (c : ℕ) (w t : Str) → IsClear (c ∷ w) → match_define (c ∷ (w ++ (codes "define(" ++ t))) ≡ none
unfolding match_define contains_byte Rejects fold_prefix
match_define_early c w t h =
    let early : fold_prefix (c ∷ (w ++ (codes "define(" ++ t))) (codes "define(") ≡ none =
      fold_prefix_later c b'd' (w ++ (codes "define(" ++ t)) (codes "efine(") (
        fold_prefix_early w (codes "efine") (codes "define(" ++ t) (ground arith)
          (refl, (refl, (refl, (refl, (refl, refl)))))) in
    rw early refl

match_define_clear : (s : Str) → IsClear s → match_define s ≡ none
unfolding match_define
match_define_clear s h = rw (fold_prefix_clear s (codes "define") h) refl

find_all-none : (c : ℕ) (s : Str) → match_define (c ∷ s) ≡ none → find_all 0 (c ∷ s) ≡ find_all 0 s
unfolding find_all
find_all-none c s e = rw (find_all, e) refl

find_all_clear : (s : Str) → IsClear s → find_all 0 s ≡ []
unfolding find_all contains_byte
find_all_clear [] h = refl
find_all_clear (c ∷ s) h =
    find_all-none c s (match_define_clear (c ∷ s) h) ∙ find_all_clear s (ground arith)

find_all_before :
    (w t : Str)
    → IsClear w
    → find_all 0 (w ++ (codes "define(" ++ t)) ≡ find_all 0 (codes "define(" ++ t)
unfolding contains_byte
find_all_before [] t h = refl
find_all_before (c ∷ w) t h =
    find_all-none c (w ++ (codes "define(" ++ t)) (match_define_early c w t h)
    ∙ find_all_before w t (ground arith)

find_all-some :
    (c : ℕ) (s k v t : Str)
    → match_define (c ∷ s) ≡ some (k, v, t)
    → find_all 0 (c ∷ s) ≡ (k, v) ∷ find_all (length s - length t) s
unfolding find_all
find_all-some c s k v t e = rw (find_all, e) refl

find_all_drop : (a s : Str) → find_all (length a) (a ++ s) ≡ find_all 0 s
unfolding find_all
find_all_drop [] s = refl
find_all_drop (c ∷ a) s = find_all_drop a s

find_all_after : (a s : Str) → find_all (length (a ++ s) - length s) (a ++ s) ≡ find_all 0 s
find_all_after a s =
    let e : length (a ++ s) - length s ≡ length a = omega (arith, length-append a s) in
    rw e (find_all_drop a s)

-- The call without its first letter.
abbrev call_rest : Define → Str → Str
call_rest d s = codes "efine(" ++ (d.open_blanks ++ key_part d s)

call_rest-append : (d : Define) (s : Str) → call_rest d s ≡ call_rest d [] ++ s
call_rest-append d s = simp append_assoc

-- The file: the calls with what stands before each, and the text after the last.
unfoldable pub file_text : List Define → Str → Str
file_text [] tail = tail
file_text (d ∷ ds) tail = d.before ++ call_text d (file_text ds tail)

abbrev pub entries : List Define → List (Str × Str)
entries ds = map (λ d. (key_text d.key, d.value)) ds

find_all_call :
    (d : Define) (s : Str)
    → IsDefine d
    → find_all 0 (d.before ++ call_text d s) ≡ (key_text d.key, d.value) ∷ find_all 0 s
find_all_call d s h =
    find_all_before d.before (d.open_blanks ++ key_part d s) h.plain_before
    ∙ (find_all-some b'd' (call_rest d s) (key_text d.key) d.value s (match_define_print d s h)
        ∙ ap (λ m. (key_text d.key, d.value) ∷ m)
            (subst (λ x. find_all (length x - length s) x ≡ find_all 0 s)
              (sym (call_rest-append d s)) (find_all_after (call_rest d []) s)))

pub find_all_print :
    (ds : List Define) (tail : Str)
    → All IsDefine ds
    → IsClear tail
    → find_all 0 (file_text ds tail) ≡ entries ds
unfolding file_text
find_all_print [] tail h e = find_all_clear tail e
find_all_print (d ∷ ds) tail h e =
    find_all_call d (file_text ds tail) h.0
    ∙ ap (λ m. (key_text d.key, d.value) ∷ m) (find_all_print ds tail h.1 e)

-- The call does not define the constant.
abbrev pub IsOther : Key → Define → Type 0
IsOther k d = str_eq (key_text d.key) (key_text k) ≡ false

last_value_others :
    (k : Key) (ds : List Define) (found : Str)
    → All (IsOther k) ds
    → last_value (entries ds) (key_text k) found ≡ found
unfolding last_value
last_value_others k [] found h = refl
last_value_others k (d ∷ ds) found h = rw (last_value, h.0) (last_value_others k ds found h.1)

last_value_entries :
    (before : List Define) (d : Define) (after : List Define) (found : Str)
    → All (IsOther d.key) after
    → last_value (entries (before ++ (d ∷ after))) (key_text d.key) found ≡ d.value
unfolding last_value
last_value_entries [] d after found h =
    rw (last_value, str_eq_refl (key_text d.key)) (last_value_others d.key after d.value h)
last_value_entries (e ∷ before) d after found h = last_value_entries before d after _ h

-- Take a file of calls of define, each for one of the four constants with a value without quotes,
-- with blanks and either quote around the parts, no other opening parenthesis before or between
-- them, and none after them. parseWPConfig gives a constant the value of the last call that
-- defines it.
pub parse_wp_config_print :
    (before : List Define) (d : Define) (after : List Define) (tail : Str)
    → All IsDefine (before ++ (d ∷ after))
    → IsClear tail
    → All (IsOther d.key) after
    → parse_wp_config (some (file_text (before ++ (d ∷ after)) tail)) (key_text d.key) ≡ d.value
unfolding parse_wp_config
parse_wp_config_print before d after tail h clear others =
    rw (find_all_print (before ++ (d ∷ after)) tail h clear)
      (last_value_entries before d after [] others)
