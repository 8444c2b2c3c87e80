-- ===== src/Wordpress/WpConfig/Printed.antt =====
-- What parseWPConfig reads from a file (examples/wordpress-client/main.go, parseWPConfig).
use binfinity_addon_sdk.Prelude.{
  All, Str, [], arith, codes, contains_byte, cut_prefix, false, refl, some, true, ℕ, ◌++◌, ◌∷◌, ◌≡◌,
}
use binfinity_addon_sdk.Cli.{skip_blanks}
use binfinity_addon_sdk.Cli.Stored.{IsBlank}
use binfinity_addon_sdk.Wordpress.WpConfig.{
  after_comma, after_quote, fold_prefix, is_quote, keys, lower, match_define, match_key, take_value,
}

abbrev IsQuote : ℕ → Type 0
IsQuote c = is_quote c ≡ true

-- A value has no quotes.
abbrev pub IsPlain : Str → Type 0
IsPlain v = All (λ c. is_quote c ≡ false) v

take_value_print :
    (v : Str) (q : ℕ) (rest : Str)
    → IsPlain v
    → IsQuote q
    → take_value (v ++ (q ∷ rest)) ≡ some (v, rest)
unfolding take_value
take_value_print [] q rest h e = rw e refl
take_value_print (c ∷ v) q rest h e = rw (h.0, take_value_print v q rest h.1 e) refl

fold_prefix_same : (p s : Str) → All (λ c. lower c ≡ c) p → fold_prefix (p ++ s) p ≡ some s
unfolding fold_prefix
fold_prefix_same [] s h = refl
fold_prefix_same (c ∷ p) s h = ground (arith, fold_prefix_same p s h.1)

-- One of the four constants.
pub data Key : Type 0 where
  db_name db_user db_password db_host : Key

abbrev pub key_text : Key → Str
key_text db_name = codes "DB_NAME"
key_text db_user = codes "DB_USER"
key_text db_password = codes "DB_PASSWORD"
key_text db_host = codes "DB_HOST"

match_key_print : (k : Key) (s : Str) → match_key keys (key_text k ++ s) ≡ some (key_text k, s)
unfolding match_key fold_prefix
match_key_print db_name s = refl
match_key_print db_user s = refl
match_key_print db_password s = refl
match_key_print db_host s = refl

skip_blanks_quote :
    (blanks : Str) (q : ℕ) (s : Str)
    → IsBlank blanks
    → IsQuote q
    → skip_blanks (blanks ++ (q ∷ s)) ≡ q ∷ s
unfolding skip_blanks
skip_blanks_quote [] q s h e = ground arith
skip_blanks_quote (b ∷ blanks) q s h e = rw h.0 (skip_blanks_quote blanks q s h.1 e)

skip_blanks_comma :
    (blanks s : Str) → IsBlank blanks → skip_blanks (blanks ++ (b',' ∷ s)) ≡ b',' ∷ s
unfolding skip_blanks
skip_blanks_comma [] s h = refl
skip_blanks_comma (b ∷ blanks) s h = rw h.0 (skip_blanks_comma blanks s h.1)

after_quote_print : (q : ℕ) (s : Str) → IsQuote q → after_quote (q ∷ s) ≡ some s
unfolding after_quote
after_quote_print q s e = rw e refl

-- A call of define, with its blanks and quotes, and what stands before it.
pub record Define : Type 0 where
  pub before : Str
  pub open_blanks : Str
  pub key : Key
  pub before_comma : Str
  pub after_blanks : Str
  pub value : Str
  pub key_open : ℕ
  pub key_close : ℕ
  pub value_open : ℕ
  pub value_close : ℕ

pub record IsDefine (d : Define) : Type 0 where
  pub plain_before : contains_byte b'(' d.before ≡ false
  pub blank_open : IsBlank d.open_blanks
  pub blank_before : IsBlank d.before_comma
  pub blank_after : IsBlank d.after_blanks
  pub plain_value : IsPlain d.value
  pub quotes :
      IsQuote d.key_open × IsQuote d.key_close × IsQuote d.value_open × IsQuote d.value_close

abbrev pub value_text : Define → Str → Str
value_text d s = d.value_open ∷ (d.value ++ (d.value_close ∷ s))

abbrev pub comma_text : Define → Str → Str
comma_text d s = d.before_comma ++ (b',' ∷ (d.after_blanks ++ value_text d s))

abbrev pub key_part : Define → Str → Str
key_part d s = d.key_open ∷ (key_text d.key ++ (d.key_close ∷ comma_text d s))

abbrev pub call_text : Define → Str → Str
call_text d s = codes "define(" ++ (d.open_blanks ++ key_part d s)

after_comma_print :
    (d : Define) (s : Str) → IsDefine d → after_comma (comma_text d s) ≡ some (value_text d s)
unfolding after_comma cut_prefix
after_comma_print d s h =
    rw
      (
        skip_blanks_comma d.before_comma (d.after_blanks ++ value_text d s) h.blank_before,
        skip_blanks_quote d.after_blanks d.value_open (d.value ++ (d.value_close ∷ s)) h.blank_after
            h.quotes.2,
      )
      refl

pub match_define_print :
    (d : Define) (s : Str)
    → IsDefine d
    → match_define (call_text d s) ≡ some (key_text d.key, d.value, s)
unfolding match_define
match_define_print d s h =
    rw
      (
        skip_blanks_quote d.open_blanks d.key_open
            (key_text d.key ++ (d.key_close ∷ comma_text d s)) h.blank_open h.quotes.0,
        after_quote_print d.key_open (key_text d.key ++ (d.key_close ∷ comma_text d s)) h.quotes.0,
        match_key_print d.key (d.key_close ∷ comma_text d s),
        after_quote_print d.key_close (comma_text d s) h.quotes.1,
        after_comma_print d s h,
        after_quote_print d.value_open (d.value ++ (d.value_close ∷ s)) h.quotes.2,
        take_value_print d.value d.value_close s h.plain_value h.quotes.3,
      )
      refl
