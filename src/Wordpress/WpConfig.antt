-- ===== src/Wordpress/WpConfig.antt =====
-- The constants of wp-config.php (examples/wordpress-client/main.go, parseWPConfig). The pattern's
-- case folding is that of ASCII.
pub mod Found
pub mod Printed
pub mod Tests
use binfinity_addon_sdk.Prelude.{
  Bool, List, Option, Str, [], and_then, codes, cut_prefix, if◌then◌else◌, leb, length, none, some,
  str_eq, suc, zero, ℕ, ◌&&◌, ◌+◌, ◌-◌, ◌==◌, ◌||◌, ◌∷◌,
}
use binfinity_addon_sdk.Cli.{skip_blanks}

-- (?i)
abbrev lower : ℕ → ℕ
lower c = if leb 65 c && leb c 90 then c + 32 else c

-- a literal of the pattern, in lower case
unfoldable pub fold_prefix : Str → Str → Option Str
fold_prefix s [] = some s
fold_prefix [] (d ∷ p) = none
fold_prefix (c ∷ s) (d ∷ p) = let rest = fold_prefix s p in if lower c == d then rest else none

-- ['"]
abbrev pub is_quote : ℕ → Bool
is_quote c = c == 39 || c == 34

unfoldable pub after_quote : Str → Option Str
after_quote [] = none
after_quote (c ∷ s) = if is_quote c then some s else none

-- the alternatives, as they are matched and in upper case
abbrev pub keys : List (Str × Str)
keys =
    (codes "db_name", codes "DB_NAME")
    ∷ (codes "db_user", codes "DB_USER")
    ∷ (codes "db_password", codes "DB_PASSWORD")
    ∷ (codes "db_host", codes "DB_HOST")
    ∷ []

unfoldable pub match_key : List (Str × Str) → Str → Option (Str × Str)
unfolding fold_prefix
match_key [] s = none
match_key ((low, key) ∷ ks) s = elim (fold_prefix s low) [
  | some rest ↦ some (key, rest)
  | none ↦ match_key ks s
]

-- \s*,\s*
unfoldable pub after_comma : Str → Option Str
unfolding skip_blanks cut_prefix
after_comma s = and_then (cut_prefix (skip_blanks s) (codes ",")) (λ rest. some (skip_blanks rest))

-- ([^'"]*)['"]
unfoldable pub take_value : Str → Option (Str × Str)
take_value [] = none
take_value (c ∷ s) =
    let rest = take_value s in
    if is_quote c then some ([], s) else and_then rest (λ r. some (c ∷ r.0, r.1))

-- The pattern from here: the key in upper case, the value, and what follows.
unfoldable pub match_define : Str → Option (Str × Str × Str)
unfolding fold_prefix skip_blanks after_quote match_key after_comma take_value
match_define s = and_then (fold_prefix s (codes "define(")) λ a.
    and_then (after_quote (skip_blanks a)) λ b. and_then (match_key keys b) λ k.
      and_then (after_quote k.1) λ c.
        and_then (after_comma c)
          λ d. and_then (after_quote d) λ e. and_then (take_value e) λ v. some (k.0, v.0, v.1)

-- FindAllStringSubmatch; the number is of the bytes that belong to the last match.
unfoldable pub find_all : ℕ → Str → List (Str × Str)
unfolding match_define
find_all skip [] = []
find_all (suc skip) (c ∷ s) = find_all skip s
find_all zero (c ∷ s) = elim (match_define (c ∷ s)) [
  | none ↦ find_all zero s
  | some m ↦ (m.0, m.1) ∷ find_all (length s - length m.2) s
]

-- the map's value for a key, empty if it has none; the last entry counts
unfoldable pub last_value : List (Str × Str) → Str → Str → Str
unfolding str_eq
last_value [] key found = found
last_value ((k, v) ∷ m) key found = last_value m key (if str_eq k key then v else found)

-- The argument is the file's text, `none` if it cannot be read.
unfoldable pub parse_wp_config : Option Str → Str → Str
unfolding find_all last_value
parse_wp_config none key = []
parse_wp_config (some text) key = last_value (find_all 0 text) key []
