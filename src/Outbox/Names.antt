-- ===== src/Outbox/Names.antt =====
-- The names of the outbox's files (outbox.go, safeName and path).
use binfinity_addon_sdk.Prelude.{
  All, Str, [], arith, codes, false, is_empty, map, refl, true, ℕ, ◌++◌, ◌∙◌, ◌∷◌, ◌≡◌,
}
use binfinity_addon_sdk.Outbox.{ext, file_name, is_safe, safe_name, safe_rune, tmp_name}

-- The bytes that safeName keeps; a slash and a dot are not among them.
abbrev pub IsSafe : ℕ → Type 0
IsSafe r = is_safe r ≡ true

safe_rune-IsSafe : (r : ℕ) → IsSafe (safe_rune r)
unfolding safe_rune is_safe
safe_rune-IsSafe r = ground arith

safe_rune_id : (r : ℕ) → IsSafe r → safe_rune r ≡ r
unfolding safe_rune
safe_rune_id r h = ground arith

All-map-safe_rune : (s : Str) → All IsSafe (map safe_rune s)
All-map-safe_rune [] = tt
All-map-safe_rune (r ∷ s) = (safe_rune-IsSafe r, All-map-safe_rune s)

map-safe_rune_id : (s : Str) → All IsSafe s → map safe_rune s ≡ s
map-safe_rune_id [] h = refl
map-safe_rune_id (r ∷ s) h = cc (safe_rune_id r h.0, map-safe_rune_id s h.1)

-- Whatever the id, its safe name is not empty and consists of ASCII letters, digits, '-' and '_'.
pub safe_name-IsSafe : (s : Str) → (is_empty (safe_name s) ≡ false) × All IsSafe (safe_name s)
unfolding safe_name is_safe
safe_name-IsSafe [] = (refl, ground arith)
safe_name-IsSafe (r ∷ s) = (refl, (safe_rune-IsSafe r, All-map-safe_rune s))

-- An id that is not empty and consists of ASCII letters, digits, '-' and '_' is its own safe name.
pub safe_name_id : (s : Str) → is_empty s ≡ false → All IsSafe s → safe_name s ≡ s
unfolding safe_name
safe_name_id [] e h = cc
safe_name_id (r ∷ s) e h = cc (safe_rune_id r h.0, map-safe_rune_id s h.1)

pub safe_name_idem : (s : Str) → safe_name (safe_name s) ≡ safe_name s
safe_name_idem s = safe_name_id _ (safe_name-IsSafe s).0 (safe_name-IsSafe s).1

ext-append : (s t : Str) → is_empty (ext t) ≡ false → ext (s ++ t) ≡ ext t
unfolding ext
ext-append [] t h = refl
ext-append (c ∷ s) t h = ground (arith, ext-append s t h)

pub ext-file_name : (id : Str) → ext (file_name id) ≡ codes ".json"
unfolding file_name
ext-file_name id =
    ext-append (safe_name id) (codes ".json") (unfold ext in refl) ∙ unfold ext in refl

pub ext-tmp_name : (id : Str) → ext (tmp_name id) ≡ codes ".tmp"
unfolding tmp_name
ext-tmp_name id = ext-append (file_name id) (codes ".tmp") (unfold ext in refl) ∙ unfold ext in refl
