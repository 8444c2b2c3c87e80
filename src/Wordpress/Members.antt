-- ===== src/Wordpress/Members.antt =====
-- Which tar members are the dump and which are content (examples/wordpress-client/main.go).
use binfinity_addon_sdk.Prelude.{
  Option-cases, Str, [], arith, codes, contains_byte, cut_prefix, false, has_prefix, inl, inr, refl,
  some, str_eq, true, ℕ, ◌==◌, ◌∷◌, ◌≡◌,
}
use binfinity_addon_sdk.Wordpress.{content_rel, is_db_dump}

cut_first : (a b : ℕ) (s p rel : Str) → cut_prefix (a ∷ s) (b ∷ p) ≡ some rel → (a == b) ≡ true
unfolding cut_prefix
cut_first a b s p rel h = ground arith

cut_contains :
    (c : ℕ) (s p rel : Str)
    → cut_prefix s p ≡ some rel
    → contains_byte c p ≡ true
    → contains_byte c s ≡ true
unfolding cut_prefix contains_byte
cut_contains c s [] rel h k = cc
cut_contains c [] (b ∷ p) rel h k = cc
cut_contains c (a ∷ s) (b ∷ p) rel h k = ground (arith, cut_contains c s p rel)

-- A name that starts with a byte other than 'd', and holds a slash, is no dump.
no_dump_name :
    (a : ℕ) (s : Str)
    → (a == b'd') ≡ false
    → contains_byte b'/' (a ∷ s) ≡ true
    → is_db_dump (a ∷ s) ≡ false
unfolding is_db_dump str_eq has_prefix
no_dump_name a s h k = ground arith

prefix_no_dump :
    (b : ℕ) (p name rel : Str)
    → (b == b'd') ≡ false
    → contains_byte b'/' (b ∷ p) ≡ true
    → cut_prefix name (b ∷ p) ≡ some rel
    → is_db_dump name ≡ false
unfolding cut_prefix
prefix_no_dump b p [] rel h k cut = cc
prefix_no_dump b p (a ∷ s) rel h k cut =
    no_dump_name a s (ground (arith, cut_first a b s p rel cut))
      (cut_contains b'/' (a ∷ s) (b ∷ p) rel cut k)

-- A tar member whose name belongs to the content tree is no database dump.
pub content_no_dump : (name rel : Str) → content_rel name ≡ some rel → is_db_dump name ≡ false
unfolding content_rel
content_no_dump name rel h = elim (Option-cases (cut_prefix name (codes "files/"))) [
  | inr (r, e) ↦ prefix_no_dump b'f' (codes "iles/") name r refl (unfold contains_byte in refl) e
  | inl e ↦
      prefix_no_dump b'w' (codes "p-content/") name rel refl (unfold contains_byte in refl)
        (rw e at h)
]
