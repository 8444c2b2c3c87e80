-- ===== src/Wordpress/Paths/Plain.antt =====
-- Which paths extractInto writes to (examples/wordpress-client/main.go, extractInto).
use binfinity_addon_sdk.Prelude.{
  All, Bool, Bool-cases, List, Str, [], ap, append-nil, append_assoc, arith, codes, contains_byte,
  false, has_prefix, inl, inr, is_empty, refl, some, str_eq, str_eq_refl, sym, true, ℕ, ◌++◌, ◌==◌,
  ◌||◌, ◌∙◌, ◌∷◌, ◌≡◌, ◌⊎◌,
}
use binfinity_addon_sdk.Wordpress.Paths.{
  clean_parts, dot, dot_dot, is_up, join, push_first, push_part, reverse_onto, split, target, up,
}

-- A file name: not empty, without a slash, and neither "." nor "..".
abbrev pub IsName : Str → Type 0
IsName p =
    (is_empty p ≡ false)
    × (str_eq p dot ≡ false)
    × (str_eq p dot_dot ≡ false)
    × (contains_byte b'/' p ≡ false)

push_part_name :
    (rooted : Bool) (p : Str) (stack : List Str) → IsName p → push_part rooted p stack ≡ p ∷ stack
unfolding push_part
push_part_name rooted p stack h = rw (h.0, h.1, h.2) refl

clean_parts_names :
    (rooted : Bool) (stack ps : List Str)
    → All IsName ps
    → clean_parts rooted stack ps ≡ reverse_onto stack ps
unfolding clean_parts
clean_parts_names rooted stack [] h = refl
clean_parts_names rooted stack (p ∷ ps) h =
    rw (push_part_name rooted p stack h.0) (clean_parts_names rooted (p ∷ stack) ps h.1)

push_first-split : (c : ℕ) (s : Str) → (c == b'/') ≡ false → split (c ∷ s) ≡ push_first c (split s)
unfolding split
push_first-split c s h = rw h refl

split_slash : (p s : Str) → contains_byte b'/' p ≡ false → split (p ++ (b'/' ∷ s)) ≡ p ∷ split s
unfolding split contains_byte
split_slash [] s h = refl
split_slash (c ∷ p) s h = ground (arith, split_slash p s)

split_name : (p : Str) → contains_byte b'/' p ≡ false → split p ≡ p ∷ []
unfolding split contains_byte
split_name [] h = refl
split_name (c ∷ p) h = ground (arith, split_name p)

split-join : (p : Str) (ps : List Str) → All IsName (p ∷ ps) → split (join (p ∷ ps)) ≡ p ∷ ps
unfolding join
split-join p [] h = split_name p h.0.3
split-join p (q ∷ ps) h =
    split_slash p (join (q ∷ ps)) h.0.3 ∙ ap (λ rest. p ∷ rest) (split-join q ps h.1)

split-join_slash :
    (p : Str) (ps : List Str)
    → All IsName (p ∷ ps)
    → split (join (p ∷ ps) ++ (b'/' ∷ [])) ≡ (p ∷ ps) ++ ([] ∷ [])
unfolding join split
split-join_slash p [] h = split_slash p [] h.0.3
split-join_slash p (q ∷ ps) h =
    ap split (append_assoc p (b'/' ∷ join (q ∷ ps)) (b'/' ∷ []))
    ∙ split_slash p (join (q ∷ ps) ++ (b'/' ∷ [])) h.0.3
    ∙ ap (λ rest. p ∷ rest) (split-join_slash q ps h.1)

clean_parts_trailing :
    (rooted : Bool) (stack ps : List Str)
    → All IsName ps
    → clean_parts rooted stack (ps ++ ([] ∷ [])) ≡ reverse_onto stack ps
unfolding clean_parts
clean_parts_trailing rooted stack [] h = refl
clean_parts_trailing rooted stack (p ∷ ps) h =
    ap (λ st. clean_parts rooted st (ps ++ ([] ∷ []))) (push_part_name rooted p stack h.0)
    ∙ clean_parts_trailing rooted (p ∷ stack) ps h.1

no_slash_first :
    (p s : Str)
    → is_empty p ≡ false
    → contains_byte b'/' p ≡ false
    → has_prefix (p ++ s) (codes "/") ≡ false
unfolding has_prefix contains_byte
no_slash_first [] s h k = cc
no_slash_first (c ∷ p) s h k = ground arith

not_rooted :
    (p : Str) (ps : List Str) (s : Str)
    → All IsName (p ∷ ps)
    → has_prefix (join (p ∷ ps) ++ s) (codes "/") ≡ false
unfolding join
not_rooted p [] s h = no_slash_first p s h.0.0 h.0.3
not_rooted p (q ∷ ps) s h =
    ap (λ t. has_prefix t (codes "/")) (append_assoc p (b'/' ∷ join (q ∷ ps)) s)
    ∙ no_slash_first p ((b'/' ∷ join (q ∷ ps)) ++ s) h.0.0 h.0.3

-- The path of a file below the root is read back from its text.
pub target-join :
    (p : Str) (ps : List Str) → All IsName (p ∷ ps) → target (join (p ∷ ps)) ≡ some (p ∷ ps)
unfolding target is_up
target-join p ps h =
    let flat : has_prefix (join (p ∷ ps)) (codes "/") ≡ false =
      ap (λ s. has_prefix s (codes "/")) (sym (append-nil (join (p ∷ ps))))
      ∙ not_rooted p ps [] h in
    rw (flat, split-join p ps h, clean_parts_names false [] (p ∷ ps) h, h.0.2) refl

-- So is that of a directory, with its trailing slash.
pub target-join_slash :
    (p : Str) (ps : List Str)
    → All IsName (p ∷ ps)
    → target (join (p ∷ ps) ++ (b'/' ∷ [])) ≡ some (p ∷ ps)
unfolding target is_up
target-join_slash p ps h =
    rw
      (
        not_rooted p ps (b'/' ∷ []) h,
        split-join_slash p ps h,
        clean_parts_trailing false [] (p ∷ ps) h,
        h.0.2,
      )
      refl

-- The parts of a text hold no slash.
push_first_flat :
    (c : ℕ) (ps : List Str)
    → (c == b'/') ≡ false
    → All (λ p. contains_byte b'/' p ≡ false) ps
    → All (λ p. contains_byte b'/' p ≡ false) (push_first c ps)
unfolding push_first contains_byte
push_first_flat c [] e h = (rw e refl, tt)
push_first_flat c (p ∷ ps) e h = (rw (e, h.0) refl, h.1)

split_flat : (s : Str) → All (λ p. contains_byte b'/' p ≡ false) (split s)
unfolding split contains_byte
split_flat [] = (refl, tt)
split_flat (c ∷ s) = elim (Bool-cases (c == b'/')) [
  | inl e ↦ rw e (refl, split_flat s)
  | inr e ↦ rw e (push_first_flat c (split s) e (split_flat s))
]

-- Names, and below them parts "..".
abbrev IsStack : List Str → Type 0
IsStack [] = Unit
IsStack (p ∷ ps) = (IsName p × IsStack ps) ⊎ ((p ≡ dot_dot) × All (λ q. q ≡ dot_dot) ps)

ups-IsStack : (ps : List Str) → All (λ q. q ≡ dot_dot) ps → IsStack ps
ups-IsStack [] h = tt
ups-IsStack (p ∷ ps) h = inr (h.0, h.1)

dot_dot_no_name : (p : Str) → IsName p → p ≡ dot_dot → ⊥
unfolding str_eq
dot_dot_no_name p h e = let k : str_eq dot_dot dot_dot ≡ false = rw e at h.2 in cc

up-IsStack : (stack : List Str) → IsStack stack → IsStack (up false stack)
unfolding up
up-IsStack [] h = inr (refl, tt)
up-IsStack (p ∷ ps) (inl h) = rw h.0.2 h.1
up-IsStack (p ∷ ps) (inr h) = rw (h.0, str_eq_refl) (inr (refl, (refl, h.1)))

push_part-IsStack :
    (p : Str) (stack : List Str)
    → contains_byte b'/' p ≡ false
    → IsStack stack
    → IsStack (push_part false p stack)
unfolding push_part
push_part-IsStack p stack flat h = elim (Bool-cases (is_empty p || str_eq p dot)) [
  | inl e ↦ rw e h
  | inr e ↦ elim (Bool-cases (str_eq p dot_dot)) [
    | inl u ↦ rw (e, u) (up-IsStack stack h)
    | inr u ↦ rw (e, u) (inl ((ground arith, ground arith, u, flat), h))
  ]
]

ups_up :
    (stack ps : List Str)
    → All (λ q. q ≡ dot_dot) stack
    → is_up (reverse_onto stack (dot_dot ∷ ps)) ≡ true
unfolding is_up
ups_up [] ps h = str_eq_refl dot_dot
ups_up (q ∷ stack) ps h = rw h.0 (ups_up stack (dot_dot ∷ ps) h.1)

-- Where the lowest part is no "..", all parts are names.
stack_names :
    (stack ps : List Str)
    → IsStack stack
    → All IsName ps
    → is_up (reverse_onto stack ps) ≡ false
    → All IsName (reverse_onto stack ps)
unfolding is_up
stack_names [] ps h k e = k
stack_names (p ∷ stack) ps (inl h) k e = stack_names stack (p ∷ ps) h.1 (h.0, k) e
stack_names (p ∷ stack) ps (inr h) k e = absurd (cc (e, ups_up stack ps h.1, h.0))

clean_parts_safe :
    (stack ps : List Str)
    → All (λ p. contains_byte b'/' p ≡ false) ps
    → IsStack stack
    → is_up (clean_parts false stack ps) ≡ false
    → All IsName (clean_parts false stack ps)
unfolding clean_parts
clean_parts_safe stack [] flat h e = stack_names stack [] h tt e
clean_parts_safe stack (p ∷ ps) flat h e =
    clean_parts_safe (push_part false p stack) ps flat.1 (push_part-IsStack p stack flat.0 h) e

-- A path that extractInto does not reject goes, below wp-content, through parts that are each a
-- file name: not empty, without a slash, and neither "." nor "..".
pub target-IsName : (rel : Str) (ps : List Str) → target rel ≡ some ps → All IsName ps
unfolding target
target-IsName rel ps h = elim (Bool-cases (has_prefix rel (codes "/"))) [
  | inl e ↦ absurd (let k = rw e at h in cc)
  | inr e ↦ elim (Bool-cases (is_up (clean_parts false [] (split rel)))) [
    | inl u ↦ absurd (let k = rw (e, u) at h in cc)
    | inr u ↦
        let k : some (clean_parts false [] (split rel)) ≡ some ps = rw (e, u) at h in
        let q : clean_parts false [] (split rel) ≡ ps = cc in
        rw (← q) (clean_parts_safe [] (split rel) (split_flat rel) tt u)
  ]
]
