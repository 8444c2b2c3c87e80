-- ===== src/Wordpress/Locate/Searched.antt =====
-- What searchWPConfig finds (examples/wordpress-client/main.go): the first file that is eligible, of
-- all the files below the base in the walk's order.
use binfinity_addon_sdk.Prelude.{
  Bool, Bool-cases, List, Option, Str, [], ap, false, if◌then◌else◌, inl, inr, map, none, not, refl,
  some, str_eq, true, ℕ, ◌&&◌, ◌++◌, ◌+◌, ◌∷◌, ◌≡◌,
}
use binfinity_addon_sdk.Wordpress.Locate.{
  Machine, Trail, Walked, WalkedList, below, config_name, entry, folder, found_or, found_text, here,
  is_skipped, leaf, no_nodes, search, search_in, search_nodes, search_wp_config, under,
}

unfoldable mutual
  pub files_of_node : Str → Walked → List Trail
  files_of_node name leaf = here name ∷ []
  files_of_node name (folder nodes) = map (below name) (files_of_nodes nodes)

  pub files_of_nodes : WalkedList → List Trail
  files_of_nodes no_nodes = []
  files_of_nodes (entry name node nodes) = files_of_node name node ++ files_of_nodes nodes

-- A file named wp-config.php, below directories that are not too deep and none of which is noisy.
abbrev pub is_eligible : ℕ → ℕ → Trail → Bool
is_eligible max_depth depth (here name) = str_eq name config_name
is_eligible max_depth depth (below name p) =
    not (is_skipped max_depth depth name) && is_eligible max_depth (depth + 1) p

unfoldable pub first : (Trail → Bool) → List Trail → Option Trail
first p [] = none
first p (x ∷ xs) = let rest = first p xs in if p x then some x else rest

first-append :
    (p : Trail → Bool) (xs ys : List Trail)
    → first p (xs ++ ys) ≡ found_or (first p xs) (first p ys)
unfolding first
first-append p [] ys = refl
first-append p (x ∷ xs) ys = elim (Bool-cases (p x)) [
  | inl e ↦ rw e refl
  | inr e ↦ rw (e, first-append p xs ys) refl
]

first_open :
    (m d : ℕ) (name : Str) (ps : List Trail)
    → is_skipped m d name ≡ false
    → first (is_eligible m d) (map (below name) ps) ≡ under name (first (is_eligible m (d + 1)) ps)
unfolding first
first_open m d name [] h = refl
first_open m d name (p ∷ ps) h = elim (Bool-cases (is_eligible m (d + 1) p)) [
  | inl e ↦ rw (h, e) refl
  | inr e ↦ rw (h, e) (first_open m d name ps h)
]

first_skipped :
    (m d : ℕ) (name : Str) (ps : List Trail)
    → is_skipped m d name ≡ true
    → first (is_eligible m d) (map (below name) ps) ≡ none
unfolding first
first_skipped m d name [] h = refl
first_skipped m d name (p ∷ ps) h = rw h (first_skipped m d name ps h)

mutual
  unfolding search files_of_node files_of_nodes first

  pub search_first :
      (m d : ℕ) (name : Str) (node : Walked)
      → search m d name node ≡ first (is_eligible m d) (files_of_node name node)
  search_first m d name leaf = refl
  search_first m d name (folder nodes) = elim (Bool-cases (is_skipped m d name)) [
    | inl e ↦ rw (e, first_skipped m d name (files_of_nodes nodes) e) refl
    | inr e ↦
        rw (e, first_open m d name (files_of_nodes nodes) e, search_nodes_first m (d + 1) nodes)
          refl
  ]

  search_nodes_first :
      (m d : ℕ) (nodes : WalkedList)
      → search_nodes m d nodes ≡ first (is_eligible m d) (files_of_nodes nodes)
  search_nodes_first m d no_nodes = refl
  search_nodes_first m d (entry name node nodes) =
      rw
        (
          first-append (is_eligible m d) (files_of_node name node) (files_of_nodes nodes),
          search_first m d name node,
          search_nodes_first m d nodes,
        )
        refl

abbrev pub files_below : Str → Option Walked → List Trail
files_below name none = []
files_below name (some node) = files_of_node name node

search_in_first :
    (base name : Str) (max_depth : ℕ) (node : Option Walked)
    → search_in base name max_depth node
      ≡ found_text base (first (is_eligible max_depth 0) (files_below name node))
unfolding search_in first
search_in_first base name max_depth none = refl
search_in_first base name max_depth (some node) =
    ap (found_text base) (search_first max_depth 0 name node)

-- searchWPConfig returns the path of the first file, among all the files below the base in the
-- walk's order, that is named wp-config.php and below directories none of which is too deep or has
-- a skipped name; and the empty path if there is none.
pub search_wp_config_first :
    (m : Machine) (base name : Str) (max_depth : ℕ)
    → search_wp_config m base name max_depth
      ≡ found_text base (first (is_eligible max_depth 0) (files_below name (m.node base)))
search_wp_config_first m base name max_depth = search_in_first base name max_depth (m.node base)
