-- ===== src/Wordpress/Emptied.antt =====
-- What clearDir leaves (examples/wordpress-client/main.go, clearDir).
use binfinity_addon_sdk.Prelude.{
  Bool-cases, In, List, Option, Str, [], arith, false, if◌then◌else◌, inl, inr, none, refl, some,
  str_eq, str_eq_iff, sym, ◌∙◌, ◌∷◌, ◌≡◌,
}
use binfinity_addon_sdk.Disk.{Node, folder}
use binfinity_addon_sdk.Wordpress.Tree.{
  Tree, TreePath, child_names, clear, clear_found, find, path_eq, remove_below, remove_names,
}
use binfinity_addon_sdk.Wordpress.Grown.{IsSound}
use binfinity_addon_sdk.Outbox.{sort}
use binfinity_addon_sdk.Outbox.View.{In-sort}

remove_below_root :
    (name : Str) (m : List (TreePath × Node)) → find [] (remove_below name m) ≡ find [] m
unfolding remove_below find path_eq
remove_below_root name [] = refl
remove_below_root name (([], v) ∷ m) = refl
remove_below_root name ((p ∷ ps, v) ∷ m) = ground (arith, remove_below_root name m)

find-remove_below :
    (name c : Str) (cs : TreePath) (m : List (TreePath × Node))
    → find (c ∷ cs) (remove_below name m) ≡ (if str_eq c name then none else find (c ∷ cs) m)
unfolding remove_below find path_eq
find-remove_below name c cs [] = ground arith
find-remove_below name c cs (([], v) ∷ m) = find-remove_below name c cs m
find-remove_below name c cs ((p ∷ ps, v) ∷ m) =
    ground
      (arith, find-remove_below name c cs m, str_eq_iff p name, str_eq_iff c name, str_eq_iff p c)

-- Removing names takes away just the paths below them.
find-remove_names :
    (names : List Str) (t : Tree)
    → ((p : TreePath) → t.faults.remove_fails p ≡ false)
    → ((remove_names names t).1 ≡ none)
      × ((remove_names names t).0.faults ≡ t.faults)
      × (find [] (remove_names names t).0.entries ≡ find [] t.entries)
      × ((c : Str) (cs : TreePath) (n : Node)
          → find (c ∷ cs) (remove_names names t).0.entries ≡ some n
          → (find (c ∷ cs) t.entries ≡ some n) × (In c names → ⊥))
unfolding remove_names
find-remove_names [] t ok = (refl, refl, refl, λ c cs n h. (h, λ m. m))
find-remove_names (name ∷ names) t ok =
    let rest = find-remove_names names (record t { entries = remove_below name t.entries }) ok in
    rw (ok (name ∷ [])) (
      rest.0,
      rest.1,
      rest.2 ∙ remove_below_root name t.entries,
      λ c cs n h.
          let (found, unnamed) = rest.3 c cs n h in
          let e = find-remove_below name c cs t.entries in
          (
            ground (arith, found, e),
            λ m. elim m [ inl q ↦ cc (found, e, (str_eq_iff c name).1 q) | inr k ↦ unnamed k ],
          ),
    )

child_named :
    (c : Str) (cs : TreePath) (m : List (TreePath × Node)) (n : Node)
    → find (c ∷ cs) m ≡ some n
    → In c (child_names m)
unfolding child_names find path_eq
child_named c cs [] n h = absurd (cc (h))
child_named c cs (([], v) ∷ m) n h = child_named c cs m n h
child_named c cs ((p ∷ ps, v) ∷ m) n h = elim (Bool-cases (str_eq p c)) [
  | inl e ↦ inl (sym ((str_eq_iff p c).0 e))
  | inr e ↦ inr (child_named c cs m n (rw e at h))
]

no_node : (o : Option Node) → ((n : Node) → o ≡ some n → ⊥) → o ≡ none
no_node none h = refl
no_node (some n) h = absurd (h n refl)

-- What clearDir makes of a tree: nothing is left below wp-content.
pub record IsEmptied (t : Tree) (r : Tree × Option Str) : Type 0 where
  pub done : r.1 ≡ none
  pub faults : r.0.faults ≡ t.faults
  pub root : find [] r.0.entries ≡ some folder
  pub empty : (c : Str) (cs : TreePath) → find (c ∷ cs) r.0.entries ≡ none

removed-IsEmptied :
    (t : Tree)
    → IsSound t.faults
    → find [] t.entries ≡ some folder
    → IsEmptied t (remove_names (sort (child_names t.entries)) t)
removed-IsEmptied t ok root =
    let names = sort (child_names t.entries) in
    let (done, same, kept_root, below) = find-remove_names names t ok.removes in
    record {
      done = done;
      faults = same;
      root = kept_root ∙ root;
      empty = λ c cs. no_node (find (c ∷ cs) (remove_names names t).0.entries) λ n h.
          let (found, unnamed) = below c cs n h in
          unnamed ((In-sort c (child_names t.entries)).1 (child_named c cs t.entries n found));
    }

clear-remove_names :
    (t : Tree)
    → t.faults.read_dir_fails ≡ false
    → find [] t.entries ≡ some folder
    → clear t ≡ remove_names (sort (child_names t.entries)) t
unfolding clear
clear-remove_names t e root = simp (e, root, clear_found) refl

-- Where no call of the operating system fails, clearDir leaves wp-content as an empty directory.
pub clear-IsEmptied :
    (t : Tree) → IsSound t.faults → find [] t.entries ≡ some folder → IsEmptied t (clear t)
clear-IsEmptied t ok root = rw (clear-remove_names t ok.read_dir root) (removed-IsEmptied t ok root)
