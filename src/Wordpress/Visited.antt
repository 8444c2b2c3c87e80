-- ===== src/Wordpress/Visited.antt =====
-- What a visit of the walk gives to the backup (examples/wordpress-client/main.go, addContent).
use binfinity_addon_sdk.Prelude.{
  Bool, Bool-cases, List, Str, [], codes, false, if◌then◌else◌, inl, inr, none, refl, some, true,
  ◌++◌, ◌∷◌, ◌≡◌, ◌⊎◌,
}
use binfinity_addon_sdk.Disk.{Node, file, folder}
use binfinity_addon_sdk.Outcome.{err, ok}
use binfinity_addon_sdk.Wordpress.Paths.{join}
use binfinity_addon_sdk.Wordpress.Tree.{TreePath}
use binfinity_addon_sdk.Wordpress.Backup.{
  Action, Info, Visit, directory, is_excluded, is_hidden, pass, regular, special, stop, unreadable,
  visit, visit_action, write_member,
}
use binfinity_addon_sdk.Wordpress.Kept.{Content, IsVisit, kept, node_of, unless_dir}

unless_dir-none : (b : Bool) → unless_dir b none ≡ none
unless_dir-none true = refl
unless_dir-none false = refl

unless_dir_file : (b : Bool) (bytes : Str) → unless_dir b (some (file bytes)) ≡ some (file bytes)
unless_dir_file true bytes = refl
unless_dir_file false bytes = refl

module _ (excludes : List Str) (content : Content) where
  -- A hidden path is not kept.
  hidden_out :
      (c : Str) (cs : TreePath)
      → is_hidden excludes [] (c ∷ cs) ≡ true
      → kept excludes content (c ∷ cs) ≡ none
  hidden_out c cs h = rw h refl

  unread_out :
      (c : Str) (cs : TreePath) → content (c ∷ cs) ≡ none → kept excludes content (c ∷ cs) ≡ none
  unread_out c cs h = elim (Bool-cases (is_hidden excludes [] (c ∷ cs))) [
    | inl e ↦ rw e refl
    | inr e ↦ rw (e, h) (unless_dir-none (is_excluded excludes (join (c ∷ cs))))
  ]

  pub file_kept :
      (c : Str) (cs : TreePath) (bytes : Str)
      → is_hidden excludes [] (c ∷ cs) ≡ false
      → content (c ∷ cs) ≡ some (file bytes)
      → kept excludes content (c ∷ cs) ≡ some (file bytes)
  file_kept c cs bytes e h =
      rw (e, h) (unless_dir_file (is_excluded excludes (join (c ∷ cs))) bytes)

  -- What the callback's action says of the path.
  abbrev pub Says : TreePath → Action → Type 0
  Says p pass = (n : Node) → kept excludes content p ≡ some n → p ≡ []
  Says p (stop e) = Unit
  Says p (write_member m) =
      (c : Str) × (cs : TreePath) × (p ≡ c ∷ cs)
      × (((m.is_dir ≡ true)
            × (m.name ≡ codes "files/" ++ (join (c ∷ cs) ++ codes "/"))
            × (kept excludes content (c ∷ cs) ≡ some folder))
          ⊎ ((m.is_dir ≡ false)
              × (m.name ≡ codes "files/" ++ join (c ∷ cs))
              × (kept excludes content (c ∷ cs) ≡ some (file m.bytes))))

  out-Says : (p : TreePath) → kept excludes content p ≡ none → Says p pass
  out-Says p h n k = absurd (cc (h, k))

  below-Says :
      (c : Str) (cs : TreePath) (info : Info)
      → is_hidden excludes [] (c ∷ cs) ≡ false
      → content (c ∷ cs) ≡ node_of info
      → Says (c ∷ cs) (visit_action excludes none (c ∷ cs) info)
  unfolding visit_action
  below-Says c cs directory e h = elim (Bool-cases (is_excluded excludes (join (c ∷ cs)))) [
    | inl x ↦ rw x (out-Says (c ∷ cs) (rw (e, x, h) refl))
    | inr x ↦ rw x (c, cs, refl, inl (refl, refl, rw (e, x, h) refl))
  ]
  below-Says c cs (regular changed (ok bytes)) e h =
      (c, cs, refl, inr (refl, refl, file_kept c cs bytes e h))
  below-Says c cs (regular changed (err text)) e h = tt
  below-Says c cs special e h = out-Says (c ∷ cs) (unread_out c cs h)
  below-Says c cs (unreadable text) e h = tt

  path-Says :
      (p : TreePath) (info : Info)
      → content p ≡ node_of info
      → Says p (if is_hidden excludes [] p then pass else visit_action excludes none p info)
  unfolding visit_action is_hidden
  path-Says [] directory h = λ n k. refl
  path-Says [] (regular changed bytes) h = λ n k. refl
  path-Says [] special h = λ n k. refl
  path-Says [] (unreadable text) h = tt
  path-Says (c ∷ cs) info h = elim (Bool-cases (is_hidden excludes [] (c ∷ cs))) [
    | inl e ↦ rw e (out-Says (c ∷ cs) (hidden_out c cs e))
    | inr e ↦ rw e (below-Says c cs info e h)
  ]

  pub visit-Says : (v : Visit) → IsVisit content v → Says v.path (visit excludes none v)
  unfolding visit
  visit-Says v h = path-Says v.path v.info h.node
