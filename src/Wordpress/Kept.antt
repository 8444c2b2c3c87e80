-- ===== src/Wordpress/Kept.antt =====
-- What a full backup keeps of a wp-content tree (examples/wordpress-client/main.go, addContent).
-- Such a tree is given as the node at each path.
use binfinity_addon_sdk.Prelude.{
  All, Bool, In, List, Option, Str, [], ap, append-nil, append_assoc, arith, false, if◌then◌else◌,
  none, refl, some, sym, true, ◌++◌, ◌∙◌, ◌∷◌, ◌≡◌, ◌⊎◌,
}
use binfinity_addon_sdk.Outcome.{err, ok}
use binfinity_addon_sdk.Disk.{Node, file, folder}
use binfinity_addon_sdk.Wordpress.Paths.{join}
use binfinity_addon_sdk.Wordpress.Paths.Plain.{IsName}
use binfinity_addon_sdk.Wordpress.Tree.{TreePath, parent}
use binfinity_addon_sdk.Wordpress.Backup.{
  Info, Visit, directory, is_excluded, is_hidden, regular, special, unreadable,
}

abbrev pub Content : Type 0
Content = TreePath → Option Node

-- What can be read of a visit.
abbrev pub node_of : Info → Option Node
node_of directory = some folder
node_of (regular changed (ok bytes)) = some (file bytes)
node_of (regular changed (err e)) = none
node_of special = none
node_of (unreadable e) = none

-- The paths above are directories.
abbrev pub Parents : Content → TreePath → Type 0
Parents content p =
    (ps : TreePath) (r : Str) (rs : TreePath) → p ≡ ps ++ (r ∷ rs) → content ps ≡ some folder

pub record IsVisit (content : Content) (v : Visit) : Type 0 where
  pub node : content v.path ≡ node_of v.info
  pub names : All IsName v.path
  pub parents : Parents content v.path

-- The walk finds what there is, each path below directories.
pub record IsWalk (content : Content) (vs : List Visit) : Type 0 where
  pub root : content [] ≡ some folder
  pub visits : All (IsVisit content) vs
  pub complete :
      (p : TreePath) (n : Node)
      → content p ≡ some n
      → (p ≡ []) ⊎ ((v : Visit) × In v vs × (v.path ≡ p))

abbrev pub unless_dir : Bool → Option Node → Option Node
unless_dir true (some folder) = none
unless_dir true (some (file bytes)) = some (file bytes)
unless_dir true none = none
unless_dir false o = o

-- The content without the excluded directories and what is below them.
abbrev pub kept : List Str → Content → Content
kept excludes content [] = content []
kept excludes content (p ∷ ps) =
    if is_hidden excludes [] (p ∷ ps)
    then none
    else unless_dir (is_excluded excludes (join (p ∷ ps))) (content (p ∷ ps))

module _ (excludes : List Str) where
  hidden_prefix :
      (q ps rs : TreePath)
      → is_hidden excludes q (ps ++ rs) ≡ false
      → is_hidden excludes q ps ≡ false
  unfolding is_hidden
  hidden_prefix q [] rs h = refl
  hidden_prefix q (c ∷ []) rs h = refl
  hidden_prefix q (c ∷ d ∷ ps) rs h = ground (arith, hidden_prefix (q ++ (c ∷ [])) (d ∷ ps) rs)

  hidden_not_excluded :
      (q : TreePath) (c : Str) (ps : TreePath) (r : Str) (rs : TreePath)
      → is_hidden excludes q ((c ∷ ps) ++ (r ∷ rs)) ≡ false
      → is_excluded excludes (join (q ++ (c ∷ ps))) ≡ false
  unfolding is_hidden
  hidden_not_excluded q c [] r rs h = ground arith
  hidden_not_excluded q c (d ∷ ps) r rs h =
      ap (λ p. is_excluded excludes (join p)) (sym (append_assoc q (c ∷ []) (d ∷ ps)))
      ∙ hidden_not_excluded (q ++ (c ∷ [])) d ps r rs (ground arith)

  module _ (content : Content) (root : content [] ≡ some folder) where
    pub Parents-kept :
        (p : TreePath)
        → is_hidden excludes [] p ≡ false
        → Parents content p
        → Parents (kept excludes content) p
    Parents-kept p seen h [] r rs e = root
    Parents-kept p seen h (c ∷ ps) r rs e =
        let whole : is_hidden excludes [] ((c ∷ ps) ++ (r ∷ rs)) ≡ false =
          ap (is_hidden excludes []) (sym e) ∙ seen in
        rw (hidden_prefix [] (c ∷ ps) (r ∷ rs) whole, hidden_not_excluded [] c ps r rs whole)
          (h (c ∷ ps) r rs e)

-- Every directory on the way from `pre` down the path.
abbrev pub Folders : Content → TreePath → TreePath → Type 0
Folders content pre [] = content pre ≡ some folder
Folders content pre (c ∷ cs) = (content pre ≡ some folder) × Folders content (pre ++ (c ∷ [])) cs

Folders-of :
    (content : Content) (pre cs : TreePath)
    → ((front back : TreePath) → cs ≡ front ++ back → content (pre ++ front) ≡ some folder)
    → Folders content pre cs
Folders-of content pre [] h = ap content (sym (append-nil pre)) ∙ h [] [] refl
Folders-of content pre (c ∷ cs) h = (
  ap content (sym (append-nil pre)) ∙ h [] (c ∷ cs) refl,
  Folders-of content (pre ++ (c ∷ [])) cs (λ front back e.
      ap content (append_assoc pre (c ∷ []) front) ∙ h (c ∷ front) back (ap (λ p. c ∷ p) e)),
)

last_of : Str → TreePath → Str
last_of c [] = c
last_of c (d ∷ cs) = last_of d cs

parent_last : (c : Str) (cs : TreePath) → c ∷ cs ≡ parent (c ∷ cs) ++ (last_of c cs ∷ [])
unfolding parent last_of
parent_last c [] = refl
parent_last c (d ∷ cs) = ap (λ p. c ∷ p) (parent_last d cs)

parent_folder :
    (content : Content) (c : Str) (cs front back : TreePath)
    → Parents content (c ∷ cs)
    → parent (c ∷ cs) ≡ front ++ back
    → content front ≡ some folder
parent_folder content c cs front [] h e =
    h front (last_of c cs) []
      (parent_last c cs ∙ ap (λ p. p ++ (last_of c cs ∷ [])) (e ∙ append-nil front))
parent_folder content c cs front (b ∷ back) h e = h front b (back ++ (last_of c cs ∷ [])) (
    parent_last c cs
    ∙ ap (λ p. p ++ (last_of c cs ∷ [])) e
    ∙ append_assoc front (b ∷ back) (last_of c cs ∷ []))

pub Folders-parent :
    (content : Content) (c : Str) (cs : TreePath)
    → Parents content (c ∷ cs)
    → Folders content [] (parent (c ∷ cs))
Folders-parent content c cs h =
    Folders-of content [] (parent (c ∷ cs))
      (λ front back e. parent_folder content c cs front back h e)

pub Folders-whole :
    (content : Content) (p : TreePath)
    → content p ≡ some folder
    → Parents content p
    → Folders content [] p
Folders-whole content p k h = Folders-of content [] p (λ front back e. whole front back e)
  where
    whole : (front back : TreePath) → p ≡ front ++ back → content front ≡ some folder
    whole front [] e = ap content (sym (e ∙ append-nil front)) ∙ k
    whole front (b ∷ back) e = h front b back e
