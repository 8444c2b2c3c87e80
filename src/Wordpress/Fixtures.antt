-- ===== src/Wordpress/Fixtures.antt =====
-- A wp-content tree and its walk, for the tests (examples/wordpress-client/main.go).
use binfinity_addon_sdk.Prelude.{
  Bool-cases, In, List, Str, [], ap, codes, contains_byte, inl, inr, refl, some, str_eq, sym, ◌++◌,
  ◌∙◌, ◌∷◌, ◌≡◌, ◌⊎◌,
}
use binfinity_addon_sdk.Outcome.{ok}
use binfinity_addon_sdk.Disk.{Node, file, folder}
use binfinity_addon_sdk.Wordpress.Tree.{TreePath, find, path_eq}
use binfinity_addon_sdk.Wordpress.Backup.{Visit, directory, regular}
use binfinity_addon_sdk.Wordpress.Kept.{Content, IsVisit, IsWalk, Parents}
use binfinity_addon_sdk.Wordpress.Grown.{path_eq_iff}
use binfinity_addon_sdk.Wordpress.Paths.Plain.{IsName}

abbrev pub names : List Str
names = codes "a.php" ∷ []

abbrev pub cache : List Str
cache = codes "cache" ∷ []

-- A file, and a directory that a backup excludes.
abbrev pub site_entries : List (TreePath × Node)
site_entries = ([], folder) ∷ (names, file (codes "x")) ∷ (cache, folder) ∷ []

abbrev pub content : Content
content p = find p site_entries

abbrev pub walked : List Visit
walked =
    record { path = []; info = directory }
    ∷ record { path = names; info = regular 5 (ok (codes "x")) }
    ∷ record { path = cache; info = directory }
    ∷ []

root_content : content [] ≡ some folder
unfolding find path_eq
root_content = refl

one_below : (c : Str) (ps : TreePath) (r : Str) (rs : TreePath) → c ∷ [] ≡ ps ++ (r ∷ rs) → ps ≡ []
one_below c [] r rs h = refl
one_below c (d ∷ []) r rs h = absurd (cc (h))
one_below c (d ∷ e ∷ ps) r rs h = absurd (cc (h))

one-Parents : (c : Str) → Parents content (c ∷ [])
one-Parents c ps r rs h = ap content (one_below c ps r rs h) ∙ root_content

found_walked :
    (p : TreePath) (n : Node)
    → content p ≡ some n
    → (p ≡ []) ⊎ ((v : Visit) × In v walked × (v.path ≡ p))
unfolding find
found_walked p n h = elim (Bool-cases (path_eq [] p)) [
  | inl e ↦ inl (sym ((path_eq_iff [] p).0 e))
  | inr e ↦ elim (Bool-cases (path_eq names p)) [
    | inl g ↦ inr (
      record { path = names; info = regular 5 (ok (codes "x")) },
      inr (inl refl),
      (path_eq_iff names p).0 g,
    )
    | inr g ↦ elim (Bool-cases (path_eq cache p)) [
      | inl k ↦ inr (
        record { path = cache; info = directory },
        inr (inr (inl refl)),
        (path_eq_iff cache p).0 k,
      )
      | inr k ↦ absurd (let q = rw (e, g, k) at h in cc)
    ]
  ]
]

a_name : IsName (codes "a.php")
unfolding str_eq contains_byte
a_name = (refl, refl, refl, refl)

cache_name : IsName (codes "cache")
unfolding str_eq contains_byte
cache_name = (refl, refl, refl, refl)

root-IsVisit : IsVisit content (record { path = []; info = directory })
root-IsVisit = record {
  node = root_content;
  names = tt;
  parents = λ ps r rs h. absurd (no_parts ps r rs h);
}
  where
    no_parts : (ps : TreePath) (r : Str) (rs : TreePath) → [] ≡ ps ++ (r ∷ rs) → ⊥
    no_parts [] r rs h = cc
    no_parts (p ∷ ps) r rs h = cc

names-IsVisit : IsVisit content (record { path = names; info = regular 5 (ok (codes "x")) })
names-IsVisit = record {
  node = unfold find in unfold path_eq in unfold str_eq in refl;
  names = (a_name, tt);
  parents = one-Parents (codes "a.php");
}

cache-IsVisit : IsVisit content (record { path = cache; info = directory })
cache-IsVisit = record {
  node = unfold find in unfold path_eq in unfold str_eq in refl;
  names = (cache_name, tt);
  parents = one-Parents (codes "cache");
}

pub content-IsWalk : IsWalk content walked
content-IsWalk = record {
  root = root_content;
  visits = (root-IsVisit, (names-IsVisit, (cache-IsVisit, tt)));
  complete = found_walked;
}
