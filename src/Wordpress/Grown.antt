-- ===== src/Wordpress/Grown.antt =====
-- How a restore fills a tree up to given content (examples/wordpress-client/main.go, extractInto).
use binfinity_addon_sdk.Prelude.{
  Bool-cases, Option, Str, [], ap, append-nil, append_assoc, arith, false, if◌then◌else◌, inl, inr,
  none, refl, some, str_eq_iff, sym, true, ◌++◌, ◌↔◌, ◌∙◌, ◌∷◌, ◌≡◌,
}
use binfinity_addon_sdk.Disk.{Node, file, folder}
use binfinity_addon_sdk.Wordpress.{Member}
use binfinity_addon_sdk.Wordpress.Tree.{
  Tree, TreeFaults, TreePath, ensure, ensure_found, extract_to, find, mkdir_all, mkdir_parent,
  parent, path_eq, put, unless_error, write_at, write_found,
}
use binfinity_addon_sdk.Wordpress.Kept.{Content, Folders, Folders-parent, Folders-whole, Parents}

pub path_eq_iff : (p q : TreePath) → (path_eq p q ≡ true) ↔ (p ≡ q)
unfolding path_eq
path_eq_iff [] [] = (λ h. refl, λ h. refl)
path_eq_iff [] (c ∷ q) = (λ h. cc, λ h. cc)
path_eq_iff (c ∷ p) [] = (λ h. cc, λ h. cc)
path_eq_iff (c ∷ p) (d ∷ q) = (
  λ h. ground (arith, path_eq_iff p q, str_eq_iff c d),
  λ h. ground (arith, path_eq_iff p q, str_eq_iff c d),
)

-- No call of the operating system fails.
pub record IsSound (f : TreeFaults) : Type 0 where
  pub read_dir : f.read_dir_fails ≡ false
  pub removes : (p : TreePath) → f.remove_fails p ≡ false
  pub mkdirs : (p : TreePath) → f.mkdir_fails p ≡ false
  pub writes : (p : TreePath) → f.write_fails p ≡ none

-- What the second tree has besides the first one's entries is content too.
pub record Grows (content : Content) (t u : Tree) : Type 0 where
  pub faults : u.faults ≡ t.faults
  pub keeps : (p : TreePath) (n : Node) → find p t.entries ≡ some n → find p u.entries ≡ some n
  pub only :
      ((p : TreePath) (n : Node) → find p t.entries ≡ some n → content p ≡ some n)
      → (p : TreePath) (n : Node) → find p u.entries ≡ some n
      → content p ≡ some n

-- All that is in the tree is content.
abbrev pub IsPart : Content → Tree → Type 0
IsPart content t = (p : TreePath) (n : Node) → find p t.entries ≡ some n → content p ≡ some n

pub Grows-refl : (content : Content) (t : Tree) → Grows content t t
Grows-refl content t = record { faults = refl; keeps = λ p n h. h; only = λ h. h }

pub Grows-trans :
    {content : Content} {t u v : Tree} → Grows content t u → Grows content u v → Grows content t v
Grows-trans g h = record {
  faults = h.faults ∙ g.faults;
  keeps = λ p n e. h.keeps p n (g.keeps p n e);
  only = λ e. h.only (g.only e);
}

pub find-put :
    (p q : TreePath) (v : Node) (t : Tree)
    → find q (put p v t).entries ≡ (if path_eq p q then some v else find q t.entries)
unfolding find
find-put p q v t = refl

put-Grows :
    (content : Content) (p : TreePath) (v : Node) (t : Tree)
    → IsPart content t
    → content p ≡ some v
    → Grows content t (put p v t) × (find p (put p v t).entries ≡ some v)
put-Grows content p v t part k = (
  record {
    faults = refl;
    keeps = λ q n e. elim (Bool-cases (path_eq p q)) [
      | inl s ↦ rw (find-put p q v t, s) (sym k ∙ ap content ((path_eq_iff p q).0 s) ∙ part q n e)
      | inr s ↦ rw (find-put p q v t, s) e
    ];
    only = λ part q n e. elim (Bool-cases (path_eq p q)) [
      | inl s ↦ ap content (sym ((path_eq_iff p q).0 s)) ∙ k ∙ rw (find-put p q v t, s) at e
      | inr s ↦ part q n (rw (find-put p q v t, s) at e)
    ];
  },
  rw (find-put p p v t, (path_eq_iff p p).1 refl) refl,
)

-- What a step that returns no error has made of a part of the content, with the node at a path.
module _ (content : Content) where
  pub record Makes (t : Tree) (p : TreePath) (v : Node) (r : Tree × Option Str) : Type 0 where
    pub done : r.1 ≡ none
    pub grows : Grows content t r.0
    pub there : find p r.0.entries ≡ some v

  ensure_found-Makes :
      (p : TreePath) (t : Tree) (o : Option Node)
      → IsSound t.faults
      → IsPart content t
      → content p ≡ some folder
      → find p t.entries ≡ o
      → Makes t p folder (ensure_found p t o)
  unfolding ensure_found
  ensure_found-Makes p t none ok part k e =
      let (g, there) = put-Grows content p folder t part k in
      rw (ok.mkdirs p) (record { done = refl; grows = g; there = there })
  ensure_found-Makes p t (some folder) ok part k e = record {
    done = refl;
    grows = Grows-refl content t;
    there = e;
  }
  ensure_found-Makes p t (some (file bytes)) ok part k e = absurd (cc (part p (file bytes) e, k))

  ensure-Makes :
      (p : TreePath) (t : Tree)
      → IsSound t.faults
      → IsPart content t
      → content p ≡ some folder
      → Makes t p folder (ensure p t)
  unfolding ensure
  ensure-Makes p t ok part k = ensure_found-Makes p t (find p t.entries) ok part k refl

  -- A step after one that returned no error.
  then-Makes :
      {t : Tree} {p q : TreePath} {v w : Node} (first : Tree × Option Str)
      (rest : Tree × Option Str)
      → Makes t p v first
      → Makes first.0 q w rest
      → Makes t q w (unless_error first.0 rest first.1)
  unfolding unless_error
  then-Makes first rest f r =
      rw f.done (record { done = r.done; grows = Grows-trans f.grows r.grows; there = r.there })

  pub IsSound-of : {t u : Tree} → Grows content t u → IsSound t.faults → IsSound u.faults
  IsSound-of g ok = rw g.faults ok

  pub mkdir_all-Makes :
      (pre cs : TreePath) (t : Tree)
      → IsSound t.faults
      → IsPart content t
      → Folders content pre cs
      → Makes t (pre ++ cs) folder (mkdir_all pre cs t)
  unfolding mkdir_all
  mkdir_all-Makes pre [] t ok part h = rw (append-nil pre) (ensure-Makes pre t ok part h)
  mkdir_all-Makes pre (c ∷ cs) t ok part h =
      let first = ensure-Makes pre t ok part h.0 in
      let made = (ensure pre t).0 in
      rw (← append_assoc pre (c ∷ []) cs) (
        then-Makes (ensure pre t) (mkdir_all (pre ++ (c ∷ [])) cs made) first (
          mkdir_all-Makes (pre ++ (c ∷ [])) cs made (IsSound-of first.grows ok)
            (first.grows.only part) h.1))

  write_found-Makes :
      (p : TreePath) (bytes : Str) (t : Tree) (o : Option Node)
      → IsSound t.faults
      → IsPart content t
      → content p ≡ some (file bytes)
      → find p t.entries ≡ o
      → Makes t p (file bytes) (write_found p bytes t o)
  unfolding write_found
  write_found-Makes p bytes t none ok part k e =
      let (g, there) = put-Grows content p (file bytes) t part k in
      rw (ok.writes p) (record { done = refl; grows = g; there = there })
  write_found-Makes p bytes t (some (file old)) ok part k e =
      let (g, there) = put-Grows content p (file bytes) t part k in
      rw (ok.writes p) (record { done = refl; grows = g; there = there })
  write_found-Makes p bytes t (some folder) ok part k e = absurd (cc (part p folder e, k))

  write_at-Makes :
      (p : TreePath) (bytes : Str) (t : Tree)
      → IsSound t.faults
      → IsPart content t
      → content p ≡ some (file bytes)
      → Makes t p (file bytes) (write_at p bytes t)
  unfolding write_at
  write_at-Makes p bytes t ok part k = write_found-Makes p bytes t (find p t.entries) ok part k refl

  -- A directory, and a file, that are content are extracted where they belong.
  pub extract_dir-Makes :
      (c : Str) (cs : TreePath) (m : Member) (t : Tree)
      → m.is_dir ≡ true
      → IsSound t.faults
      → IsPart content t
      → Parents content (c ∷ cs)
      → content (c ∷ cs) ≡ some folder
      → Makes t (c ∷ cs) folder (extract_to (c ∷ cs) m t)
  unfolding extract_to
  extract_dir-Makes c cs m t d ok part h k =
      rw d (mkdir_all-Makes [] (c ∷ cs) t ok part (Folders-whole content (c ∷ cs) k h))

  pub extract_file-Makes :
      (c : Str) (cs : TreePath) (m : Member) (t : Tree)
      → m.is_dir ≡ false
      → IsSound t.faults
      → IsPart content t
      → Parents content (c ∷ cs)
      → content (c ∷ cs) ≡ some (file m.bytes)
      → Makes t (c ∷ cs) (file m.bytes) (extract_to (c ∷ cs) m t)
  unfolding extract_to mkdir_parent
  extract_file-Makes c cs m t d ok part h k =
      let first = mkdir_all-Makes [] (parent (c ∷ cs)) t ok part (Folders-parent content c cs h) in
      let made = mkdir_all [] (parent (c ∷ cs)) t in
      rw d (
        then-Makes made (write_at (c ∷ cs) m.bytes made.0) first (
          write_at-Makes (c ∷ cs) m.bytes made.0 (IsSound-of first.grows ok) (first.grows.only part)
            k))
