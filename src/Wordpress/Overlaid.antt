-- ===== src/Wordpress/Overlaid.antt =====
-- What a content member that is extracted without an error does to a tree, whatever the tree holds
-- (examples/wordpress-client/main.go, extractInto).
use binfinity_addon_sdk.Prelude.{
  Bool-cases, Option, Option-cases, Str, [], if◌then◌else◌, inl, inr, none, refl, some, sym, ◌++◌,
  ◌∙◌, ◌∷◌, ◌≡◌, ◌⊎◌,
}
use binfinity_addon_sdk.Disk.{Node, WriteFault, file, folder, torn, unopened}
use binfinity_addon_sdk.Wordpress.{Member}
use binfinity_addon_sdk.Wordpress.Tree.{
  Tree, TreePath, ensure, ensure_found, extract_to, find, mkdir_all, mkdir_parent, parent, path_eq,
  put, unless_error, write_at, write_faulty, write_found,
}
use binfinity_addon_sdk.Wordpress.Grown.{find-put, path_eq_iff}

-- The bytes that are written to each path.
abbrev pub Writes : Type 0
Writes = TreePath → Option Str

abbrev pub no_writes : Writes
no_writes q = none

abbrev pub one_write : TreePath → Str → Writes
one_write p bytes q = if path_eq p q then some bytes else none

-- What is written later replaces what was written earlier.
abbrev pub later : Option Str → Option Str → Option Str
later none earlier = earlier
later (some b) earlier = some b

-- The writes are in the second tree; all else of the first one is still there, and where it had
-- nothing there are at most new directories.
pub record Overlays (w : Writes) (t u : Tree) : Type 0 where
  pub written : (q : TreePath) (b : Str) → w q ≡ some b → find q u.entries ≡ some (file b)
  pub kept :
      (q : TreePath) (n : Node) → w q ≡ none → find q t.entries ≡ some n → find q u.entries ≡ some n
  pub fresh :
      (q : TreePath)
      → w q ≡ none
      → find q t.entries ≡ none
      → (find q u.entries ≡ none) ⊎ (find q u.entries ≡ some folder)

pub Overlays-refl : (t : Tree) → Overlays no_writes t t
Overlays-refl t = record {
  written = λ q b e. absurd (cc (e));
  kept = λ q n e k. k;
  fresh = λ q e k. inl k;
}

pub Overlays-trans :
    {v w : Writes} {t u x : Tree}
    → Overlays v t u
    → Overlays w u x
    → Overlays (λ q. later (w q) (v q)) t x
Overlays-trans {v = v} {w = w} {t = t} {u = u} {x = x} f g = record {
  written = λ q b. written_later q b (w q) refl;
  kept = λ q n e k. let (a, c) = both_none (w q) (v q) e in g.kept q n a (f.kept q n c k);
  fresh = λ q e k. let (a, c) = both_none (w q) (v q) e in fresh_later q a (f.fresh q c k);
}
  where
    both_none : (a c : Option Str) → later a c ≡ none → (a ≡ none) × (c ≡ none)
    both_none none c e = (refl, e)
    both_none (some b) c e = absurd (cc (e))

    written_later :
        (q : TreePath) (b : Str) (o : Option Str)
        → w q ≡ o
        → later o (v q) ≡ some b
        → find q x.entries ≡ some (file b)
    written_later q b none e k = g.kept q (file b) e (f.written q b k)
    written_later q b (some c) e k = g.written q b (e ∙ k)

    fresh_later :
        (q : TreePath)
        → w q ≡ none
        → (find q u.entries ≡ none) ⊎ (find q u.entries ≡ some folder)
        → (find q x.entries ≡ none) ⊎ (find q x.entries ≡ some folder)
    fresh_later q e (inl k) = g.fresh q e k
    fresh_later q e (inr k) = inr (g.kept q folder e k)

pub Overlays-same :
    {v w : Writes} {t u : Tree} → ((q : TreePath) → w q ≡ v q) → Overlays v t u → Overlays w t u
Overlays-same e f = record {
  written = λ q b h. f.written q b (sym (e q) ∙ h);
  kept = λ q n h. f.kept q n (sym (e q) ∙ h);
  fresh = λ q h. f.fresh q (sym (e q) ∙ h);
}

pub later-none : (o : Option Str) → later o none ≡ o
later-none none = refl
later-none (some b) = refl

put_folder-Overlays :
    (p : TreePath) (t : Tree) → find p t.entries ≡ none → Overlays no_writes t (put p folder t)
put_folder-Overlays p t e = record {
  written = λ q b h. absurd (cc (h));
  kept = λ q n h k. elim (Bool-cases (path_eq p q)) [
    | inl s ↦ absurd (cc ((path_eq_iff p q).0 s, e, k))
    | inr s ↦ rw (find-put p q folder t, s) k
  ];
  fresh = λ q h k. elim (Bool-cases (path_eq p q)) [
    | inl s ↦ inr (rw (find-put p q folder t, s) refl)
    | inr s ↦ inl (rw (find-put p q folder t, s) k)
  ];
}

put_file-Overlays :
    (p : TreePath) (bytes : Str) (t : Tree) → Overlays (one_write p bytes) t (put p (file bytes) t)
put_file-Overlays p bytes t = record {
  written = λ q b h. elim (Bool-cases (path_eq p q)) [
    | inl s ↦ rw (find-put p q (file bytes) t, s) (let k = rw s at h in cc)
    | inr s ↦ absurd (let k = rw s at h in cc)
  ];
  kept = λ q n h k. elim (Bool-cases (path_eq p q)) [
    | inl s ↦ absurd (let k = rw s at h in cc)
    | inr s ↦ rw (find-put p q (file bytes) t, s) k
  ];
  fresh = λ q h k. elim (Bool-cases (path_eq p q)) [
    | inl s ↦ absurd (let k = rw s at h in cc)
    | inr s ↦ inl (rw (find-put p q (file bytes) t, s) k)
  ];
}

ensure_found-Overlays :
    (p : TreePath) (t : Tree) (o : Option Node)
    → find p t.entries ≡ o
    → (ensure_found p t o).1 ≡ none
    → Overlays no_writes t (ensure_found p t o).0
unfolding ensure_found
ensure_found-Overlays p t none e done = elim (Bool-cases (t.faults.mkdir_fails p)) [
  | inl f ↦ absurd (let k = rw f at done in cc)
  | inr f ↦ rw f (put_folder-Overlays p t e)
]
ensure_found-Overlays p t (some folder) e done = Overlays-refl t
ensure_found-Overlays p t (some (file bytes)) e done = absurd (cc (done))

-- Two steps, the second of which is not taken after an error of the first.
then-Overlays :
    {v w : Writes} {t : Tree} (first rest : Tree × Option Str)
    → (first.1 ≡ none → Overlays v t first.0)
    → (rest.1 ≡ none → Overlays w first.0 rest.0)
    → (unless_error first.0 rest first.1).1 ≡ none
    → Overlays (λ q. later (w q) (v q)) t (unless_error first.0 rest first.1).0
unfolding unless_error
then-Overlays first rest f r done = elim (Option-cases first.1) [
  | inl e ↦ rw e (Overlays-trans (f e) (r (rw e at done)))
  | inr (text, e) ↦ absurd (let k = rw e at done in cc)
]

mkdir_all-Overlays :
    (pre cs : TreePath) (t : Tree)
    → (mkdir_all pre cs t).1 ≡ none
    → Overlays no_writes t (mkdir_all pre cs t).0
unfolding mkdir_all ensure
mkdir_all-Overlays pre [] t done = ensure_found-Overlays pre t (find pre t.entries) refl done
mkdir_all-Overlays pre (c ∷ cs) t done =
    let first = ensure_found pre t (find pre t.entries) in
    then-Overlays first (mkdir_all (pre ++ (c ∷ [])) cs first.0)
      (ensure_found-Overlays pre t (find pre t.entries) refl)
      (mkdir_all-Overlays (pre ++ (c ∷ [])) cs first.0) done

mkdir_parent-Overlays :
    (p : TreePath) (t : Tree)
    → (mkdir_parent p t).1 ≡ none
    → Overlays no_writes t (mkdir_parent p t).0
unfolding mkdir_parent
mkdir_parent-Overlays [] t done = Overlays-refl t
mkdir_parent-Overlays (c ∷ cs) t done = mkdir_all-Overlays [] (parent (c ∷ cs)) t done

write_faulty-Overlays :
    (p : TreePath) (bytes : Str) (t : Tree) (f : Option WriteFault)
    → (write_faulty p bytes t f).1 ≡ none
    → Overlays (one_write p bytes) t (write_faulty p bytes t f).0
unfolding write_faulty
write_faulty-Overlays p bytes t none done = put_file-Overlays p bytes t
write_faulty-Overlays p bytes t (some unopened) done = absurd (cc (done))
write_faulty-Overlays p bytes t (some (torn left)) done = absurd (cc (done))

write_found-Overlays :
    (p : TreePath) (bytes : Str) (t : Tree) (o : Option Node)
    → (write_found p bytes t o).1 ≡ none
    → Overlays (one_write p bytes) t (write_found p bytes t o).0
unfolding write_found
write_found-Overlays p bytes t none done =
    write_faulty-Overlays p bytes t (t.faults.write_fails p) done
write_found-Overlays p bytes t (some (file old)) done =
    write_faulty-Overlays p bytes t (t.faults.write_fails p) done
write_found-Overlays p bytes t (some folder) done = absurd (cc (done))

-- What a member writes, once its path is known.
abbrev pub writes_to : TreePath → Member → Writes
writes_to dst m q = if m.is_dir then none else one_write dst m.bytes q

pub extract_to-Overlays :
    (dst : TreePath) (m : Member) (t : Tree)
    → (extract_to dst m t).1 ≡ none
    → Overlays (writes_to dst m) t (extract_to dst m t).0
unfolding extract_to write_at
extract_to-Overlays dst m t done = elim (Bool-cases m.is_dir) [
  | inl d ↦
      Overlays-same {v = no_writes} (λ q. rw d refl)
        (rw d (mkdir_all-Overlays [] dst t (rw d at done)))
  | inr d ↦
      Overlays-same {v = λ q. later (one_write dst m.bytes q) none}
        (λ q. rw d (sym (later-none (one_write dst m.bytes q))))
        (rw d (
          then-Overlays (mkdir_parent dst t) (write_at dst m.bytes (mkdir_parent dst t).0)
            (mkdir_parent-Overlays dst t)
            (write_found-Overlays dst m.bytes (mkdir_parent dst t).0
              (find dst (mkdir_parent dst t).0.entries))
            (rw d at done)))
]
