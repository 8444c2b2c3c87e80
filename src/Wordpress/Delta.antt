-- ===== src/Wordpress/Delta.antt =====
-- The files of an incremental backup (examples/wordpress-client/main.go: addContent,
-- BackupIncremental).
use binfinity_addon_sdk.Prelude.{
  All, Bool-cases, List, Option, Option-cases, Str, [], ap, codes, false, if◌then◌else◌, inl, inr,
  none, refl, some, subst, sym, ℕ, ◌++◌, ◌∙◌, ◌∷◌, ◌≡◌,
}
use binfinity_addon_sdk.Disk.{Node, file}
use binfinity_addon_sdk.Outcome.{err, ok}
use binfinity_addon_sdk.Wordpress.{Member, content_rel}
use binfinity_addon_sdk.Wordpress.Members.{content_no_dump}
use binfinity_addon_sdk.Wordpress.Tree.{TreePath, path_eq}
use binfinity_addon_sdk.Wordpress.Paths.{join}
use binfinity_addon_sdk.Wordpress.Paths.Plain.{IsName, target-join}
use binfinity_addon_sdk.Wordpress.Backup.{
  Action, Info, Visit, add_content, directory, is_excluded, is_hidden, is_old, next_visit, pass,
  regular, special, stop, unreadable, visit, visit_action, write_member,
}
use binfinity_addon_sdk.Wordpress.Kept.{Content, IsVisit, kept, node_of}
use binfinity_addon_sdk.Wordpress.Visited.{file_kept}
use binfinity_addon_sdk.Wordpress.Extracted.{content_rel_files}
use binfinity_addon_sdk.Wordpress.Overlaid.{Writes, one_write}
use binfinity_addon_sdk.Wordpress.Merged.{member_writes, stream_writes}
use binfinity_addon_sdk.Wordpress.Grown.{path_eq_iff}

module _ (excludes : List Str) (content : Content) (since : ℕ) where
  -- What an action of the delta's walk says: it writes a file of the content.
  abbrev pub WritesFile : TreePath → Action → Type 0
  WritesFile p pass = Unit
  WritesFile p (stop e) = Unit
  WritesFile p (write_member m) =
      (c : Str) × (cs : TreePath) × (p ≡ c ∷ cs)
      × (m.is_dir ≡ false)
      × (m.name ≡ codes "files/" ++ join (c ∷ cs))
      × (kept excludes content (c ∷ cs) ≡ some (file m.bytes))

  below-WritesFile :
      (c : Str) (cs : TreePath) (info : Info)
      → is_hidden excludes [] (c ∷ cs) ≡ false
      → content (c ∷ cs) ≡ node_of info
      → WritesFile (c ∷ cs) (visit_action excludes (some since) (c ∷ cs) info)
  unfolding visit_action
  below-WritesFile c cs directory e h = elim (Bool-cases (is_excluded excludes (join (c ∷ cs)))) [
    | inl x ↦ rw x tt
    | inr x ↦ rw x tt
  ]
  below-WritesFile c cs (regular changed (ok bytes)) e h =
      elim (Bool-cases (is_old (some since) changed)) [
        | inl x ↦ rw x tt
        | inr x ↦ rw x (c, cs, refl, refl, refl, file_kept excludes content c cs bytes e h)
      ]
  below-WritesFile c cs (regular changed (err text)) e h =
      elim (Bool-cases (is_old (some since) changed)) [ inl x ↦ rw x tt | inr x ↦ rw x tt ]
  below-WritesFile c cs special e h = tt
  below-WritesFile c cs (unreadable text) e h = tt

  path-WritesFile :
      (p : TreePath) (info : Info)
      → content p ≡ node_of info
      → WritesFile p
          (if is_hidden excludes [] p then pass else visit_action excludes (some since) p info)
  unfolding visit_action is_hidden
  path-WritesFile [] directory h = tt
  path-WritesFile [] (regular changed bytes) h = tt
  path-WritesFile [] special h = tt
  path-WritesFile [] (unreadable text) h = tt
  path-WritesFile (c ∷ cs) info h = elim (Bool-cases (is_hidden excludes [] (c ∷ cs))) [
    | inl e ↦ rw e tt
    | inr e ↦ rw e (below-WritesFile c cs info e h)
  ]

  pub visit-WritesFile :
      (v : Visit) → IsVisit content v → WritesFile v.path (visit excludes (some since) v)
  unfolding visit
  visit-WritesFile v h = path-WritesFile v.path v.info h.node

  -- A member for a file below wp-content writes to its path.
  pub file_writes :
      (m : Member) (c : Str) (cs q : TreePath)
      → All IsName (c ∷ cs)
      → m.is_dir ≡ false
      → m.name ≡ codes "files/" ++ join (c ∷ cs)
      → member_writes m q ≡ one_write (c ∷ cs) m.bytes q
  file_writes m c cs q names d name =
      let rel : content_rel m.name ≡ some (join (c ∷ cs)) =
        ap content_rel name ∙ content_rel_files (join (c ∷ cs)) in
      rw (content_no_dump m.name (join (c ∷ cs)) rel, rel, target-join c cs names, d) refl

  -- Every file of the delta is the content's.
  abbrev pub IsSlice : Writes → Type 0
  IsSlice w = (q : TreePath) (b : Str) → w q ≡ some b → kept excludes content q ≡ some (file b)

  action-IsSlice :
      (v : Visit) (a : Action) (ms : List Member × Option Str)
      → IsVisit content v
      → WritesFile v.path a
      → IsSlice (stream_writes ms.0)
      → IsSlice (stream_writes (next_visit a ms).0)
  unfolding next_visit stream_writes
  action-IsSlice v pass ms h k rest = rest
  action-IsSlice v (stop e) ms h k rest = λ q b g. absurd (cc (g))
  action-IsSlice v (write_member m) ms h (c, cs, p, d, name, k) rest = λ q b g.
      elim (Option-cases (stream_writes ms.0 q)) [
        | inr (b', e) ↦ let same = rw e at g in rest q b (e ∙ same)
        | inl e ↦
            let one =
              sym (file_writes m c cs q (subst (All IsName) p h.names) d name) ∙ rw e at g in
            elim (Bool-cases (path_eq (c ∷ cs) q)) [
              | inl t ↦
                  ap (kept excludes content) (sym ((path_eq_iff (c ∷ cs) q).0 t))
                  ∙ k
                  ∙ ap (λ (o : Option Str). file_of o) (rw t at one)
              | inr t ↦ absurd (let no = rw t at one in cc)
            ]
      ]
    where
      file_of : Option Str → Option Node
      file_of none = none
      file_of (some bytes) = some (file bytes)

  pub delta-IsSlice :
      (vs : List Visit)
      → All (IsVisit content) vs
      → IsSlice (stream_writes (add_content excludes (some since) vs).0)
  unfolding add_content stream_writes
  delta-IsSlice [] h = λ q b g. absurd (cc (g))
  delta-IsSlice (v ∷ vs) h =
      action-IsSlice v (visit excludes (some since) v) (add_content excludes (some since) vs) h.0
        (visit-WritesFile v h.0) (delta-IsSlice vs h.1)
