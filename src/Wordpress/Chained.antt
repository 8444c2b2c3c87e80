-- ===== src/Wordpress/Chained.antt =====
-- The restore of an incremental backup over an older site (examples/wordpress-client/main.go:
-- BackupIncremental, RestoreIncremental).
use binfinity_addon_sdk.Prelude.{
  All, Bool-cases, In, In-All, List, Option, Option-cases, Str, [], ap, false, inl, inr, none, refl,
  some, str_eq, sym, true, ℕ, ◌∙◌, ◌∷◌, ◌≡◌, ◌⊎◌,
}
use binfinity_addon_sdk.Disk.{Node, file, folder}
use binfinity_addon_sdk.Outcome.{err, ok}
use binfinity_addon_sdk.Wordpress.{Member, apply, content_rel, eof, is_db_dump}
use binfinity_addon_sdk.Wordpress.Members.{content_no_dump}
use binfinity_addon_sdk.Wordpress.Tree.{Services, Site, Tree, TreePath, find, on_site}
use binfinity_addon_sdk.Wordpress.Paths.{join}
use binfinity_addon_sdk.Wordpress.Backup.{
  Action, Info, Visit, add_content, directory, dump_member, is_hidden, is_old, next_visit, pass,
  regular, special, stop, unreadable, visit, write, write_member,
}
use binfinity_addon_sdk.Wordpress.Kept.{Content, IsVisit, IsWalk, kept, node_of}
use binfinity_addon_sdk.Wordpress.Extracted.{content_rel_files}
use binfinity_addon_sdk.Wordpress.Merged.{apply-Merges, imports, stream_writes}
use binfinity_addon_sdk.Wordpress.RoundTrip.{kept_content}
use binfinity_addon_sdk.Wordpress.Delta.{WritesFile, delta-IsSlice, visit-WritesFile}
use binfinity_addon_sdk.Wordpress.Fresh.{fresh-written}
use binfinity_addon_sdk.Wordpress.Overlaid.{later-none}

abbrev NoDump : Member → Type 0
NoDump m = is_db_dump m.name ≡ false

imports-NoDump : (o : Services) (ms : List Member) (db : Str) → All NoDump ms → imports o ms db ≡ db
unfolding imports
imports-NoDump o [] db h = refl
imports-NoDump o (m ∷ ms) db h = rw h.0 (imports-NoDump o ms db h.1)

module _ (excludes : List Str) (content : Content) (since : ℕ) where
  abbrev delta_of : List Visit → List Member × Option Str
  delta_of vs = add_content excludes (some since) vs

  action-NoDump :
      (p : TreePath) (a : Action) (ms : List Member × Option Str)
      → WritesFile excludes content since p a
      → All NoDump ms.0
      → All NoDump (next_visit a ms).0
  unfolding next_visit
  action-NoDump p pass ms h k = k
  action-NoDump p (stop e) ms h k = tt
  action-NoDump p (write_member m) ms (c, cs, e, d, name, n) k = (
    content_no_dump m.name (join (c ∷ cs))
        (ap content_rel name ∙ content_rel_files (join (c ∷ cs))),
    k,
  )

  delta-NoDump : (vs : List Visit) → All (IsVisit content) vs → All NoDump (delta_of vs).0
  unfolding add_content
  delta-NoDump [] h = tt
  delta-NoDump (v ∷ vs) h =
      action-NoDump v.path (visit excludes (some since) v) (delta_of vs)
        (visit-WritesFile excludes content since v h.0) (delta-NoDump vs h.1)

  shown_kept :
      (c : Str) (cs : TreePath) (n : Node)
      → kept excludes content (c ∷ cs) ≡ some n
      → is_hidden excludes [] (c ∷ cs) ≡ false
  shown_kept c cs n k = elim (Bool-cases (is_hidden excludes [] (c ∷ cs))) [
    | inl e ↦ absurd (let gone = rw e at k in cc)
    | inr e ↦ e
  ]

  info_of_file :
      (info : Info) (b : Str)
      → node_of info ≡ some (file b)
      → (changed : ℕ) × (info ≡ regular changed (ok b))
  info_of_file directory b h = absurd (cc (h))
  info_of_file (regular changed (ok bytes)) b h =
      let same : bytes ≡ b = cc in (changed, ap (λ x. regular changed (ok x)) same)
  info_of_file (regular changed (err e)) b h = absurd (cc (h))
  info_of_file special b h = absurd (cc (h))
  info_of_file (unreadable e) b h = absurd (cc (h))

  -- The old tree holds what the walk finds unchanged since then.
  abbrev pub IsBased : List Visit → Tree → Type 0
  IsBased vs t =
      (v : Visit) (changed : ℕ) (b : Str)
      → In v vs
      → v.info ≡ regular changed (ok b)
      → is_old (some since) changed ≡ true
      → kept excludes content v.path ≡ some (file b)
      → find v.path t.entries ≡ some (file b)

  -- A file that is kept stands in the delta, or the old tree has it.
  kept_found :
      (vs : List Visit) (t : Tree) (p : TreePath) (b : Str)
      → IsWalk content vs
      → (delta_of vs).1 ≡ none
      → IsBased vs t
      → kept excludes content p ≡ some (file b)
      → ((x : Str) × (stream_writes (delta_of vs).0 p ≡ some x))
        ⊎ (find p t.entries ≡ some (file b))
  kept_found vs t [] b walk done based k = absurd (cc (k, walk.root))
  kept_found vs t (c ∷ cs) b walk done based k =
      elim (walk.complete (c ∷ cs) (file b) (kept_content excludes content (c ∷ cs) (file b) k)) [
        | inl e ↦ absurd (cc (e))
        | inr (v, m, e) ↦
            let node =
              sym (In-All (IsVisit content) v vs m walk.visits).node
              ∙ ap content e
              ∙ kept_content excludes content (c ∷ cs) (file b) k in
            let (changed, i) = info_of_file v.info b node in
            elim (Bool-cases (is_old (some since) changed)) [
              | inl old ↦ inr (
                  ap (λ q. find q t.entries) (sym e)
                  ∙ based v changed b m i old (ap (kept excludes content) e ∙ k))
              | inr young ↦ inl (
                  fresh-written excludes content since vs v c cs changed b walk.visits m
                    (record {
                      place = e;
                      info = i;
                      shown = shown_kept c cs (file b) k;
                      young = young;
                    })
                    done)
            ]
      ]

-- The site that an incremental restore makes.
pub record IsChained (content : Content) (db : Str) (s t : Site) : Type 0 where
  pub same_db : t.db ≡ db
  pub files :
      (p : TreePath) (b : Str) → content p ≡ some (file b) → find p t.tree.entries ≡ some (file b)
  pub rest :
      (p : TreePath) (n : Node)
      → content p ≡ none
      → find p s.tree.entries ≡ some n
      → find p t.tree.entries ≡ some n

-- The dump is no content.
dump_writes :
    (dump : Str) (ms : List Member) (q : TreePath)
    → stream_writes (dump_member dump ∷ ms) q ≡ stream_writes ms q
unfolding stream_writes is_db_dump str_eq
dump_writes dump ms q = later-none (stream_writes ms q)

imports_dump :
    (o : Services) (dump : Str) (ms : List Member) (db : Str)
    → imports o (dump_member dump ∷ ms) db ≡ imports o ms (o.import dump db).0
unfolding imports is_db_dump str_eq
imports_dump o dump ms db = refl

module _ (o : Services) (excludes : List Str) (content : Content) (since : ℕ) (vs : List Visit)
    (dump : Str) where
  abbrev pub delta : List Member × Option Str
  delta = write (ok dump) excludes (some since) vs

  -- Take the walk of a wp-content tree that is a directory, and a site that holds each kept file
  -- of that tree that did not change after the cursor. If the incremental backup of the tree ends
  -- without an error, and its delta restore to the site returns no error, the database is then
  -- what the import leaves, wp-content holds every kept file of the tree, and where the tree keeps
  -- nothing it holds what the site held.
  pub restore_delta :
      (s : Site)
      → IsWalk content vs
      → delta.1 ≡ none
      → IsBased excludes content since vs s.tree
      → (apply (on_site o) false eof delta.0 s).1 ≡ none
      → IsChained
          (kept excludes content)
          (o.import dump s.db).0
          s
          (apply (on_site o) false eof delta.0 s).0.world
  unfolding write
  restore_delta s walk backed based done =
      let ms = (delta_of excludes content since vs).0 in
      let m = apply-Merges o eof delta.0 s done in
      let slice = delta-IsSlice excludes content since vs walk.visits in
      let same = dump_writes dump ms in
      record {
        same_db =
            m.same_db
            ∙ imports_dump o dump ms s.db
            ∙ imports-NoDump o ms (o.import dump s.db).0
                (delta-NoDump excludes content since vs walk.visits);
        files = λ p b k. elim (Option-cases (stream_writes ms p)) [
          | inr (x, e) ↦
              let equal : some x ≡ some b = ap content_of (sym (slice p x e) ∙ k) in
              m.overlays.written p b (same p ∙ e ∙ equal)
          | inl e ↦ elim (kept_found excludes content since vs s.tree p b walk backed based k) [
            | inl (x, w) ↦ absurd (cc (e, w))
            | inr f ↦ m.overlays.kept p (file b) (same p ∙ e) f
          ]
        ];
        rest = λ p n k f. elim (Option-cases (stream_writes ms p)) [
          | inr (x, e) ↦ absurd (cc (slice p x e, k))
          | inl e ↦ m.overlays.kept p n (same p ∙ e) f
        ];
      }
    where
      content_of : Option Node → Option Str
      content_of none = none
      content_of (some folder) = none
      content_of (some (file b)) = some b
