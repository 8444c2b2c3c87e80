-- ===== src/Wordpress/RoundTrip.antt =====
-- A full backup, restored (examples/wordpress-client/main.go: Backup, Restore, write, apply).
use binfinity_addon_sdk.Prelude.{
  All, Bool, Bool-cases, In-All, List, Option, Str, [], ap, false, inl, inr, none, refl, some,
  str_eq, sym, true, ◌∙◌, ◌∷◌, ◌≡◌,
}
use binfinity_addon_sdk.Disk.{Node, file, folder}
use binfinity_addon_sdk.Wordpress.{
  Member, Progress, RestoreError, apply, consume, eof, finish, is_db_dump, started,
}
use binfinity_addon_sdk.Wordpress.Cleared.{any_content}
use binfinity_addon_sdk.Wordpress.Paths.{join}
use binfinity_addon_sdk.Wordpress.Tree.{Services, Site, Tree, TreePath, clear, find, on_site}
use binfinity_addon_sdk.Wordpress.Backup.{
  Visit, add_content, dump_member, is_excluded, is_hidden, write,
}
use binfinity_addon_sdk.Wordpress.Kept.{Content, IsWalk, kept, unless_dir}
use binfinity_addon_sdk.Wordpress.Extracted.{consume_next}
use binfinity_addon_sdk.Outcome.{ok}
use binfinity_addon_sdk.Wordpress.Filled.{Grows-IsReady, IsReady, Present, Stepped, fill}
use binfinity_addon_sdk.Wordpress.Emptied.{IsEmptied, clear-IsEmptied}
use binfinity_addon_sdk.Wordpress.Grown.{IsSound}
use binfinity_addon_sdk.Wordpress.Begun.{
  all_files, consume-emptied, consume_dump, emptied, finish_done, imported,
}

same_node :
    (a b : Option Node)
    → ((n : Node) → a ≡ some n → b ≡ some n)
    → ((n : Node) → b ≡ some n → a ≡ some n)
    → a ≡ b
same_node none none h k = refl
same_node none (some n) h k = absurd (cc (k n refl))
same_node (some n) b h k = sym (h n refl)

pub kept_content :
    (excludes : List Str) (content : Content) (p : TreePath) (n : Node)
    → kept excludes content p ≡ some n
    → content p ≡ some n
kept_content excludes content [] n h = h
kept_content excludes content (c ∷ cs) n h = elim (Bool-cases (is_hidden excludes [] (c ∷ cs))) [
  | inl e ↦ absurd (let gone = rw e at h in cc)
  | inr e ↦ shown (is_excluded excludes (join (c ∷ cs))) (content (c ∷ cs)) (rw e at h)
]
  where
    shown : (b : Bool) (o : Option Node) → unless_dir b o ≡ some n → o ≡ some n
    shown false o k = k
    shown true none k = k
    shown true (some folder) k = absurd (cc (k))
    shown true (some (file bytes)) k = k

-- The restored site holds what the backup kept.
pub record IsRestored (site : Site) (db : Str) (content : Content) : Type 0 where
  pub same_db : site.db ≡ db
  pub same_files : (p : TreePath) → find p site.tree.entries ≡ content p

-- The dump is no content.
after_dump :
    (dump : Str) (ms : List Member)
    → any_content (dump_member dump ∷ ms) ≡ true
    → any_content ms ≡ true
unfolding is_db_dump str_eq
after_dump dump ms h = h

module _ (o : Services) (excludes : List Str) (content : Content) (vs : List Visit) where
  module _ (walk : IsWalk content vs) where
    emptied-IsReady :
        (t : Tree) (r : Tree × Option Str)
        → IsSound t.faults
        → IsEmptied t r
        → IsReady o excludes content walk.root r.0
    emptied-IsReady t r sound h = record {
      sound = rw h.faults sound;
      part = λ p n e. emptied_part p n e;
      top = h.root;
    }
      where
        emptied_part :
            (p : TreePath) (n : Node)
            → find p r.0.entries ≡ some n
            → kept excludes content p ≡ some n
        emptied_part [] n e = walk.root ∙ sym h.root ∙ e
        emptied_part (c ∷ cs) n e = absurd (cc (h.empty c cs, e))

    filled_files :
        (t : Tree) (p : TreePath)
        → IsReady o excludes content walk.root t
        → All (Present o excludes content walk.root t) vs
        → find p t.entries ≡ kept excludes content p
    filled_files t p ready present =
        same_node (find p t.entries) (kept excludes content p) (ready.part p) (λ n k.
          elim (walk.complete p n (kept_content excludes content p n k)) [
            | inl e ↦
                ap (λ q. find q t.entries) e
                ∙ ready.top
                ∙ sym walk.root
                ∙ ap (kept excludes content) (sym e)
                ∙ k
            | inr (v, m, e) ↦
                ap (λ q. find q t.entries) (sym e)
                ∙ In-All (Present o excludes content walk.root t) v vs m present n
                    (ap (kept excludes content) e ∙ k)
          ])

    module _ (dump : Str) (s : Site) where
      abbrev filling : Stepped o excludes content walk.root
      filling =
          consume (on_site o) true eof (add_content excludes none vs).0
            (emptied o (imported o dump s))

      consume_backup :
          any_content (dump_member dump ∷ (add_content excludes none vs).0) ≡ true
          → (clear s.tree).1 ≡ none
          → (o.import dump s.db).1 ≡ none
          → consume
              (on_site o)
              true
              eof
              (dump_member dump ∷ (add_content excludes none vs).0)
              (started (on_site o) s)
            ≡ filling
      consume_backup some_content done imports =
          let ms = (add_content excludes none vs).0 in
          consume_next o (dump_member dump) ms (started (on_site o) s) (imported o dump s)
            (consume_dump o dump s imports)
          ∙ consume-emptied o ms (imported o dump s) (all_files excludes content vs walk.visits)
              (after_dump dump ms some_content) refl done

      -- Take the walk of a wp-content tree that is a directory, with each path made of file names
      -- and below directories, and each entry visited. If the full backup of it ends without an
      -- error and its stream has a member of the content tree, then its base restore, to a site
      -- whose wp-content is a directory and where no call of the operating system and not the
      -- import of the dump fails, returns no error; the database is then what the import leaves,
      -- and wp-content holds at each path what the walked tree has there, less the excluded
      -- directories and what is below them.
      pub restore_backup :
          (write (ok dump) excludes none vs).1 ≡ none
          → any_content (write (ok dump) excludes none vs).0 ≡ true
          → IsSound s.tree.faults
          → find [] s.tree.entries ≡ some folder
          → (o.import dump s.db).1 ≡ none
          → ((apply (on_site o) true eof (write (ok dump) excludes none vs).0 s).1 ≡ none)
            × IsRestored
                (apply (on_site o) true eof (write (ok dump) excludes none vs).0 s).0.world
                (o.import dump s.db).0
                (kept excludes content)
      unfolding write apply
      restore_backup backed some_content sound top imports =
          let gone = clear-IsEmptied s.tree sound top in
          let ready = emptied-IsReady s.tree (clear s.tree) sound gone in
          let f =
            fill o excludes content walk.root vs (emptied o (imported o dump s)) walk.visits refl
              ready backed in
          let ended = finish_done o filling.0 f.applied in
          let whole =
            ap (λ (c : Stepped o excludes content walk.root). finish (on_site o) c.0 c.1)
              (consume_backup some_content gone.done imports)
            ∙ ap (finish (on_site o) filling.0) f.done in
          let there = Grows-IsReady o excludes content walk.root f.grows ready in
          (
            ap (λ (r : Progress Site × Option RestoreError). r.1) whole ∙ ended.0,
            record {
              same_db =
                  ap (λ (r : Progress Site × Option RestoreError). r.0.world.db) whole
                  ∙ ap (λ (w : Site). w.db) ended.1
                  ∙ f.db;
              same_files = λ p.
                  ap (λ (r : Progress Site × Option RestoreError). find p r.0.world.tree.entries)
                    whole
                  ∙ ap (λ (w : Site). find p w.tree.entries) ended.1
                  ∙ filled_files filling.0.world.tree p there f.present;
            },
          )
