-- ===== src/Wordpress/Layers.antt =====
-- The restore of a base backup and of the incremental backups after it, in their order
-- (examples/wordpress-client/main.go: BackupIncremental, RestoreIncremental).
use binfinity_addon_sdk.Prelude.{
  In, List, Option, Str, [], ap, arith, false, none, some, true, ℕ, ◌∙◌, ◌∷◌, ◌≡◌, ◌≤◌,
}
use binfinity_addon_sdk.Disk.{file, folder}
use binfinity_addon_sdk.Outcome.{ok}
use binfinity_addon_sdk.Wordpress.{Member, Progress, RestoreError, apply, eof}
use binfinity_addon_sdk.Wordpress.Tree.{Services, Site, TreePath, find, on_site}
use binfinity_addon_sdk.Wordpress.Backup.{Visit, regular, write}
use binfinity_addon_sdk.Wordpress.Kept.{Content, IsWalk, kept}
use binfinity_addon_sdk.Wordpress.RoundTrip.{restore_backup}
use binfinity_addon_sdk.Wordpress.Chained.{delta, restore_delta}
use binfinity_addon_sdk.Wordpress.Cleared.{any_content}
use binfinity_addon_sdk.Wordpress.Grown.{IsSound}

-- A tree at the time of an incremental backup, its walk, the cursor and the dump.
pub record Layer : Type 0 where
  pub content : Content
  pub since : ℕ
  pub walk : List Visit
  pub dump : Str

module _ (o : Services) (excludes : List Str) where
  abbrev pub layer_delta : Layer → List Member × Option Str
  layer_delta l = delta o excludes l.content l.since l.walk l.dump

  abbrev pub layer_restored : Layer → Site → Progress Site × Option RestoreError
  layer_restored l s = apply (on_site o) false eof (layer_delta l).0 s

  -- The layer's backup ended, and what did not change after its cursor was in the tree before.
  pub record Follows (before : Content) (l : Layer) : Type 0 where
    pub walks : IsWalk l.content l.walk
    pub backed : (layer_delta l).1 ≡ none
    pub unchanged :
        (v : Visit) (changed : ℕ) (b : Str)
        → In v l.walk
        → v.info ≡ regular changed (ok b)
        → changed ≤ l.since
        → kept excludes l.content v.path ≡ some (file b)
        → kept excludes before v.path ≡ some (file b)

  abbrev pub IsSequence : Content → List Layer → Type 0
  IsSequence before [] = Unit
  IsSequence before (l ∷ ls) = Follows before l × IsSequence l.content ls

  -- Each layer is restored without an error.
  abbrev pub AllDone : List Layer → Site → Type 0
  AllDone [] s = Unit
  AllDone (l ∷ ls) s = ((layer_restored l s).1 ≡ none) × AllDone ls (layer_restored l s).0.world

  abbrev pub layers_restored : List Layer → Site → Site
  layers_restored [] s = s
  layers_restored (l ∷ ls) s = layers_restored ls (layer_restored l s).0.world

  abbrev pub last_content : Content → List Layer → Content
  last_content before [] = before
  last_content before (l ∷ ls) = last_content l.content ls

  abbrev pub last_db : List Layer → Str → Str
  last_db [] db = db
  last_db (l ∷ ls) db = last_db ls (o.import l.dump db).0

  -- The site has the database and every file that the tree keeps.
  pub record HoldsAll (content : Content) (db : Str) (s : Site) : Type 0 where
    pub holds_db : s.db ≡ db
    pub holds :
        (p : TreePath) (b : Str)
        → kept excludes content p ≡ some (file b)
        → find p s.tree.entries ≡ some (file b)

  layers-HoldsAll :
      (before : Content) (ls : List Layer) (db : Str) (s : Site)
      → IsSequence before ls
      → AllDone ls s
      → HoldsAll before db s
      → HoldsAll (last_content before ls) (last_db ls db) (layers_restored ls s)
  layers-HoldsAll before [] db s follows done h = h
  layers-HoldsAll before (l ∷ ls) db s follows done h =
      let f = follows.0 in
      let step =
        restore_delta o excludes l.content l.since l.walk l.dump s f.walks f.backed
          (λ v changed b m i old k. h.holds v.path b (f.unchanged v changed b m i (ground arith) k))
          done.0 in
      layers-HoldsAll l.content ls (o.import l.dump db).0 (layer_restored l s).0.world follows.1
        done.1
        (record {
          holds_db = step.same_db ∙ ap (λ d. (o.import l.dump d).0) h.holds_db;
          holds = step.files;
        })

  module _ (content : Content) (vs : List Visit) (dump : Str) (s : Site) where
    abbrev pub base_restored : Progress Site × Option RestoreError
    base_restored = apply (on_site o) true eof (write (ok dump) excludes none vs).0 s

    -- Take a full backup of a wp-content tree that is walked as a whole, and after it incremental
    -- backups of later trees, in each of which every kept file whose time of change is not later
    -- than the cursor stood with the same bytes in the tree before. Each backup ends without an
    -- error, and the full one has a member of the content tree. Restore the full one as the base,
    -- to a site whose wp-content is a directory and where no call of the operating system and not
    -- the import of the dump fails, and then each incremental one in its order. If these return no
    -- error, the database is at the end what the imports leave in their order, and wp-content
    -- holds every file that the last tree keeps, with its bytes.
    pub restore_layers :
        (ls : List Layer)
        → IsWalk content vs
        → (write (ok dump) excludes none vs).1 ≡ none
        → any_content (write (ok dump) excludes none vs).0 ≡ true
        → IsSound s.tree.faults
        → find [] s.tree.entries ≡ some folder
        → (o.import dump s.db).1 ≡ none
        → IsSequence content ls
        → AllDone ls base_restored.0.world
        → HoldsAll
            (last_content content ls)
            (last_db ls (o.import dump s.db).0)
            (layers_restored ls base_restored.0.world)
    restore_layers ls walk backed some_content sound top imports follows done =
        let base =
          (restore_backup o excludes content vs walk dump s backed some_content sound top
            imports).1 in
        layers-HoldsAll content ls (o.import dump s.db).0 base_restored.0.world follows done
          (record { holds_db = base.same_db; holds = λ p b k. base.same_files p ∙ k })
