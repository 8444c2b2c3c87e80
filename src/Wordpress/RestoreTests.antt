-- ===== src/Wordpress/RestoreTests.antt =====
-- A site, its backup and its restore, and a configuration (examples/wordpress-client/main.go).
use binfinity_addon_sdk.Prelude.{
  List, Option, Str, [], ap, codes, contains_byte, cut_prefix, false, if◌then◌else◌, non_empty_or,
  none, refl, some, str_eq, trim_space, true, ℕ, ◌++◌, ◌∷◌, ◌≡◌,
}
use binfinity_addon_sdk.Outcome.{ok}
use binfinity_addon_sdk.Disk.{file, folder}
use binfinity_addon_sdk.Wordpress.{Member, apply, content_rel, eof, is_db_dump}
use binfinity_addon_sdk.Wordpress.Tree.{Services, Site, find, on_site, path_eq}
use binfinity_addon_sdk.Wordpress.Backup.{dump_member, write}
use binfinity_addon_sdk.Wordpress.Kept.{kept}
use binfinity_addon_sdk.Wordpress.Grown.{IsSound}
use binfinity_addon_sdk.Wordpress.RoundTrip.{IsRestored, restore_backup}
use binfinity_addon_sdk.Wordpress.Cleared.{any_content}
use binfinity_addon_sdk.Wordpress.Config.{WpEnv, new_connector}
use binfinity_addon_sdk.Wordpress.Config.HostPort.{IsTrimmed, db-new_connector}
use binfinity_addon_sdk.Wordpress.Fixtures.{content, content-IsWalk, walked}
use binfinity_addon_sdk.Wordpress.Layers.{
  AllDone, Follows, HoldsAll, Layer, base_restored, layer_delta, layers_restored, restore_layers,
}

-- A site with an older file, and services that import any dump.
abbrev site : Site
site = record {
  db = codes "old";
  tree = record {
    entries = ([], folder) ∷ (codes "old.php" ∷ [], file (codes "y")) ∷ [];
    faults = record {
      read_dir_fails = false;
      remove_fails = λ p. false;
      mkdir_fails = λ p. false;
      write_fails = λ p. none;
      text = [];
    };
  };
}

abbrev services : Services
services = record { import = λ bytes db. (bytes, none); flush = none }

abbrev excludes : List Str
excludes = codes "cache" ∷ []

abbrev stream : List Member
stream = (write (ok (codes "dump")) excludes none walked).0

site-IsSound : IsSound site.tree.faults
site-IsSound = record {
  read_dir = refl;
  removes = λ p. refl;
  mkdirs = λ p. refl;
  writes = λ p. refl;
}

stream_done : write (ok (codes "dump")) excludes none walked ≡ (
  dump_member (codes "dump")
      ∷ record { name = codes "files/a.php"; is_dir = false; bytes = codes "x" }
      ∷ [],
  none,
)
unfolding write
stream_done = refl

stream_content : any_content stream ≡ true
unfolding write content_rel cut_prefix is_db_dump
stream_content = refl

site_root : find [] site.tree.entries ≡ some folder
unfolding find path_eq
site_root = refl

restore_backup_example :
    ((apply (on_site services) true eof stream site).1 ≡ none)
    × IsRestored
        (apply (on_site services) true eof stream site).0.world
        (codes "dump")
        (kept excludes content)
restore_backup_example =
    restore_backup services excludes content walked content-IsWalk (codes "dump") site
      (ap (λ (r : List Member × Option Str). r.1) stream_done) stream_content site-IsSound site_root
      refl

-- The same tree again, with its file changed after the first cursor and before the second.
abbrev layer : ℕ → Layer
layer since = record { content = content; since = since; walk = walked; dump = codes "later" }

layer_backed : (layer_delta services excludes (layer 3)).1 ≡ none
unfolding write
layer_backed = refl

late_backed : (layer_delta services excludes (layer 9)).1 ≡ none
unfolding write
late_backed = refl

layer-Follows : Follows services excludes content (layer 3)
layer-Follows = record {
  walks = content-IsWalk;
  backed = layer_backed;
  unchanged = λ v changed b m i old k. k;
}

late-Follows : Follows services excludes content (layer 9)
late-Follows = record {
  walks = content-IsWalk;
  backed = late_backed;
  unchanged = λ v changed b m i old k. k;
}

abbrev restored_base : Site
restored_base = (base_restored services excludes content walked (codes "dump") site).0.world

layers_done : AllDone services excludes (layer 3 ∷ layer 9 ∷ []) restored_base
unfolding write apply on_site
layers_done = (refl, (refl, tt))

restore_layers_example :
    HoldsAll services excludes content
      (codes "later")
      (layers_restored services excludes (layer 3 ∷ layer 9 ∷ []) restored_base)
restore_layers_example =
    restore_layers services excludes content walked (codes "dump") site (layer 3 ∷ layer 9 ∷ [])
      content-IsWalk (ap (λ (r : List Member × Option Str). r.1) stream_done) stream_content
      site-IsSound site_root refl (layer-Follows, (late-Follows, tt)) layers_done

-- An environment with a host and a port in one variable.
abbrev wp_env : WpEnv
wp_env = record {
  get = λ k. if str_eq k (codes "WP_DB_HOST") then codes "db:3307" else [];
  dir = λ p. p;
  join = λ a b. a ++ (codes "/" ++ b);
}

wp_env_host : wp_env.get (codes "WP_DB_HOST") ≡ codes "db" ++ (b':' ∷ codes "3307")
unfolding str_eq
wp_env_host = refl

wp_env-IsTrimmed : IsTrimmed (codes "db" ++ (b':' ∷ codes "3307"))
unfolding trim_space
wp_env-IsTrimmed = refl

port_flat : contains_byte b':' (codes "3307") ≡ false
unfolding contains_byte
port_flat = refl

port_no_slash : contains_byte b'/' (codes "3307") ≡ false
unfolding contains_byte
port_no_slash = refl

db-new_connector_example :
    ((new_connector wp_env (codes "/w/wp-config.php") (λ k. [])).db.host ≡ codes "db")
    × ((new_connector wp_env (codes "/w/wp-config.php") (λ k. [])).db.port
        ≡ non_empty_or
            (wp_env.get (codes "WP_DB_PORT"))
            (non_empty_or (wp_env.get (codes "WORDPRESS_DB_PORT")) (codes "3307")))
db-new_connector_example =
    db-new_connector wp_env (codes "/w/wp-config.php") (λ k. []) (codes "db") (codes "3307")
      wp_env_host wp_env-IsTrimmed port_flat port_no_slash
