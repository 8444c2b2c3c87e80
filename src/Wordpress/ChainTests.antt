-- ===== src/Wordpress/ChainTests.antt =====
-- A delta that is restored over an older site (examples/wordpress-client/main.go).
use binfinity_addon_sdk.Prelude.{List, Option, Str, [], codes, false, none, refl, str_eq, ◌∷◌, ◌≡◌}
use binfinity_addon_sdk.Disk.{file, folder}
use binfinity_addon_sdk.Wordpress.{Member, apply, eof}
use binfinity_addon_sdk.Wordpress.Tree.{Services, Site, extract, find, mkdir_all, on_site, path_eq}
use binfinity_addon_sdk.Wordpress.Paths.{target}
use binfinity_addon_sdk.Wordpress.Backup.{write}
use binfinity_addon_sdk.Wordpress.Merged.{Merges, apply-Merges, imports, stream_writes}
use binfinity_addon_sdk.Wordpress.Chained.{delta}
use binfinity_addon_sdk.Wordpress.Fixtures.{content, names, walked}

-- An older version of the file, and a file that is gone since.
abbrev older : Site
older = record {
  db = codes "old";
  tree = record {
    entries =
        ([], folder) ∷ (names, file (codes "w")) ∷ (codes "old.php" ∷ [], file (codes "y")) ∷ [];
    faults = record {
      read_dir_fails = false;
      remove_fails = λ p. false;
      mkdir_fails = λ p. false;
      write_fails = λ p. none;
      text = [];
    };
  };
}

abbrev services : Services
services = record { import = λ bytes db. (bytes, none); flush = none }

abbrev excludes : List Str
excludes = codes "cache" ∷ []

abbrev the_delta : List Member × Option Str
the_delta = delta services excludes content 3 walked (codes "dump")

delta_done : the_delta.1 ≡ none
unfolding write
delta_done = refl

delta_applies : (apply (on_site services) false eof the_delta.0 older).1 ≡ none
unfolding write apply extract target mkdir_all find path_eq str_eq on_site
delta_applies = refl

apply-Merges_example :
    Merges services
      (stream_writes the_delta.0)
      (imports services the_delta.0 (codes "old"))
      older
      (apply (on_site services) false eof the_delta.0 older).0.world
apply-Merges_example = apply-Merges services eof the_delta.0 older delta_applies
