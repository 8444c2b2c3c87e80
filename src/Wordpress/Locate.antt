-- ===== src/Wordpress/Locate.antt =====
-- The search for wp-config.php (examples/wordpress-client/main.go: findWPConfig, searchWPConfig,
-- isFile), and newConnector with the file that it finds. A directory holds the entries that ReadDir
-- returns for it, in the order of their names, also where it returns an error.
pub mod Searched
use binfinity_addon_sdk.Prelude.{
  Bool, List, Option, Str, [], codes, false, if◌then◌else◌, ltb, non_empty_or, none, not, some,
  str_eq, ℕ, ◌++◌, ◌+◌, ◌||◌, ◌∷◌,
}
use binfinity_addon_sdk.Wordpress.Config.{WpConnector, WpEnv, first_non_empty, new_connector}
use binfinity_addon_sdk.Wordpress.WpConfig.{parse_wp_config}

mutual
  pub data Walked : Type 0 where
    leaf : Walked
    folder : WalkedList → Walked

  pub data WalkedList : Type 0 where
    no_nodes : WalkedList
    entry : Str → Walked → WalkedList → WalkedList

-- The path of an entry, with the name of the directory that the walk starts at in front.
pub data Trail : Type 0 where
  here : Str → Trail
  below : Str → Trail → Trail

abbrev pub config_name : Str
config_name = codes "wp-config.php"

unfoldable pub is_noisy : Str → Bool
unfolding str_eq
is_noisy name =
    str_eq name (codes "node_modules")
    || str_eq name (codes ".git")
    || str_eq name (codes "vendor")
    || str_eq name (codes "cache")
    || str_eq name (codes "uploads")
    || str_eq name (codes "proc")
    || str_eq name (codes "sys")
    || str_eq name (codes "dev")

-- The directory is skipped.
unfoldable pub is_skipped : ℕ → ℕ → Str → Bool
unfolding is_noisy
is_skipped max_depth depth name = ltb max_depth depth || is_noisy name

abbrev under : Str → Option Trail → Option Trail
under name none = none
under name (some p) = some (below name p)

abbrev found_or : Option Trail → Option Trail → Option Trail
found_or none later = later
found_or (some p) later = some p

-- The callback, from an entry on; the walk ends at the first match.
unfoldable mutual
  unfolding is_skipped str_eq

  pub search : ℕ → ℕ → Str → Walked → Option Trail
  search max_depth depth name leaf = if str_eq name config_name then some (here name) else none
  search max_depth depth name (folder nodes) =
      let rest = search_nodes max_depth (depth + 1) nodes in
      if is_skipped max_depth depth name then none else under name rest

  pub search_nodes : ℕ → ℕ → WalkedList → Option Trail
  search_nodes max_depth depth no_nodes = none
  search_nodes max_depth depth (entry name node nodes) =
      found_or (search max_depth depth name node) (search_nodes max_depth depth nodes)

abbrev below_text : Trail → Str
below_text (here name) = b'/' ∷ name
below_text (below name p) = b'/' ∷ (name ++ below_text p)

abbrev trail_text : Str → Trail → Str
trail_text base (here name) = base
trail_text base (below name p) = base ++ below_text p

abbrev pub found_text : Str → Option Trail → Str
found_text base none = []
found_text base (some p) = trail_text base p

-- os.Stat's error, or whether the file is a directory; os.ReadFile; what stands at a path, if Lstat
-- has no error; filepath.Clean
pub record Machine : Type 0 where
  pub env : WpEnv
  pub clean : Str → Str
  pub stat : Str → Option Bool
  pub read : Str → Option Str
  pub node : Str → Option Walked

-- isFile
abbrev is_file : Machine → Str → Bool
is_file m p = elim (m.stat p) [ none ↦ false | some is_dir ↦ not is_dir ]

-- The walk's callback has nothing to look at where Lstat has an error.
unfoldable pub search_in : Str → Str → ℕ → Option Walked → Str
unfolding search
search_in base name max_depth none = []
search_in base name max_depth (some node) = found_text base (search max_depth 0 name node)

-- The second string is the last part of the first.
abbrev pub search_wp_config : Machine → Str → Str → ℕ → Str
search_wp_config m base name max_depth = search_in base name max_depth (m.node base)

abbrev bases : List (Str × Str)
bases =
    (codes "/var/www", codes "www")
    ∷ (codes "/opt/bitnami", codes "bitnami")
    ∷ (codes "/srv", codes "srv")
    ∷ (codes "/app", codes "app")
    ∷ (codes "/home", codes "home")
    ∷ []

abbrev beside : Machine → Str → List Str
beside m [] = []
beside m (c ∷ wp) =
    m.env.join (c ∷ wp) config_name ∷ m.env.join (m.env.dir (m.clean (c ∷ wp))) config_name ∷ []

abbrev candidates : Machine → List Str
candidates m =
    beside m (m.env.get (codes "WP_PATH"))
    ++ (codes "/var/www/html/wp-config.php"
        ∷ codes "/var/www/wp-config.php"
        ∷ codes "/opt/bitnami/wordpress/wp-config.php"
        ∷ codes "/bitnami/wordpress/wp-config.php"
        ∷ codes "/app/wp-config.php"
        ∷ codes "/usr/share/wordpress/wp-config.php"
        ∷ codes "/srv/www/wordpress/wp-config.php"
        ∷ codes "/var/www/wordpress/wp-config.php"
        ∷ [])

abbrev first_file : Machine → List Str → Str → Str
first_file m [] default = default
first_file m (c ∷ cs) default =
    let rest = first_file m cs default in if is_file m c then c else rest

unfoldable pub search_all : Machine → List (Str × Str) → Str → Str
unfolding search_in
search_all m [] default = default
search_all m ((base, name) ∷ more) default =
    non_empty_or (search_wp_config m base name 6) (search_all m more default)

unfoldable pub find_wp_config : Machine → Str
unfolding search_all
find_wp_config m = non_empty_or (m.env.get (codes "WP_CONFIG")) (
    first_file m (candidates m) (
      search_all m bases (
        first_non_empty (m.env.get (codes "WP_PATH") ∷ codes "/var/www/html" ∷ [])
        ++ codes "/wp-config.php")))

-- newConnector
abbrev pub connect : Machine → WpConnector
connect m = new_connector m.env (find_wp_config m) (parse_wp_config (m.read (find_wp_config m)))
