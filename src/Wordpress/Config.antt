-- ===== src/Wordpress/Config.antt =====
-- The configuration of the WordPress connector (examples/wordpress-client/main.go: newConnector,
-- discoverObjectCache, splitHostPort, firstNonEmpty, envOr). The path that findWPConfig found and
-- the map that parseWPConfig returned are arguments.
pub mod HostPort
use binfinity_addon_sdk.Prelude.{
  List, Option, Str, [], codes, contains_byte, if◌then◌else◌, non_empty_or, none, some, trim_space,
  ◌++◌, ◌==◌, ◌∷◌,
}
use binfinity_addon_sdk.Wordpress.Resp.{RedisConf}
use binfinity_addon_sdk.Wordpress.Paths.{push_first}

pub record DbConf : Type 0 where
  pub host : Str
  pub port : Str
  pub user : Str
  pub pass : Str
  pub name : Str

pub record WpConnector : Type 0 where
  pub content : Str
  pub exclude : List Str
  pub db : DbConf
  pub redis : RedisConf

-- os.Getenv, filepath.Dir and filepath.Join
pub record WpEnv : Type 0 where
  pub get : Str → Str
  pub dir : Str → Str
  pub join : Str → Str → Str

abbrev pub first_non_empty : List Str → Str
first_non_empty [] = []
first_non_empty (v ∷ vs) = non_empty_or v (first_non_empty vs)

-- what stands before and after the last colon
unfoldable pub last_colon : Str → Option (Str × Str)
last_colon [] = none
last_colon (c ∷ s) = elim (last_colon s) [
  | some r ↦ some (c ∷ r.0, r.1)
  | none ↦ if c == b':' then some ([], s) else none
]

abbrev host_port : Str → Option (Str × Str) → Str × Str
host_port h none = (h, codes "3306")
host_port h (some r) = if contains_byte b'/' r.1 then (h, codes "3306") else r

unfoldable pub split_host_port : Str → Str × Str
unfolding last_colon trim_space contains_byte
split_host_port h = host_port (trim_space h) (last_colon (trim_space h))

-- strings.Split at commas
split_commas : Str → List Str
unfolding push_first
split_commas [] = [] ∷ []
split_commas (c ∷ s) =
    let rest = split_commas s in if c == b',' then [] ∷ rest else push_first c rest

discover_object_cache : WpEnv → (Str → Str) → RedisConf
discover_object_cache e cfg = record {
  host = first_non_empty (e.get (codes "WP_REDIS_HOST") ∷ cfg (codes "WP_REDIS_HOST") ∷ []);
  port =
      first_non_empty
        (e.get (codes "WP_REDIS_PORT") ∷ cfg (codes "WP_REDIS_PORT") ∷ codes "6379" ∷ []);
  pass = first_non_empty (e.get (codes "WP_REDIS_PASSWORD") ∷ cfg (codes "WP_REDIS_PASSWORD") ∷ []);
}

-- The value that a WP_DB_* variable, the official image's variable, wp-config or the default gives.
abbrev db_value : WpEnv → (Str → Str) → Str → Str → Str → Str
db_value e cfg key config_key default = first_non_empty (
    e.get (codes "WP_DB_" ++ key)
    ∷ e.get (codes "WORDPRESS_DB_" ++ key)
    ∷ cfg config_key
    ∷ default
    ∷ [])

unfoldable pub new_connector : WpEnv → Str → (Str → Str) → WpConnector
unfolding split_host_port split_commas discover_object_cache
new_connector e cfg_path cfg =
    let root = non_empty_or (e.get (codes "WP_PATH")) (e.dir cfg_path) in
    let content = non_empty_or (e.get (codes "WP_CONTENT")) (e.join root (codes "wp-content")) in
    let (host, port) =
      split_host_port (db_value e cfg (codes "HOST") (codes "DB_HOST") (codes "localhost")) in
    let set_port =
      first_non_empty (e.get (codes "WP_DB_PORT") ∷ e.get (codes "WORDPRESS_DB_PORT") ∷ []) in
    record {
      content = content;
      exclude = split_commas (
          non_empty_or (e.get (codes "WP_EXCLUDE"))
            (codes "cache,upgrade,upgrade-temp-backup,updraft,ai1wm-backups,backup,backups"));
      db = record {
        host = host;
        port = non_empty_or set_port port;
        user = db_value e cfg (codes "USER") (codes "DB_USER") (codes "root");
        pass = db_value e cfg (codes "PASSWORD") (codes "DB_PASSWORD") [];
        name = db_value e cfg (codes "NAME") (codes "DB_NAME") (codes "wordpress");
      };
      redis = discover_object_cache e cfg;
    }
