-- ===== src/Runner/Environ.antt =====
-- sdk.go: ConfigFromEnv and its helpers, over what package os and time.ParseDuration return.
use binfinity_addon_sdk.Prelude.{
  Option, Str, codes, if◌then◌else◌, is_empty, non_empty_or, none, some, str_eq, ℕ, ◌*◌, ◌++◌,
}
use binfinity_addon_sdk.Runner.{Config}
use binfinity_addon_sdk.Runner.Setup.{second}

pub record Environ : Type 0 where
  pub get : Str → Str  -- os.Getenv
  pub host : Str  -- os.Hostname, empty on an error
  pub parse_duration : Str → Option ℕ
  pub join : Str → Str → Str  -- filepath.Join

unfoldable pub duration_or : Environ → Str → ℕ → ℕ
duration_or e key default =
    if is_empty (e.get key)
    then default
    else (elim (e.parse_duration (e.get key)) [ some d ↦ d | none ↦ default ])

abbrev pub env_or : Environ → Str → Str → Str
env_or e key default = non_empty_or (e.get key) default

abbrev hostname : Environ → Str
hostname e = non_empty_or e.host (codes "edge")

default_cred_path : Environ → Str
default_cred_path e =
    if is_empty (e.get (codes "HOME"))
    then codes "credentials.json"
    else e.join (e.get (codes "HOME")) (codes "credentials.json")

unfoldable pub config_from_env : Environ → Str → Config
unfolding duration_or default_cred_path str_eq
config_from_env e data_type = record {
  endpoint = e.get (codes "BF_ENDPOINT");
  setup_key = e.get (codes "BF_SETUP_KEY");
  store = e.get (codes "STORE_SPEC");
  sms_token = e.get (codes "SMS_AUTH_TOKEN");
  passphrase = e.get (codes "BINFINITY_PASSPHRASE");
  name = env_or e (codes "BF_NAME") (data_type ++ (codes "-" ++ hostname e));
  cred_path = env_or e (codes "CRED_PATH") (default_cred_path e);
  heartbeat = duration_or e (codes "HEARTBEAT_INTERVAL") (10 * second);
  poll = duration_or e (codes "POLL_INTERVAL") (5 * second);
  report_base = duration_or e (codes "REPORT_RETRY_BASE") (2 * second);
  insecure = str_eq (e.get (codes "BF_TLS_INSECURE")) (codes "true");
  http_client = none;
  data_plane = none;
}
