-- ===== src/Runner/Setup.antt =====
-- sdk.go: newRunner, ensureEnrolled, and the part of Run that stands before the loops. Decoding of
-- JSON, the saved file, the enrollment's reply and the clock's text are arguments.
use binfinity_addon_sdk.Prelude.{
  Bool, Option, Str, [], false, if◌then◌else◌, is_empty, non_empty_or, none, sle, some,
  trim_slashes, trim_space, true, ℕ, ◌*◌, ◌==◌,
}
use binfinity_addon_sdk.Backoff.{seed_from}
use binfinity_addon_sdk.Wire.{Credentials, activity_idle}
use binfinity_addon_sdk.Disk.{Disk}
use binfinity_addon_sdk.Outbox.{new_outbox}
use binfinity_addon_sdk.Runner.{
  Config, DataPlane, Runner, apply_dp, built, cli, default_store, given, no_job,
}
use binfinity_addon_sdk.Outcome.{Outcome, err, ok}

pub data SetupError : Type 0 where
  nil_connector no_endpoint no_setup_key bad_reply : SetupError
  post_failed : Str → SetupError
  rejected : ℕ → Str → SetupError

abbrev pub second : ℕ
second = 1000000000

-- if d <= 0 { d = def }
abbrev pub positive_or : ℕ → ℕ → ℕ
positive_or d default = if sle d 0 then default else d

abbrev is_some : Option DataPlane → Bool
is_some none = false
is_some (some dp) = true

-- cfg, as newRunner completes it
with_defaults : Config → Config
unfolding trim_slashes
with_defaults cfg = record cfg {
  endpoint = trim_slashes cfg.endpoint;
  heartbeat = positive_or cfg.heartbeat (10 * second);
  poll = positive_or cfg.poll (5 * second);
  report_base = positive_or cfg.report_base (2 * second);
}

-- `outbox_dir` is filepath.Join(filepath.Dir(p), "outbox"), and `d` that directory.
unfoldable pub build_runner : (Str → Str) → Disk → Config → Runner
unfolding with_defaults new_outbox
build_runner outbox_dir d cfg = record {
  cfg = with_defaults cfg;
  hc = elim (cfg.http_client) [ none ↦ built cfg.insecure | some c ↦ given c ];
  system_id = [];
  secret = [];
  name = [];
  seed = 0;
  out = new_outbox (outbox_dir cfg.cred_path) d;
  dp = elim (cfg.data_plane) [
    | none ↦ cli (record {
      binary = [];
      store = non_empty_or cfg.store default_store;
      passphrase = cfg.passphrase;
      sms_token = cfg.sms_token;
    })
    | some dp ↦ dp
  ];
  dp_store = cfg.store;
  dp_token = cfg.sms_token;
  custom_dp = is_some cfg.data_plane;
  activity = activity_idle;
  started_at = none;
  bytes_done = 0;
  bytes_total = 0;
  job = no_job;
  cancel_asked = false;
  tok = [];
  tok_exp = 0;
}

-- The first argument says that the connector is nil.
unfoldable pub new_runner : Bool → (Str → Str) → Disk → Config → Outcome SetupError Runner
unfolding build_runner
new_runner is_nil outbox_dir d cfg =
    if is_nil
    then err nil_connector
    else if is_empty cfg.endpoint
    then err no_endpoint
    else ok (build_runner outbox_dir d cfg)

pub record Response : Type 0 where
  pub status : ℕ
  pub body : Str

module _ (decode : Str → Option Credentials) (now : Str) where
  -- the saved file, `none` if it cannot be read
  unfoldable pub saved_credentials : Option Str → Option Credentials
  saved_credentials none = none
  saved_credentials (some text) = elim (decode text) [
    | none ↦ none
    | some c ↦ if is_empty c.client_id then none else some c
  ]

  unfoldable pub accept_reply : Option Credentials → Outcome SetupError Credentials
  accept_reply none = err bad_reply
  accept_reply (some c) = ok (record c { enrolled_at = now })

  unfoldable pub enroll : Outcome Str Response → Outcome SetupError Credentials
  unfolding accept_reply
  enroll (err text) = err (post_failed text)
  enroll (ok resp) =
      if resp.status == 201
      then accept_reply (decode resp.body)
      else err (rejected resp.status (trim_space resp.body))

  -- The credentials, and whether they were enrolled now and are to be persisted.
  unfoldable pub ensure_enrolled :
      Option Str → Str → Outcome Str Response → Outcome SetupError Credentials × Bool
  unfolding saved_credentials enroll
  ensure_enrolled saved setup_key reply = elim (saved_credentials saved) [
    | some c ↦ (ok c, false)
    | none ↦
        if is_empty setup_key
        then (err no_setup_key, false)
        else (elim (enroll reply) [ ok c ↦ (ok c, true) | err e ↦ (err e, false) ])
  ]

-- Run, from the enrollment to the loops
unfoldable pub start_run : Credentials → Runner → Runner
unfolding seed_from apply_dp
start_run creds r =
    apply_dp (non_empty_or r.cfg.store creds.store_spec)
      (non_empty_or r.cfg.sms_token creds.sms_token)
      (record r {
        system_id = creds.client_id;
        name = creds.name;
        secret = creds.secret;
        seed = seed_from creds.client_id;
      })
