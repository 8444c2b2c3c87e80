-- ===== src/Runner/Fixtures.antt =====
-- A configuration, an agent and replies, for the tests of the agent (sdk.go).
use binfinity_addon_sdk.Prelude.{
  Bool, List, Option, Str, [], codes, false, if◌then◌else◌, none, refl, some, suc, true, zero, ℕ,
  ◌++◌, ◌∷◌, ◌≡◌,
}
use binfinity_addon_sdk.Wire.{Command, Credentials, activity_idle}
use binfinity_addon_sdk.Outcome.{Outcome, err, ok}
use binfinity_addon_sdk.Runner.{Config, DataPlane, Runner, built, cli, custom, no_job}
use binfinity_addon_sdk.Outbox.Fixtures.{empty_disk}
use binfinity_addon_sdk.Runner.Setup.{new_runner}
use binfinity_addon_sdk.Runner.Backup.{Connector, Incremental, Io, Plane}
use binfinity_addon_sdk.Runner.Token.{Attempts, Grant, GrantReply, replied, unreachable}

abbrev pub config : Config
config = record {
  endpoint = codes "https://p/";
  setup_key = codes "k";
  store = codes "grpc://s";
  sms_token = [];
  passphrase = codes "pp";
  name = codes "site";
  cred_path = codes "/d/c.json";
  heartbeat = 0;
  poll = 0;
  report_base = 0;
  insecure = false;
  http_client = none;
  data_plane = none;
}

abbrev pub outbox_of : Str → Str
outbox_of p = p ++ codes ".d"

-- The agent as newRunner builds it, with a data plane and an injected flag.
abbrev pub agent_with : DataPlane → Bool → Runner
agent_with dp injected = record {
  cfg = record config {
    endpoint = codes "https://p";
    heartbeat = 10000000000;
    poll = 5000000000;
    report_base = 2000000000;
    data_plane = if injected then some dp else none;
  };
  hc = built false;
  system_id = [];
  secret = [];
  name = [];
  seed = 0;
  out = some empty_disk;
  dp = dp;
  dp_store = codes "grpc://s";
  dp_token = [];
  custom_dp = injected;
  activity = activity_idle;
  started_at = none;
  bytes_done = 0;
  bytes_total = 0;
  job = no_job;
  cancel_asked = false;
  tok = [];
  tok_exp = 0;
}

abbrev pub agent : Runner
agent =
    agent_with
      (cli
        (record { binary = []; store = codes "grpc://s"; passphrase = codes "pp"; sms_token = [] }))
      false

abbrev pub injected_config : Config
injected_config = record config { data_plane = some (custom 7) }

pub agent_new : new_runner false outbox_of empty_disk config ≡ ok agent
unfolding new_runner
agent_new = refl

pub injected_new :
    new_runner false outbox_of empty_disk injected_config ≡ ok (agent_with (custom 7) true)
unfolding new_runner
injected_new = refl

abbrev pub credentials : Credentials
credentials = record {
  internal_id = codes "i";
  client_id = codes "sys-1";
  secret = codes "s3";
  name = codes "site";
  tenant_id = codes "t";
  roles = [];
  enrolled_at = codes "now";
  store_spec = codes "grpc://other";
  sms_token = codes "sms";
}

abbrev pub grant : Grant
grant = record {
  access_token = codes "tok";
  expires_in = 300;
  store_spec = codes "grpc://third";
  sms_token = codes "sms2";
}

-- The token endpoint answers the second attempt.
abbrev pub second_reply : ℕ → GrantReply
second_reply zero = unreachable
second_reply (suc n) = replied 200 (some grant)

abbrev pub second_granted : Attempts
second_granted = record { ctx_done = λ n. false; reply = second_reply; time = λ n. 1000 }

abbrev pub all_down : Attempts
all_down = record { ctx_done = λ n. false; reply = λ n. unreachable; time = λ n. 1000 }

-- The agent with the credentials that a token needs, and nothing cached.
abbrev pub enrolled : Runner
enrolled = record agent { system_id = codes "sys-1"; secret = codes "s3" }

abbrev stored_of : Option (Option Str) → Outcome Str ℕ
stored_of (some none) = ok 3
stored_of (some (some e)) = err e
stored_of none = err (codes "no stream")

abbrev restored_of : Option (Option Str) → Option Str
restored_of (some e) = e
restored_of none = some (codes "no stream")

-- A data plane that calls the closure and returns its error.
abbrev pub plane : Plane
plane = record {
  writer = λ id kind. some 1;
  stored = λ id kind error. stored_of error;
  reader = λ id. some 2;
  restored = λ id error. restored_of error;
  backup_hangs = λ id kind io. false;
  restore_hangs = λ id io. false;
}

abbrev pub two_writes : Io
two_writes = record { counts = 3 ∷ 4 ∷ []; error = none }

abbrev pub two_way : Incremental
two_way = record {
  backup_incremental = λ w cursor. record { io = two_writes; next = codes "c1"; is_delta = true };
  restore_incremental = λ rd is_base. two_writes;
}

abbrev pub connector : Connector
connector = record {
  data_type = codes "files";
  backup = λ w. two_writes;
  restore = λ rd. two_writes;
  estimate = some 7;
  incremental = some two_way;
}

abbrev pub command : Str → List Str → Command
command kind chain = record {
  id = codes "job/3";
  system_id = codes "sys-1";
  kind = kind;
  backup_id = codes "b-1";
  status = [];
  created = [];
  mode = codes "full";
  base_backup_id = [];
  cursor = [];
  chain = chain;
}
