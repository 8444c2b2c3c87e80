-- ===== src/Runner.antt =====
-- sdk.go: the live state of the agent, and the methods that change one part of it under its mutex.
-- Each of these runs as one step. Logging is left out.
pub mod Setup
pub mod Plane
pub mod Enrolled
pub mod Saved
pub mod Restarted
pub mod Entry
pub mod Environ
pub mod Intervals
pub mod Token
pub mod Granted
pub mod Delivery
pub mod Backup
pub mod Restore
pub mod Execute
pub mod Hang
pub mod Frame
pub mod Results
pub mod Cancel
pub mod Finished
pub mod Restored
pub mod BackedUp
pub mod Reported
pub mod Contract
pub mod Delivered
pub mod Drained
pub mod Requests
pub mod Polling
pub mod Rested
pub mod Fixtures
mod Tests
mod LoopTests
mod JobTests
use binfinity_addon_sdk.Prelude.{
  Bool, List, Option, Str, [], codes, false, if◌then◌else◌, non_empty_or, none, slt, some, str_eq,
  true, wrap, ℕ, ◌+◌, ◌||◌, ◌∷◌,
}
use binfinity_addon_sdk.Wire.{Heartbeat, activity_idle}
use binfinity_addon_sdk.Disk.{Disk}

-- CLIDataPlane, as newRunner and applyDP fill it
pub record CliDataPlane : Type 0 where
  pub binary : Str
  pub store : Str
  pub passphrase : Str
  pub sms_token : Str

-- A data plane that the caller injected is known by a number.
pub data DataPlane : Type 0 where
  custom : ℕ → DataPlane
  cli : CliDataPlane → DataPlane

-- Durations are in nanoseconds. A caller's HTTP client is known by a number.
pub record Config : Type 0 where
  pub endpoint : Str
  pub setup_key : Str
  pub store : Str
  pub sms_token : Str
  pub passphrase : Str
  pub name : Str
  pub cred_path : Str
  pub heartbeat : ℕ
  pub poll : ℕ
  pub report_base : ℕ
  pub insecure : Bool
  pub http_client : Option ℕ
  pub data_plane : Option DataPlane

-- The HTTP client: the caller's, or one built with or without TLS verification.
pub data Client : Type 0 where
  given : ℕ → Client
  built : Bool → Client

-- The cancel function of a job that is registered, and whether it has been called.
pub data Job : Type 0 where
  no_job : Job
  running : Bool → Job

pub record Runner : Type 0 where
  pub cfg : Config
  pub hc : Client
  pub system_id : Str
  pub secret : Str
  pub name : Str
  pub seed : ℕ
  pub out : Option Disk
  pub dp : DataPlane
  pub dp_store : Str
  pub dp_token : Str
  pub custom_dp : Bool
  pub activity : Str
  pub started_at : Option ℕ  -- `none` is the zero time
  pub bytes_done : ℕ
  pub bytes_total : ℕ
  pub job : Job
  pub cancel_asked : Bool
  pub tok : Str
  pub tok_exp : ℕ

-- The context of the job, a child of the agent's: whether it is done, where the agent's is or not.
abbrev pub context_of : Bool → Job → Option Bool
context_of parent_done no_job = none
context_of parent_done (running called) = some (called || parent_done)

-- context.WithCancel, with its cancel function registered
unfoldable pub start_job : Runner → Runner
start_job r = record r { job = running false; cancel_asked = false }

unfoldable pub end_job : Runner → Runner
end_job r = record r { job = no_job }

unfoldable pub cancel_job : Job → Runner → Runner
cancel_job no_job r = r
cancel_job (running called) r = record r { job = running true; cancel_asked = true }

unfoldable pub request_cancel : Runner → Runner
unfolding cancel_job
request_cancel r = cancel_job r.job r

abbrev pub was_cancelled : Runner → Bool
was_cancelled r = r.cancel_asked

abbrev pub default_store : Str
default_store = codes "grpc://localhost:8090"

unfoldable pub apply_dp : Str → Str → Runner → Runner
apply_dp store token r =
    if r.custom_dp
    then r
    else (let dp_store = non_empty_or store r.dp_store in
        let dp_token = non_empty_or token r.dp_token in
        record r {
          dp_store = dp_store;
          dp_token = dp_token;
          dp = cli (record {
            binary = [];
            store = non_empty_or dp_store default_store;
            passphrase = r.cfg.passphrase;
            sms_token = dp_token;
          });
        })

unfoldable pub set_activity : Str → Runner → Runner
set_activity a r = record r { activity = a }

unfoldable pub begin_progress : ℕ → ℕ → Runner → Runner
begin_progress now total r = record r { started_at = some now; bytes_done = 0; bytes_total = total }

unfoldable pub add_bytes : ℕ → Runner → Runner
add_bytes n r = record r { bytes_done = wrap (r.bytes_done + n) }

unfoldable pub end_activity : Runner → Runner
end_activity r = record r {
  activity = activity_idle;
  started_at = none;
  bytes_done = 0;
  bytes_total = 0;
}

-- countingWriter.Write and countingReader.Read: the inner call returned `n`
unfoldable pub count : ℕ → Runner → Runner
unfolding add_bytes
count n r = if slt 0 n then add_bytes n r else r

unfoldable pub count_all : List ℕ → Runner → Runner
unfolding count
count_all [] r = r
count_all (n ∷ ns) r = count_all ns (count n r)

-- sendHeartbeat's message; `format` is time.Time.Format with RFC 3339
unfoldable pub heartbeat_of : (ℕ → Str) → Str → Runner → Heartbeat
heartbeat_of format data_type r =
    if str_eq r.activity activity_idle
    then record {
      system_id = r.system_id;
      name = r.name;
      data_type = data_type;
      activity = r.activity;
      started_at = [];
      bytes_done = 0;
      bytes_total = 0;
    }
    else record {
      system_id = r.system_id;
      name = r.name;
      data_type = data_type;
      activity = r.activity;
      started_at = elim (r.started_at) [ none ↦ [] | some t ↦ format t ];
      bytes_done = r.bytes_done;
      bytes_total = r.bytes_total;
    }

-- What sendHeartbeat makes of the reply: `some true` is a reply that decodes with cancel set.
unfoldable pub heartbeat_reply : Option Bool → Runner → Runner
unfolding request_cancel
heartbeat_reply none r = r
heartbeat_reply (some false) r = r
heartbeat_reply (some true) r = request_cancel r

-- The replies that arrive, one after another, while another goroutine is between two steps.
unfoldable pub heartbeat_replies : List (Option Bool) → Runner → Runner
unfolding heartbeat_reply
heartbeat_replies [] r = r
heartbeat_replies (reply ∷ replies) r = heartbeat_replies replies (heartbeat_reply reply r)
