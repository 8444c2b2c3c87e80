-- ===== src/Runner/LoopTests.antt =====
-- A round that delivers nothing, and one that delivers everything (sdk.go, reportLoop).
use binfinity_addon_sdk.Prelude.{
  List, Option, Str, [], arith, codes, false, if◌then◌else◌, inl, inr, is_empty, none, not, refl,
  some, str_eq, true, ℕ, ◌&&◌, ◌++◌, ◌∷◌, ◌≡◌,
}
use binfinity_addon_sdk.Disk.{Disk, unopened}
use binfinity_addon_sdk.Outbox.{Sender, pending_on}
use binfinity_addon_sdk.Outbox.Fixtures.{
  by_id, empty_disk, two_reports, two_reports-IsOwned, two_reports-ReadsOk, two_reports-faults,
}
use binfinity_addon_sdk.Runner.{Runner}
use binfinity_addon_sdk.Runner.Fixtures.{
  all_down, command, connector, credentials, enrolled, outbox_of, plane,
}
use binfinity_addon_sdk.Runner.Drained.{IsReady, report_rounds, report_rounds_drain}
use binfinity_addon_sdk.Outcome.{err, ok}
use binfinity_addon_sdk.Wire.{Command, Credentials}
use binfinity_addon_sdk.Runner.Saved.{Boot, obtain}
use binfinity_addon_sdk.Runner.Restarted.{obtain_again}
use binfinity_addon_sdk.Runner.Requests.{Net, Tick, crashed, poll_loop, returned}
use binfinity_addon_sdk.Runner.Polling.{IsIdle, Returns, poll_loop-IsIdle}
use binfinity_addon_sdk.Runner.Execute.{Env}
use binfinity_addon_sdk.Runner.Backup.{Connector, produced}
use binfinity_addon_sdk.Runner.Hang.{command_hangs}
use binfinity_addon_sdk.Runner.Entry.{Process, main_agent}
use binfinity_addon_sdk.Runner.Entry.Started.{can_enroll, is_started, main_agent-is_started}

abbrev link_down : Sender
link_down = record { ctx_done = λ p. false; send = λ p. false }

abbrev link_up : Sender
link_up = record { ctx_done = λ p. false; send = λ p. true }

abbrev loaded : Runner
loaded = record enrolled { out = some two_reports }

two_reports-IsReady : IsReady by_id two_reports
two_reports-IsReady = record {
  reads = two_reports-ReadsOk;
  owned = two_reports-IsOwned;
  removes = λ n. rw two_reports-faults refl;
}

report_rounds_drain_example :
    (d : Disk) × ((report_rounds by_id (link_down ∷ link_up ∷ []) 3 loaded).0.out ≡ some d)
    × (pending_on by_id d ≡ [])
    × ((report_rounds by_id (link_down ∷ link_up ∷ []) 3 loaded).1 ≡ 0)
report_rounds_drain_example =
    report_rounds_drain by_id link_down (link_up ∷ []) 3 loaded two_reports refl two_reports-IsReady
      ((λ p. refl), ((λ p. refl), tt)) (λ q m. inr (inl refl))

-- The credentials written as their client id, and read back from it.
abbrev by_client : Credentials → Str
by_client c = c.client_id

abbrev of_client : Str → Option Credentials
of_client text = some (record credentials { client_id = text; enrolled_at = codes "now" })

abbrev first_boot : Boot
first_boot = record {
  now = codes "now";
  reply = ok (record { status = 201; body = codes "sys-9" });
  fault = none;
}

-- The platform is down, and the disk is full.
abbrev second_boot : Boot
second_boot = record {
  now = codes "later";
  reply = err (codes "unreachable");
  fault = some unopened;
}

abbrev client_9 : Credentials
client_9 = record credentials { client_id = codes "sys-9"; enrolled_at = codes "now" }

obtained :
    obtain of_client by_client first_boot (codes "k") none ≡ (ok client_9, some (codes "sys-9"))
unfolding obtain
obtained = refl

obtain_again_example :
    obtain of_client by_client second_boot [] (some (codes "sys-9"))
    ≡ (ok client_9, some (codes "sys-9"))
obtain_again_example =
    obtain_again of_client by_client first_boot (codes "k") none obtained refl refl refl second_boot
      []

abbrev quiet_env : Env
quiet_env = record {
  planes = λ dp. plane;
  now = 5;
  stamp = codes "t";
  early = [];
  during = [];
  late = [];
  json = by_id;
  post = record { unbuilt = none; now = 0; attempts = all_down; status = λ tok p. none };
}

-- Polls are answered with this status.
abbrev answering : ℕ → Net
answering status = record {
  new_request = λ url. none;
  now = 0;
  attempts = all_down;
  exchange = λ q. ok (record { status = status; body = q.url });
}

-- Every body is a backup command.
abbrev one_command : Str → Option Command
one_command text = some (command (codes "backup") [])

abbrev ticks : List Tick
ticks =
    record { net = answering 204; env = quiet_env }
    ∷ record { net = answering 200; env = quiet_env }
    ∷ []

-- A connector that is not incremental.
abbrev plain : Connector
plain = record connector { incremental = none }

quiet-Returns : Returns one_command plain quiet_env
unfolding command_hangs produced
quiet-Returns cmd r = ground arith

poll_loop-IsIdle_example :
    (s : Runner) × (poll_loop one_command plain ticks enrolled ≡ returned s) × IsIdle s
poll_loop-IsIdle_example =
    poll_loop-IsIdle one_command plain ticks enrolled
      (((λ url. refl), quiet-Returns), (((λ url. refl), quiet-Returns), tt))
      (refl, (refl, refl, refl, refl))

-- A request that cannot be built
abbrev broken : Net
broken = record (answering 204) { new_request = λ url. some (codes "parse") }

poll_panics :
    poll_loop one_command connector (record { net = broken; env = quiet_env } ∷ []) enrolled
    ≡ crashed
unfolding poll_loop
poll_panics = refl

abbrev process : Process
process = record {
  memory = record { gomemlimit = []; override = []; memory_max = none; limit_in_bytes = none };
  environ = record {
    get = λ k. if str_eq k (codes "BF_ENDPOINT") then codes "https://p/" else [];
    host = codes "h";
    parse_duration = λ s. none;
    join = λ a b. a ++ (b'/' ∷ b);
  };
  data_type = codes "files";
  outbox_dir = outbox_of;
  disk = empty_disk;
  saved = some (codes "sys-9");
}

main_agent-is_started_example :
    is_started (main_agent of_client by_client process second_boot).started ≡ (
      not (is_empty (process.environ.get (codes "BF_ENDPOINT")))
      && can_enroll of_client by_client second_boot
          (process.environ.get (codes "BF_SETUP_KEY"))
          process.saved)
main_agent-is_started_example = main_agent-is_started of_client by_client process second_boot
