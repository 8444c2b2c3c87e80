-- ===== src/Agent/Tests.antt =====
-- Examples of the running agent (sdk.go).
use binfinity_addon_sdk.Prelude.{
  In, Str, [], codes, false, if◌then◌else◌, is_empty, none, refl, some, str_eq, true, ◌*◌, ◌++◌,
  ◌∷◌, ◌≡◌,
}
use binfinity_addon_sdk.Wire.{Command, Result, cmd_backup}
use binfinity_addon_sdk.Outcome.{ok}
use binfinity_addon_sdk.Outbox.Fixtures.{
  by_id, empty_disk, first_held, sample, sample_result, two_reports, two_reports-IsOwned,
  two_reports-ReadsOk,
}
use binfinity_addon_sdk.Runner.{
  Runner, cli, default_store, end_activity, heartbeat_reply, start_job,
}
use binfinity_addon_sdk.Runner.Fixtures.{agent, agent_new, all_down, config, credentials, outbox_of}
use binfinity_addon_sdk.Runner.Backup.{Connector, Io, Plane}
use binfinity_addon_sdk.Runner.Execute.{Env, run_command}
use binfinity_addon_sdk.Runner.Setup.{new_runner, second, start_run}
use binfinity_addon_sdk.Agent.{
  Agent, Runs, beat, drain, here, launched, next, reported, resolved, rest, rested, save, saved,
  send, stop, take, work, worked,
}
use binfinity_addon_sdk.Agent.Consistent.{reachable-IsConsistent}
use binfinity_addon_sdk.Agent.Kept.{HasContext, IsConsistent}
use binfinity_addon_sdk.Runner.Environ.{Environ, config_from_env}
use binfinity_addon_sdk.Runner.Intervals.{IsInterval, new_runner-IsInterval}
use binfinity_addon_sdk.Outbox.{Sender, enqueue, file_name, pending, safe_name}
use binfinity_addon_sdk.Runner.Delivery.{report_round, settle}
use binfinity_addon_sdk.Agent.Spared.{SparesAll, pending-spared}

abbrev plane : Plane
plane = record {
  writer = λ id kind. some 1;
  stored = λ id kind called. ok 3;
  reader = λ id. some 2;
  restored = λ id called. none;
  backup_hangs = λ id kind io. false;
  restore_hangs = λ id io. false;
}

abbrev one_write : Io
one_write = record { counts = 3 ∷ []; error = none }

abbrev connector : Connector
connector = record {
  data_type = codes "files";
  backup = λ w. one_write;
  restore = λ rd. one_write;
  estimate = none;
  incremental = none;
}

abbrev backup_command : Command
backup_command = record {
  id = codes "j-1";
  system_id = codes "sys-1";
  kind = cmd_backup;
  backup_id = codes "b-1";
  status = [];
  created = [];
  mode = codes "full";
  base_backup_id = [];
  cursor = [];
  chain = [];
}

abbrev env : Env
env = record {
  planes = λ dp. plane;
  now = 5;
  stamp = codes "20240101";
  early = [];
  during = none ∷ [];
  late = some true ∷ [];
  json = by_id;
  post = record { unbuilt = none; now = 0; attempts = all_down; status = λ tok p. none };
}

abbrev first : Runner
first = start_run credentials agent

-- A command runs, the agent is told to stop, and a cancel lands after the work.
abbrev worked_runner : Runner
worked_runner = (run_command env connector backup_command (start_job first)).0

abbrev outcome : Result
outcome = (run_command env connector backup_command (start_job first)).1

abbrev asked_runner : Runner
asked_runner = heartbeat_reply (some true) (end_activity worked_runner)

abbrev asked_agent : Agent
asked_agent = record {
  stopped = true;
  phase = rested backup_command outcome;
  runner = asked_runner;
}

one_command : Runs by_id connector (launched credentials agent) asked_agent
one_command =
    next
      (next
        (next
          (next (next here (take backup_command first)) (work env backup_command (start_job first)))
          (stop false (worked backup_command outcome) worked_runner))
        (rest backup_command outcome worked_runner))
      (beat (some true) (rested backup_command outcome) (end_activity worked_runner))

reachable-IsConsistent_example :
    IsConsistent asked_agent.phase asked_runner × HasContext true asked_agent.phase asked_runner
reachable-IsConsistent_example =
    reachable-IsConsistent false outbox_of empty_disk config agent agent_new credentials by_id
      connector asked_agent one_command

-- An environment that sets one interval.
abbrev environ : Environ
environ = record {
  get = λ k.
      if str_eq k (codes "POLL_INTERVAL")
      then codes "7s"
      else if str_eq k (codes "BF_ENDPOINT")
      then codes "https://p/"
      else [];
  host = codes "h";
  parse_duration = λ s. if is_empty s then none else some 7000000000;
  join = λ a b. a ++ b;
}

abbrev environ_runner : Runner
environ_runner = record agent {
  cfg = record agent.cfg {
    setup_key = [];
    store = [];
    passphrase = [];
    name = codes "files-h";
    cred_path = codes "credentials.json";
    poll = 7000000000;
  };
  dp = cli (record { binary = []; store = default_store; passphrase = []; sms_token = [] });
  dp_store = [];
}

environ_new :
    new_runner false outbox_of empty_disk (config_from_env environ (codes "files"))
    ≡ ok environ_runner
unfolding new_runner config_from_env str_eq
environ_new = refl

new_runner-IsInterval_example :
    IsInterval environ (codes "HEARTBEAT_INTERVAL") (10 * second) environ_runner.cfg.heartbeat
    × IsInterval environ (codes "POLL_INTERVAL") (5 * second) environ_runner.cfg.poll
    × IsInterval environ (codes "REPORT_RETRY_BASE") (2 * second) environ_runner.cfg.report_base
new_runner-IsInterval_example =
    new_runner-IsInterval false outbox_of empty_disk environ (codes "files") environ_runner
      environ_new

-- An earlier report is on disk while the result of another command is saved.
abbrev earlier : Str
earlier = codes "job_1.json"

abbrev other_command : Command
other_command = record backup_command { id = codes "j-2" }

abbrev holding : Runner
holding = record first { out = some two_reports }

abbrev saving : Agent
saving = record { stopped = false; phase = resolved other_command sample_result; runner = holding }

abbrev after_save : Runner
after_save = record holding { out = (enqueue by_id holding.out other_command.id sample_result).0 }

abbrev none_sent : Sender
none_sent = record { ctx_done = λ p. false; send = λ p. false }

abbrev after_drain : Runner
after_drain = (report_round by_id none_sent 0 after_save).0

abbrev saved_run : Runs by_id connector saving (record {
  stopped = false;
  phase = reported;
  runner = settle other_command.id true after_drain;
})
saved_run =
    next
      (next (next here (save other_command sample_result holding))
        (drain none_sent 0 (saved other_command sample_result) after_save))
      (send true other_command sample_result after_drain)

saved_run-SparesAll : SparesAll earlier (sample (codes "job/1")) saved_run
unfolding file_name safe_name str_eq
saved_run-SparesAll = (((tt, (refl, refl, refl)), refl), λ acked. refl)

pending-spared_example :
    In (sample (codes "job/1")) (pending by_id (settle other_command.id true after_drain).out)
pending-spared_example =
    pending-spared by_id earlier (sample (codes "job/1")) connector saved_run saved_run-SparesAll
      (record {
        dir = two_reports;
        there = refl;
        readable = two_reports-ReadsOk;
        owned = two_reports-IsOwned;
        held = first_held;
      })
