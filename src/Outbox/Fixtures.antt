-- ===== src/Outbox/Fixtures.antt =====
-- A directory with reports, for the tests of the outbox (outbox.go) and of the agent (sdk.go).
use binfinity_addon_sdk.Prelude.{Str, [], codes, false, none, refl, some, str_eq, ◌∙◌, ◌≡◌}
use binfinity_addon_sdk.Wire.{Result, status_done}
use binfinity_addon_sdk.Disk.{Disk, Faults, lookup}
use binfinity_addon_sdk.Outbox.{Json, PendingReport, enqueue_on, ext, parse_node}
use binfinity_addon_sdk.Outbox.View.{HoldsAt, ReadsOk}
use binfinity_addon_sdk.Outbox.Durable.{ReadsOk-faults, enqueue_on-faults}
use binfinity_addon_sdk.Outbox.Owned.{IsOwned, enqueue_on-IsOwned, parse_node-none}

abbrev pub sample_result : Result
sample_result = record {
  status = status_done;
  backup_id = codes "b-1";
  bytes = 3;
  error = [];
  cursor = [];
}

abbrev pub sample : Str → PendingReport
sample id = record { cmd_id = id; result = sample_result }

-- An encoding that writes only the id, and reads every text as a sample.
abbrev pub by_id : Json
by_id = record { encode = λ p. p.cmd_id; decode = λ text. some (sample text) }

abbrev pub no_faults : Faults
no_faults = record {
  write_fails = λ n. none;
  rename_fails = λ n. false;
  remove_fails = λ n. false;
  read_dir_fails = false;
  read_fails = λ n. false;
}

abbrev pub empty_disk : Disk
empty_disk = record { entries = []; faults = no_faults }

pub empty_disk-ReadsOk : ReadsOk empty_disk
empty_disk-ReadsOk = record { dir = refl; files = λ n. refl }

pub empty_disk-IsOwned : IsOwned by_id empty_disk
unfolding lookup
empty_disk-IsOwned = record { at = λ n p h. absurd (parse_node-none by_id p h.1) }

-- The results of two commands are enqueued.
abbrev pub one_report : Disk
one_report = (enqueue_on by_id (codes "job/1") sample_result empty_disk).0

abbrev pub two_reports : Disk
two_reports = (enqueue_on by_id (codes "2") sample_result one_report).0

pub two_reports-faults : two_reports.faults ≡ no_faults
two_reports-faults =
    enqueue_on-faults by_id (codes "2") sample_result one_report
    ∙ enqueue_on-faults by_id (codes "job/1") sample_result empty_disk

pub two_reports-ReadsOk : ReadsOk two_reports
two_reports-ReadsOk = ReadsOk-faults two_reports-faults empty_disk-ReadsOk

pub two_reports-IsOwned : IsOwned by_id two_reports
two_reports-IsOwned =
    enqueue_on-IsOwned by_id (codes "2") sample_result one_report refl refl (
      enqueue_on-IsOwned by_id (codes "job/1") sample_result empty_disk refl refl
        empty_disk-IsOwned)

pub first_held : HoldsAt by_id two_reports (codes "job_1.json") (sample (codes "job/1"))
unfolding enqueue_on ext str_eq parse_node
first_held = (refl, refl)
