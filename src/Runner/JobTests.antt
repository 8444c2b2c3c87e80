-- ===== src/Runner/JobTests.antt =====
-- Examples of commands and their reports (sdk.go).
use binfinity_addon_sdk.Prelude.{
  All, In, [], codes, false, none, refl, some, str_eq, true, word, ◌%◌, ◌↔◌, ◌∷◌, ◌≡◌, ◌≢◌,
}
use binfinity_addon_sdk.Wire.{cmd_backup, cmd_restore, status_done}
use binfinity_addon_sdk.Outbox.{PendingReport, Sender, enqueue_on, file_name, pending}
use binfinity_addon_sdk.Outbox.Fixtures.{
  by_id, empty_disk, empty_disk-IsOwned, empty_disk-ReadsOk, no_faults, sample, sample_result,
}
use binfinity_addon_sdk.Runner.Fixtures.{all_down, command, connector, enrolled, plane, two_way}
use binfinity_addon_sdk.Runner.Backup.{do_backup, produced}
use binfinity_addon_sdk.Runner.Restore.{do_restore}
use binfinity_addon_sdk.Runner.Execute.{Env, execute, run_command}
use binfinity_addon_sdk.Runner.Delivery.{Post, report}
use binfinity_addon_sdk.Runner.Reported.{cancelled, execute_result}
use binfinity_addon_sdk.Runner.Delivered.{IsAcked, answer, report_delivers}
use binfinity_addon_sdk.Runner.Restored.{Restores, do_restore_chain}
use binfinity_addon_sdk.Runner.BackedUp.{do_backup_progress, total, written_counts}

-- The platform answers no report.
abbrev no_answer : Post
no_answer = record { unbuilt = none; now = 0; attempts = all_down; status = λ tok p. none }

-- An operator's cancel lands after the work.
abbrev cancelled_late : Env
cancelled_late = record {
  planes = λ dp. plane;
  now = 5;
  stamp = codes "20240101";
  early = [];
  during = none ∷ [];
  late = some true ∷ [];
  json = by_id;
  post = no_answer;
}

execute_result_example :
    (execute cancelled_late connector (command cmd_backup []) enrolled).1
    ≡ cancelled (run_command cancelled_late connector (command cmd_backup []) enrolled).1.backup_id
execute_result_example = execute_result cancelled_late connector (command cmd_backup []) enrolled

report_delivers_example :
    (¬ IsAcked (answer by_id no_answer (codes "job/3") sample_result enrolled)
      → (enqueue_on by_id (codes "job/3") sample_result empty_disk).1 ≡ true
      → In
          (sample (codes "job/3"))
          (pending by_id (report by_id no_answer (codes "job/3") sample_result enrolled).0.out))
    × (IsAcked (answer by_id no_answer (codes "job/3") sample_result enrolled)
        → no_faults.remove_fails (file_name (codes "job/3")) ≡ false
        → (q : PendingReport)
        → In q (pending by_id (report by_id no_answer (codes "job/3") sample_result enrolled).0.out)
        → file_name q.cmd_id ≢ file_name (codes "job/3"))
report_delivers_example =
    report_delivers by_id no_answer (codes "job/3") sample_result enrolled empty_disk refl refl refl
      empty_disk-ReadsOk empty_disk-IsOwned

-- One of the pending reports is not delivered.
abbrev none_sent : Sender
none_sent = record { ctx_done = λ p. false; send = λ p. false }

do_restore_chain_example :
    ((do_restore
        (λ dp. plane)
        connector
        5
        (command cmd_restore (codes "b0" ∷ codes "b1" ∷ []))
        enrolled).1.status
      ≡ status_done)
    ↔ (Restores (λ dp. plane) two_way enrolled true (codes "b0")
        × All (Restores (λ dp. plane) two_way enrolled false) (codes "b1" ∷ []))
do_restore_chain_example =
    do_restore_chain (λ dp. plane) connector two_way 5
      (command cmd_restore (codes "b0" ∷ codes "b1" ∷ [])) enrolled (codes "b0") (codes "b1" ∷ [])
      refl refl refl

do_backup_progress_example :
    ((do_backup (λ dp. plane) connector 5 (codes "s") (command cmd_backup []) enrolled).0.bytes_done
        % word
      ≡ total (written_counts (λ dp. plane) connector (codes "s") (command cmd_backup []) enrolled)
        % word)
    × ((do_backup
          (λ dp. plane)
          connector
          5
          (codes "s")
          (command cmd_backup [])
          enrolled).0.started_at
        ≡ some 5)
do_backup_progress_example =
    do_backup_progress (λ dp. plane) connector 5 (codes "s") (command cmd_backup []) enrolled

-- Seven bytes are written in two writes.
two_writes_counted :
    written_counts (λ dp. plane) connector (codes "s") (command cmd_backup []) enrolled ≡ 3 ∷ 4 ∷ []
unfolding produced str_eq
two_writes_counted = refl
