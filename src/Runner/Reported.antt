-- ===== src/Runner/Reported.antt =====
-- The result that execute reports, and when it is a cancelled one (sdk.go, execute).
use binfinity_addon_sdk.Prelude.{
  Bool, Str, [], ap, arith, codes, false, if◌then◌else◌, refl, str_eq, true, ℕ, ◌||◌, ◌↔◌, ◌∙◌, ◌≡◌,
}
use binfinity_addon_sdk.Wire.{Command, Result, cmd_backup, status_cancelled, status_done}
use binfinity_addon_sdk.Runner.{Runner, end_activity, heartbeat_replies, set_activity, start_job}
use binfinity_addon_sdk.Runner.Backup.{
  Connector, backup_id_of, backup_result, do_backup, error_of, io_of, produced,
}
use binfinity_addon_sdk.Runner.Execute.{Env, execute, final_result, run_command}
use binfinity_addon_sdk.Runner.Frame.{end_activity-SameFrame, run_command-SameFrame}
use binfinity_addon_sdk.Runner.Results.{run_command_dp}
use binfinity_addon_sdk.Runner.Finished.{run_command-IsFinished}
use binfinity_addon_sdk.Runner.Cancel.{
  IsRunning, any_cancel, dp-heartbeat_replies, heartbeat_replies-IsRunning,
}
use binfinity_addon_sdk.Outcome.{Outcome, ok}

-- One of the replies that land while the command runs asks to cancel.
abbrev pub asks_cancel : Env → Bool
asks_cancel env = any_cancel env.early || any_cancel env.during || any_cancel env.late

-- What a cancelled command reports.
abbrev pub cancelled : Str → Result
cancelled id = record {
  status = codes "cancelled";
  backup_id = id;
  bytes = 0;
  error = [];
  cursor = [];
}

module _ (env : Env) (conn : Connector) (cmd : Command) (r : Runner) where
  abbrev at_work : Runner
  at_work = heartbeat_replies env.early (start_job r)

  abbrev worked : Runner
  worked = (run_command env conn cmd at_work).0

  start_job-IsRunning :
      IsRunning (start_job r) × ((start_job r).cancel_asked ≡ false) × ((start_job r).dp ≡ r.dp)
  unfolding start_job
  start_job-IsRunning = ((false, refl), refl, refl)

  asked-worked : IsRunning worked × (worked.cancel_asked ≡ any_cancel env.early)
  asked-worked =
      let begun = heartbeat_replies-IsRunning env.early (start_job r) start_job-IsRunning.0 in
      let frame = run_command-SameFrame env conn cmd at_work in
      (
        (begun.0.0, frame.job ∙ begun.0.1),
        ground (arith, frame.asked, begun.1, start_job-IsRunning.1),
      )

  -- The runner at the test of cancelAsked.
  abbrev tested : Runner
  tested = heartbeat_replies env.late (end_activity (heartbeat_replies env.during worked))

  asked-tested : tested.cancel_asked ≡ asks_cancel env
  asked-tested =
      let during = heartbeat_replies-IsRunning env.during worked asked-worked.0 in
      let ended = end_activity-SameFrame (heartbeat_replies env.during worked) in
      let late =
        heartbeat_replies-IsRunning env.late (end_activity (heartbeat_replies env.during worked))
          (during.0.0, ended.job ∙ during.0.1) in
      ground (arith, asked-worked.1, during.1, ended.asked, late.1)

  execute_final :
      (execute env conn cmd r).1 ≡ final_result (asks_cancel env) (run_command env conn cmd r).1
  unfolding execute
  execute_final = cc (
    asked-tested,
    run_command_dp env conn cmd r at_work
        (dp-heartbeat_replies env.early (start_job r) ∙ start_job-IsRunning.2),
  )

  -- The result that execute reports is the work's own, unless one of the heartbeat replies that
  -- land while the command runs, before the cancel flag is tested, asks to cancel; then it is a
  -- cancelled result with the same backup id, no bytes, no error and no cursor.
  pub execute_result : (execute env conn cmd r).1 ≡ (
      if asks_cancel env
      then cancelled (run_command env conn cmd r).1.backup_id
      else (run_command env conn cmd r).1)
  unfolding final_result
  execute_result = execute_final

  -- The status that execute reports is "cancelled" exactly if one of the heartbeat replies that
  -- land while the command runs, before the cancel flag is tested, asks to cancel.
  pub execute_cancelled :
      ((execute env conn cmd r).1.status ≡ status_cancelled) ↔ (asks_cancel env ≡ true)
  unfolding final_result
  execute_cancelled =
      let finished = (run_command-IsFinished env conn cmd r).by_status in
      (
        λ e. ground (arith, ap (λ (res : Result). res.status) execute_final, e, finished),
        λ e. ap (λ (res : Result). res.status) execute_final ∙ rw e refl,
      )

  -- What the data plane returns for the command, as a backup.
  abbrev pub stored_by : Outcome Str ℕ
  stored_by =
      let id = backup_id_of conn env.stamp cmd in
      let plane = env.planes r.dp in
      plane.stored id conn.data_type (error_of (io_of (produced plane conn id cmd)))

  -- For a backup command that the data plane stored with n bytes, if a heartbeat reply that lands
  -- after the work and before the cancel flag is tested asks to cancel, the work's result is
  -- "done" with n bytes, and execute reports "cancelled" with 0 bytes.
  pub late_cancel :
      (n : ℕ)
      → str_eq cmd.kind cmd_backup ≡ true
      → stored_by ≡ ok n
      → any_cancel env.late ≡ true
      → ((run_command env conn cmd r).1.status ≡ status_done)
        × ((run_command env conn cmd r).1.bytes ≡ n)
        × ((execute env conn cmd r).1.status ≡ status_cancelled)
        × ((execute env conn cmd r).1.bytes ≡ 0)
  unfolding final_result run_command do_backup backup_result set_activity
  late_cancel n kind stored late =
      let asked : asks_cancel env ≡ true = ground (arith, late) in
      (
        rw (kind, stored) refl,
        rw (kind, stored) refl,
        execute_cancelled.1 asked,
        ap (λ (res : Result). res.bytes) execute_final ∙ rw asked refl,
      )
