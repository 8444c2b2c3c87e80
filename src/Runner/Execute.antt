-- ===== src/Runner/Execute.antt =====
-- sdk.go: execute, with the heartbeat replies that land between its steps. The data plane and the
-- connector may do anything, so replies that land while they run are taken at the end of that time.
use binfinity_addon_sdk.Prelude.{Bool, List, Option, Str, [], codes, if◌then◌else◌, str_eq, ℕ, ◌++◌}
use binfinity_addon_sdk.Wire.{
  Command, Result, activity_backing_up, activity_restoring, cmd_backup, cmd_restore,
  status_cancelled,
}
use binfinity_addon_sdk.Outbox.{Json}
use binfinity_addon_sdk.Runner.{
  DataPlane, Runner, end_activity, end_job, heartbeat_replies, set_activity, start_job,
  was_cancelled,
}
use binfinity_addon_sdk.Runner.Delivery.{Post, report}
use binfinity_addon_sdk.Runner.Backup.{Connector, Plane, do_backup}
use binfinity_addon_sdk.Runner.Restore.{do_restore, failed}

pub record Env : Type 0 where
  pub planes : DataPlane → Plane
  pub now : ℕ
  pub stamp : Str
  pub early : List (Option Bool)  -- replies between startJob and the work
  pub during : List (Option Bool)  -- while the data plane runs
  pub late : List (Option Bool)  -- between endActivity and the test of cancelAsked
  pub json : Json
  pub post : Post

-- the switch on the command's type
unfoldable pub run_command : Env → Connector → Command → Runner → Runner × Result
run_command env conn cmd r =
    if str_eq cmd.kind cmd_backup
    then do_backup env.planes conn env.now env.stamp cmd (set_activity activity_backing_up r)
    else if str_eq cmd.kind cmd_restore
    then do_restore env.planes conn env.now cmd (set_activity activity_restoring r)
    else (r, failed cmd.backup_id (codes "unknown command type " ++ cmd.kind))

-- an operator's cancel replaces the result
unfoldable pub final_result : Bool → Result → Result
final_result asked res =
    if asked
    then record {
      status = status_cancelled;
      backup_id = res.backup_id;
      bytes = 0;
      error = [];
      cursor = [];
    }
    else res

-- The runner afterwards, the result that was reported, and whether the report was acked.
unfoldable pub execute : Env → Connector → Command → Runner → Runner × Result × Bool
unfolding run_command final_result
execute env conn cmd r =
    let (r1, res) = run_command env conn cmd (heartbeat_replies env.early (start_job r)) in
    let r2 = heartbeat_replies env.late (end_activity (heartbeat_replies env.during r1)) in
    let reported = final_result (was_cancelled r2) res in
    let (r3, acked) = report env.json env.post cmd.id reported r2 in (end_job r3, reported, acked)
