-- ===== src/Runner/Finished.antt =====
-- How a command's own result ends (sdk.go, doBackup, doRestore and execute's switch).
use binfinity_addon_sdk.Prelude.{
  Bool-cases, Option, Str, [], if_keeps, inl, inr, is_empty, none, refl, some, str_eq, ℕ, ◌≡◌, ◌⊎◌,
}
use binfinity_addon_sdk.Outcome.{Outcome, err, ok}
use binfinity_addon_sdk.Wire.{Command, Result, cmd_backup, cmd_restore, status_done, status_failed}
use binfinity_addon_sdk.Runner.{DataPlane, Runner}
use binfinity_addon_sdk.Runner.Backup.{
  Connector, Increment, Incremental, Plane, backup_id_of, backup_result, do_backup, error_of, io_of,
  produced,
}
use binfinity_addon_sdk.Runner.Restore.{
  chain_result, do_restore, failed, is_nil, restore_single, restore_with, single_result,
}
use binfinity_addon_sdk.Runner.Execute.{Env, run_command}

-- A result of the work itself is done or failed.
pub record IsFinished (res : Result) : Type 0 where
  pub by_status : (res.status ≡ status_done) ⊎ (res.status ≡ status_failed)

backup_result-IsFinished :
    (id : Str) (made : Option Increment) (o : Outcome Str ℕ) → IsFinished (backup_result id made o)
unfolding backup_result
backup_result-IsFinished id made (ok stored) = record { by_status = inl refl }
backup_result-IsFinished id made (err e) = record { by_status = inr refl }

chain_result-IsFinished : (id : Str) (o : Option (Str × Str)) → IsFinished (chain_result id o)
unfolding chain_result
chain_result-IsFinished id none = record { by_status = inl refl }
chain_result-IsFinished id (some (bid, e)) = record { by_status = inr refl }

single_result-IsFinished : (id : Str) (o : Option Str) → IsFinished (single_result id o)
unfolding single_result
single_result-IsFinished id none = record { by_status = inl refl }
single_result-IsFinished id (some e) = record { by_status = inr refl }

abbrev FinishedPair : Runner × Result → Type 0
FinishedPair s = IsFinished s.1

restore_with-IsFinished :
    (planes : DataPlane → Plane) (conn : Connector) (inc : Option Incremental) (cmd : Command)
    (r : Runner)
    → IsFinished (restore_with planes conn inc cmd r).1
unfolding restore_with restore_single
restore_with-IsFinished planes conn none cmd r = single_result-IsFinished cmd.backup_id _
restore_with-IsFinished planes conn (some inc) cmd r =
    if_keeps FinishedPair (is_nil cmd.chain) (single_result-IsFinished cmd.backup_id _)
      (chain_result-IsFinished cmd.backup_id _)

failed-IsFinished : (id e : Str) → IsFinished (failed id e)
failed-IsFinished id e = record { by_status = inr refl }

do_restore-IsFinished :
    (planes : DataPlane → Plane) (conn : Connector) (now : ℕ) (cmd : Command) (r : Runner)
    → IsFinished (do_restore planes conn now cmd r).1
unfolding do_restore
do_restore-IsFinished planes conn now cmd r =
    if_keeps FinishedPair (is_empty cmd.backup_id) (failed-IsFinished [] _)
      (restore_with-IsFinished planes conn conn.incremental cmd _)

do_backup-IsFinished :
    (planes : DataPlane → Plane) (conn : Connector) (now : ℕ) (stamp : Str) (cmd : Command)
    (r : Runner)
    → IsFinished (do_backup planes conn now stamp cmd r).1
unfolding do_backup
do_backup-IsFinished planes conn now stamp cmd r =
    let id = backup_id_of conn stamp cmd in
    let made = produced (planes r.dp) conn id cmd in
    backup_result-IsFinished id made
      ((planes r.dp).stored id conn.data_type (error_of (io_of made)))

pub run_command-IsFinished :
    (env : Env) (conn : Connector) (cmd : Command) (r : Runner)
    → IsFinished (run_command env conn cmd r).1
unfolding run_command
run_command-IsFinished env conn cmd r = elim (Bool-cases (str_eq cmd.kind cmd_backup)) [
  | inl t ↦ rw t (do_backup-IsFinished env.planes conn env.now env.stamp cmd _)
  | inr t ↦ elim (Bool-cases (str_eq cmd.kind cmd_restore)) [
    | inl u ↦ rw (t, u) (do_restore-IsFinished env.planes conn env.now cmd _)
    | inr u ↦ rw (t, u) (failed-IsFinished cmd.backup_id _)
  ]
]
