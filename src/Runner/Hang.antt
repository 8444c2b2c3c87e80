-- ===== src/Runner/Hang.antt =====
-- Whether the data plane's call for a command returns (sdk.go: doBackup, doRestore, execute).
use binfinity_addon_sdk.Prelude.{
  Bool, List, Option, Str, [], false, if◌then◌else◌, is_empty, length, none, some, str_eq, true, ℕ,
  ◌||◌, ◌∷◌,
}
use binfinity_addon_sdk.Wire.{Command, cmd_backup, cmd_restore}
use binfinity_addon_sdk.Runner.{Runner}
use binfinity_addon_sdk.Runner.Backup.{
  Connector, Incremental, Io, Plane, backup_id_of, error_of, io_of, produced,
}
use binfinity_addon_sdk.Runner.Restore.{consumed, is_nil}
use binfinity_addon_sdk.Runner.Execute.{Env}

abbrev made_hangs : (Io → Bool) → Option Io → Bool
made_hangs hangs none = false
made_hangs hangs (some io) = hangs io

unfoldable pub backup_call_hangs : Plane → Connector → Str → Command → Bool
unfolding produced
backup_call_hangs plane conn stamp cmd =
    let id = backup_id_of conn stamp cmd in
    made_hangs (plane.backup_hangs id conn.data_type) (io_of (produced plane conn id cmd))

unfoldable pub restore_call_hangs : Plane → (ℕ → Io) → Str → Bool
unfolding consumed
restore_call_hangs plane consume id =
    made_hangs (plane.restore_hangs id) (consumed consume (plane.reader id))

abbrev unless_stopped : Option Str → Bool → Bool
unless_stopped none rest = rest
unless_stopped (some e) rest = false

-- The loop over the chain ends at the first error.
unfoldable pub chain_hangs : Plane → Incremental → Bool → List Str → Bool
unfolding restore_call_hangs
chain_hangs plane inc is_base [] = false
chain_hangs plane inc is_base (id ∷ ids) =
    let consume : ℕ → Io = λ rd. inc.restore_incremental rd is_base in
    restore_call_hangs plane consume id
    || unless_stopped (plane.restored id (error_of (consumed consume (plane.reader id))))
        (chain_hangs plane inc false ids)

unfoldable pub restore_hangs_with : Plane → Connector → Option Incremental → Command → Bool
unfolding chain_hangs
restore_hangs_with plane conn none cmd = restore_call_hangs plane conn.restore cmd.backup_id
restore_hangs_with plane conn (some inc) cmd =
    if is_nil cmd.chain
    then restore_call_hangs plane conn.restore cmd.backup_id
    else chain_hangs plane inc true cmd.chain

-- execute never returns from the work.
unfoldable pub command_hangs : Env → Connector → Command → Runner → Bool
unfolding backup_call_hangs restore_hangs_with
command_hangs env conn cmd r =
    let plane = env.planes r.dp in
    if str_eq cmd.kind cmd_backup
    then backup_call_hangs plane conn env.stamp cmd
    else if str_eq cmd.kind cmd_restore
    then (if is_empty cmd.backup_id
        then false
        else restore_hangs_with plane conn conn.incremental cmd)
    else false

-- How many writes the connector's full backup makes.
abbrev pub writes_of : Connector → ℕ → ℕ
writes_of conn w = length (conn.backup w).counts
