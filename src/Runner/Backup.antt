-- ===== src/Runner/Backup.antt =====
-- sdk.go: doBackup, over a connector and a data plane. What these do with a writer or a reader is
-- data: the counts that the inner calls of Write or Read return, and the error at the end.
use binfinity_addon_sdk.Prelude.{
  Bool, List, Option, Str, [], codes, false, if◌then◌else◌, non_empty_or, none, slt, some, str_eq,
  ℕ, ◌++◌,
}
use binfinity_addon_sdk.Outcome.{Outcome, err, ok}
use binfinity_addon_sdk.Wire.{Command, Result, status_done, status_failed}
use binfinity_addon_sdk.Runner.{DataPlane, Runner, begin_progress, count_all}

pub record Io : Type 0 where
  pub counts : List ℕ
  pub error : Option Str

pub record Increment : Type 0 where
  pub io : Io
  pub next : Str
  pub is_delta : Bool

-- IncrementalConnector's own methods. A writer or a reader is known by a number.
pub record Incremental : Type 0 where
  pub backup_incremental : ℕ → Str → Increment
  pub restore_incremental : ℕ → Bool → Io

-- A connector with its optional capabilities; `estimate` is what EstimateBytes returns.
pub record Connector : Type 0 where
  pub data_type : Str
  pub backup : ℕ → Io
  pub restore : ℕ → Io
  pub estimate : Option ℕ
  pub incremental : Option Incremental

-- The interface DataPlane. Backup calls `produce` with `writer`, or not at all, and returns
-- `stored` of the error that it returned, if it was called; so for Restore. With a closure that does
-- this with the stream, the call never returns where `backup_hangs` or `restore_hangs` is true.
pub record Plane : Type 0 where
  pub writer : Str → Str → Option ℕ
  pub stored : Str → Str → Option (Option Str) → Outcome Str ℕ
  pub reader : Str → Option ℕ
  pub restored : Str → Option (Option Str) → Option Str
  pub backup_hangs : Str → Str → Io → Bool
  pub restore_hangs : Str → Io → Bool

unfoldable pub produce : Connector → Option Incremental → Command → ℕ → Increment
produce conn none cmd w = record { io = conn.backup w; next = []; is_delta = false }
produce conn (some inc) cmd w =
    if str_eq cmd.mode (codes "incremental")
    then inc.backup_incremental w cmd.cursor
    else record { io = conn.backup w; next = []; is_delta = false }

-- The variables that the closure `produce` sets, from a call that may not have been made.
abbrev pub error_of : Option Io → Option (Option Str)
error_of none = none
error_of (some io) = some io.error

abbrev pub counts_of : Option Io → List ℕ
counts_of none = []
counts_of (some io) = io.counts

abbrev pub io_of : Option Increment → Option Io
io_of none = none
io_of (some i) = some i.io

abbrev pub next_of : Option Increment → Str
next_of none = []
next_of (some i) = i.next

unfoldable pub backup_result : Str → Option Increment → Outcome Str ℕ → Result
backup_result id made (err e) = record {
  status = status_failed;
  backup_id = id;
  bytes = 0;
  error = e;
  cursor = [];
}
backup_result id made (ok stored) = record {
  status = status_done;
  backup_id = id;
  bytes = stored;
  error = [];
  cursor = next_of made;
}

abbrev pub estimated : Option ℕ → ℕ
estimated none = 0
estimated (some n) = if slt 0 n then n else 0

-- The id that the edge assigns when the command has none; `stamp` is the formatted time.
abbrev pub backup_id_of : Connector → Str → Command → Str
backup_id_of conn stamp cmd = non_empty_or cmd.backup_id (conn.data_type ++ codes "-" ++ stamp)

-- What the closure `produce` does, if the data plane calls it.
unfoldable pub produced : Plane → Connector → Str → Command → Option Increment
unfolding produce
produced plane conn id cmd = elim (plane.writer id conn.data_type) [
  | none ↦ none
  | some w ↦ some (produce conn conn.incremental cmd w)
]

unfoldable pub do_backup :
    (DataPlane → Plane) → Connector → ℕ → Str → Command → Runner → Runner × Result
unfolding produced backup_result
do_backup planes conn now stamp cmd r =
    let id = backup_id_of conn stamp cmd in
    let plane = planes r.dp in
    let made = produced plane conn id cmd in
    (
      count_all (counts_of (io_of made)) (begin_progress now (estimated conn.estimate) r),
      backup_result id made (plane.stored id conn.data_type (error_of (io_of made))),
    )
