-- ===== src/Runner/Restore.antt =====
-- sdk.go: doRestore, for a self-contained backup and for a chain.
use binfinity_addon_sdk.Prelude.{
  Bool, List, Option, Str, [], codes, false, if◌then◌else◌, is_empty, none, some, true, ℕ, ◌++◌,
  ◌∷◌,
}
use binfinity_addon_sdk.Wire.{Command, Result, status_done, status_failed}
use binfinity_addon_sdk.Runner.{DataPlane, Runner, begin_progress, count_all}
use binfinity_addon_sdk.Runner.Backup.{Connector, Incremental, Io, Plane, counts_of, error_of}

-- What `consume` does, if the data plane calls it.
unfoldable pub consumed : (ℕ → Io) → Option ℕ → Option Io
consumed consume none = none
consumed consume (some rd) = some (consume rd)

-- One call of Restore of the current data plane: the runner, and its error.
unfoldable pub restore_one : (DataPlane → Plane) → (ℕ → Io) → Str → Runner → Runner × Option Str
unfolding consumed
restore_one planes consume id r =
    let plane = planes r.dp in
    let made = consumed consume (plane.reader id) in
    (count_all (counts_of made) r, plane.restored id (error_of made))

-- The chain after an element: `rest` is what the loop does with the later ones.
unfoldable pub after_element :
    Str → Runner → Runner × Option (Str × Str) → Option Str → Runner × Option (Str × Str)
after_element id r rest none = rest
after_element id r rest (some e) = (r, some (id, e))

-- The loop over the chain, which ends at the first error: the element and the error.
unfoldable pub restore_chain :
    (DataPlane → Plane) → Incremental → Bool → List Str → Runner → Runner × Option (Str × Str)
unfolding after_element
restore_chain planes inc is_base [] r = (r, none)
restore_chain planes inc is_base (id ∷ ids) r =
    let (r', error) = restore_one planes (λ rd. inc.restore_incremental rd is_base) id r in
    after_element id r' (restore_chain planes inc false ids r') error

abbrev pub failed : Str → Str → Result
failed id e = record { status = status_failed; backup_id = id; bytes = 0; error = e; cursor = [] }

abbrev pub restored_as : Str → Result
restored_as id = record { status = status_done; backup_id = id; bytes = 0; error = []; cursor = [] }

unfoldable pub chain_result : Str → Option (Str × Str) → Result
chain_result id none = restored_as id
chain_result id (some (bid, e)) = failed id (codes "chain element " ++ bid ++ codes ": " ++ e)

unfoldable pub single_result : Str → Option Str → Result
single_result id none = restored_as id
single_result id (some e) = failed id e

abbrev pub is_nil : List Str → Bool
is_nil [] = true
is_nil (id ∷ ids) = false

unfoldable pub restore_single : (DataPlane → Plane) → Connector → Command → Runner → Runner × Result
unfolding restore_one single_result
restore_single planes conn cmd r =
    let (r', error) = restore_one planes conn.restore cmd.backup_id r in
    (r', single_result cmd.backup_id error)

unfoldable pub restore_with :
    (DataPlane → Plane) → Connector → Option Incremental → Command → Runner → Runner × Result
unfolding restore_single restore_chain chain_result
restore_with planes conn none cmd r = restore_single planes conn cmd r
restore_with planes conn (some inc) cmd r =
    if is_nil cmd.chain
    then restore_single planes conn cmd r
    else (let (r', error) = restore_chain planes inc true cmd.chain r in
        (r', chain_result cmd.backup_id error))

unfoldable pub do_restore : (DataPlane → Plane) → Connector → ℕ → Command → Runner → Runner × Result
unfolding restore_with
do_restore planes conn now cmd r =
    if is_empty cmd.backup_id
    then (r, failed [] (codes "restore requires a backup_id"))
    else restore_with planes conn conn.incremental cmd (begin_progress now 0 r)
