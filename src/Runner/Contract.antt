-- ===== src/Runner/Contract.antt =====
-- What the agent relies on a data plane for (dataplane.go, DataPlane; sdk.go: doBackup, doRestore).
use binfinity_addon_sdk.Prelude.{
  All, Bool, Bool-cases, List, Option, Option-cases, Str, [], codes, false, inl, inr, is_empty,
  none, refl, some, str_eq, str_eq_iff, true, ℕ, ◌∷◌, ◌≡◌, ◌≢◌, ◌⊎◌,
}
use binfinity_addon_sdk.Wire.{Command, status_done}
use binfinity_addon_sdk.Outcome.{Outcome, err, ok}
use binfinity_addon_sdk.Runner.{DataPlane, Runner}
use binfinity_addon_sdk.Runner.Backup.{
  Connector, Increment, Incremental, Plane, backup_id_of, backup_result, do_backup, error_of, io_of,
  produce, produced,
}
use binfinity_addon_sdk.Runner.Restore.{consumed, do_restore, restore_one}
use binfinity_addon_sdk.Runner.Restored.{Restores, do_restore_chain}

-- A data plane that reports success only if it called the closure, and the closure returned no error.
pub record IsHonest (plane : Plane) : Type 0 where
  pub backed :
      (id kind : Str) (called : Option (Option Str)) (n : ℕ)
      → plane.stored id kind called ≡ ok n
      → called ≡ some none
  pub recovered :
      (id : Str) (called : Option (Option Str))
      → plane.restored id called ≡ none
      → called ≡ some none

pub stored_of_done :
    (id : Str) (made : Option Increment) (o : Outcome Str ℕ)
    → (backup_result id made o).status ≡ status_done
    → (n : ℕ) × (o ≡ ok n)
unfolding backup_result
stored_of_done id made (ok n) h = (n, refl)
stored_of_done id made (err e) h = cc

module _ (plane : Plane) (conn : Connector) (id : Str) (cmd : Command) where
  pub written_of :
      (o : Option ℕ)
      → plane.writer id conn.data_type ≡ o
      → error_of (io_of (produced plane conn id cmd)) ≡ some none
      → (w : ℕ) × (plane.writer id conn.data_type ≡ some w)
        × ((produce conn conn.incremental cmd w).io.error ≡ none)
  unfolding produced
  written_of none e h = absurd (let k = rw (e, produced) at h in cc)
  written_of (some w) e h = (w, e, let k = rw (e, produced) at h in cc)

-- The connector is incremental, and the command asks for that.
abbrev pub IsIncremental : Connector → Command → Incremental → Type 0
IsIncremental conn cmd inc = (conn.incremental ≡ some inc) × (cmd.mode ≡ codes "incremental")

-- The connector's own backup to the writer returned no error: BackupIncremental from the command's
-- cursor, or Backup.
abbrev pub WroteWell : Connector → Command → ℕ → Type 0
WroteWell conn cmd w =
    ((inc : Incremental) × IsIncremental conn cmd inc
      × ((inc.backup_incremental w cmd.cursor).io.error ≡ none))
    ⊎ (((conn.incremental ≡ none) ⊎ (cmd.mode ≢ codes "incremental"))
        × ((conn.backup w).error ≡ none))

produce-WroteWell :
    (conn : Connector) (cmd : Command) (w : ℕ)
    → (produce conn conn.incremental cmd w).io.error ≡ none
    → WroteWell conn cmd w
unfolding produce
produce-WroteWell conn cmd w h = elim (Option-cases conn.incremental) [
  | inl e ↦ inr (inl e, rw (produce, e) at h)
  | inr (inc, e) ↦ elim (Bool-cases (str_eq cmd.mode (codes "incremental"))) [
    | inl m ↦
        inl (inc, (e, (str_eq_iff cmd.mode (codes "incremental")).0 m), rw (produce, e, m) at h)
    | inr m ↦ inr (
      inr (λ q. cc ((str_eq_iff cmd.mode (codes "incremental")).1 q, m)),
      rw (produce, e, m) at h,
    )
  ]
]

-- Over a data plane that reports success only if it called its closure and that returned no error:
-- if the backup's status is "done", the data plane gave a writer, and the connector's call on it
-- returned no error: its BackupIncremental if the connector is incremental and the command's mode
-- is "incremental", else its Backup.
pub do_backup_produced :
    (planes : DataPlane → Plane) (conn : Connector) (now : ℕ) (stamp : Str) (cmd : Command)
    (r : Runner)
    → IsHonest (planes r.dp)
    → (do_backup planes conn now stamp cmd r).1.status ≡ status_done
    → (w : ℕ) × ((planes r.dp).writer (backup_id_of conn stamp cmd) conn.data_type ≡ some w)
      × WroteWell conn cmd w
unfolding do_backup
do_backup_produced planes conn now stamp cmd r honest done =
    let id = backup_id_of conn stamp cmd in
    let plane = planes r.dp in
    let made = produced plane conn id cmd in
    let (n, e) =
      stored_of_done id made (plane.stored id conn.data_type (error_of (io_of made))) done in
    let (w, opened, well) =
      written_of plane conn id cmd (plane.writer id conn.data_type) refl
        (honest.backed id conn.data_type (error_of (io_of made)) n e) in
    (w, opened, produce-WroteWell conn cmd w well)

-- The connector applied the element without an error.
abbrev pub Applied : Plane → Incremental → Bool → Str → Type 0
Applied plane inc is_base id =
    (rd : ℕ) × (plane.reader id ≡ some rd) × ((inc.restore_incremental rd is_base).error ≡ none)

module _ (planes : DataPlane → Plane) (inc : Incremental) (r : Runner)
    (honest : IsHonest (planes r.dp)) where
  consumed_of :
      (is_base : Bool) (id : Str) (o : Option ℕ)
      → (planes r.dp).reader id ≡ o
      → error_of (consumed (λ rd. inc.restore_incremental rd is_base) o) ≡ some none
      → Applied (planes r.dp) inc is_base id
  unfolding consumed
  consumed_of is_base id none e h = absurd (cc (h))
  consumed_of is_base id (some rd) e h = (rd, e, cc (h))

  Restores-Applied :
      (is_base : Bool) (id : Str)
      → Restores planes inc r is_base id
      → Applied (planes r.dp) inc is_base id
  unfolding restore_one
  Restores-Applied is_base id h =
      consumed_of is_base id ((planes r.dp).reader id) refl (honest.recovered id _ h)

  All-Applied :
      (ids : List Str)
      → All (Restores planes inc r false) ids
      → All (Applied (planes r.dp) inc false) ids
  All-Applied [] h = tt
  All-Applied (id ∷ ids) h = (Restores-Applied false id h.0, All-Applied ids h.1)

  -- Over a data plane that reports success only if it called its closure and that returned no
  -- error, with an incremental connector, a backup id and a chain that is not empty: if the
  -- restore's status is "done", the connector applied the first element as the base and every
  -- later one as a delta, each from the reader that the data plane gave for it, without an error.
  pub do_restore-Applied :
      (conn : Connector) (now : ℕ) (cmd : Command) (base : Str) (deltas : List Str)
      → is_empty cmd.backup_id ≡ false
      → conn.incremental ≡ some inc
      → cmd.chain ≡ base ∷ deltas
      → (do_restore planes conn now cmd r).1.status ≡ status_done
      → Applied (planes r.dp) inc true base × All (Applied (planes r.dp) inc false) deltas
  do_restore-Applied conn now cmd base deltas named able chain done =
      let h = (do_restore_chain planes conn inc now cmd r base deltas named able chain).0 done in
      (Restores-Applied true base h.0, All-Applied deltas h.1)
