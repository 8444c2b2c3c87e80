-- ===== src/Runner/BackedUp.antt =====
-- What a backup counts and which stream it takes (sdk.go, doBackup, countingWriter).
use binfinity_addon_sdk.Prelude.{
  List, Option, Str, [], ap, arith, codes, false, if◌then◌else◌, none, refl, slt, some, str_eq,
  word, ℕ, ◌%◌, ◌+◌, ◌∙◌, ◌∷◌, ◌≡◌,
}
use binfinity_addon_sdk.Wire.{Command}
use binfinity_addon_sdk.Runner.{DataPlane, Runner, add_bytes, begin_progress, count, count_all}
use binfinity_addon_sdk.Runner.Backup.{
  Connector, Increment, Incremental, Plane, backup_id_of, backup_result, counts_of, do_backup,
  error_of, estimated, io_of, produce, produced,
}

-- The positive counts, added up.
abbrev pub total : List ℕ → ℕ
total [] = 0
total (n ∷ ns) = (if slt 0 n then n else 0) + total ns

bytes-count :
    (n : ℕ) (r : Runner)
    → (count n r).bytes_done % word ≡ (r.bytes_done + (if slt 0 n then n else 0)) % word
unfolding count add_bytes
bytes-count n r = ground arith

bytes-count_all :
    (ns : List ℕ) (r : Runner)
    → (count_all ns r).bytes_done % word ≡ (r.bytes_done + total ns) % word
unfolding count_all
bytes-count_all [] r = omega arith
bytes-count_all (n ∷ ns) r = omega (arith, bytes-count_all ns (count n r), bytes-count n r)

started-count : (n : ℕ) (r : Runner) → (count n r).started_at ≡ r.started_at
unfolding count add_bytes
started-count n r = ground arith

started-count_all : (ns : List ℕ) (r : Runner) → (count_all ns r).started_at ≡ r.started_at
unfolding count_all
started-count_all [] r = refl
started-count_all (n ∷ ns) r = started-count_all ns (count n r) ∙ started-count n r

-- The counts that the writer saw.
abbrev pub written_counts : (DataPlane → Plane) → Connector → Str → Command → Runner → List ℕ
written_counts planes conn stamp cmd r =
    counts_of (io_of (produced (planes r.dp) conn (backup_id_of conn stamp cmd) cmd))

-- After a backup the live progress is the sum of the positive counts of its writes, as an int64,
-- and it started at the time of this backup.
pub do_backup_progress :
    (planes : DataPlane → Plane) (conn : Connector) (now : ℕ) (stamp : Str) (cmd : Command)
    (r : Runner)
    → ((do_backup planes conn now stamp cmd r).0.bytes_done % word
        ≡ total (written_counts planes conn stamp cmd r) % word)
      × ((do_backup planes conn now stamp cmd r).0.started_at ≡ some now)
unfolding do_backup begin_progress
do_backup_progress planes conn now stamp cmd r = (
  bytes-count_all (written_counts planes conn stamp cmd r) _ ∙ omega arith,
  started-count_all (written_counts planes conn stamp cmd r) _,
)

-- The connector without its optional incremental part.
abbrev pub full_only : Connector → Connector
full_only conn = record conn { incremental = none }

produce_full :
    (conn : Connector) (inc : Option Incremental) (cmd : Command) (w : ℕ)
    → str_eq cmd.mode (codes "incremental") ≡ false
    → produce conn inc cmd w ≡ produce (full_only conn) none cmd w
unfolding produce
produce_full conn none cmd w full = refl
produce_full conn (some inc) cmd w full = rw full refl

produced_full :
    (plane : Plane) (conn : Connector) (id : Str) (cmd : Command)
    → str_eq cmd.mode (codes "incremental") ≡ false
    → produced plane conn id cmd ≡ produced plane (full_only conn) id cmd
unfolding produced
produced_full plane conn id cmd full =
    ap
      (λ (made : ℕ → Increment). elim (plane.writer id conn.data_type) [
        | none ↦ none
        | some w ↦ some (made w)
      ])
      (λ i w. produce_full conn conn.incremental cmd w full i)

-- A command whose mode is not "incremental" runs the backup of any connector just as it runs that
-- of the same connector without its incremental part.
pub do_backup_full :
    (planes : DataPlane → Plane) (conn : Connector) (now : ℕ) (stamp : Str) (cmd : Command)
    (r : Runner)
    → str_eq cmd.mode (codes "incremental") ≡ false
    → do_backup planes conn now stamp cmd r ≡ do_backup planes (full_only conn) now stamp cmd r
unfolding do_backup
do_backup_full planes conn now stamp cmd r full =
    let id = backup_id_of conn stamp cmd in
    let plane = planes r.dp in
    ap
      (λ made. (
        count_all (counts_of (io_of made)) (begin_progress now (estimated conn.estimate) r),
        backup_result id made (plane.stored id conn.data_type (error_of (io_of made))),
      ))
      (produced_full plane conn id cmd full)
