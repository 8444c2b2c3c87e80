-- ===== src/Tools/Stored.antt =====
-- A tool's backup or restore below the agent and over CLIDataPlane (dataplane.go; sdk.go: doBackup,
-- doRestore; examples/files-client/main.go and its like).
use binfinity_addon_sdk.Prelude.{
  Bool-cases, Option, Option-cases, Str, codes, inl, inr, is_empty, none, refl, some, subst, sym, ℕ,
  ◌∙◌, ◌≡◌,
}
use binfinity_addon_sdk.Wire.{Command, Result, status_done}
use binfinity_addon_sdk.Runner.{CliDataPlane, DataPlane, Runner, begin_progress}
use binfinity_addon_sdk.Runner.Backup.{
  Connector, Increment, Io, Plane, backup_id_of, backup_result, do_backup, error_of, io_of, produce,
  produced,
}
use binfinity_addon_sdk.Cli.{Ended, Programs, backup_call, cli_plane, restore_call, stored_bytes}
use binfinity_addon_sdk.Tools.{
  Processes, Tool, connector_of, dump, dump_call, files, kind_of, load, load_call, mkdir_or, mysql,
  postgres, run_error,
}
use binfinity_addon_sdk.Outcome.{Outcome, err, ok}
use binfinity_addon_sdk.Runner.Restore.{
  consumed, do_restore, restore_one, restore_single, restore_with, single_result,
}
use binfinity_addon_sdk.Runner.Contract.{stored_of_done, written_of}
use binfinity_addon_sdk.Cli.Outcomes.{backup_exact, restored_ended}

pub run_error-none : (what : Str) (ended : Ended) → run_error what ended ≡ none → ended.wait ≡ none
unfolding run_error
run_error-none what ended h = elim (Option-cases ended.wait) [
  | inl e ↦ e
  | inr (t, e) ↦ absurd (let k = rw e at h in cc)
]

dump_done :
    (ops : Processes) (t : Tool) (w : ℕ)
    → (dump ops t w).error ≡ none
    → (ops.run (dump_call t) w).wait ≡ none
unfolding dump
dump_done ops (files root) w h =
    run_error-none (codes "tar create") (ops.run (dump_call (files root)) w) h
dump_done ops (mysql m) w h = run_error-none (codes "mysqldump") (ops.run (dump_call (mysql m)) w) h
dump_done ops (postgres p) w h =
    run_error-none (codes "pg_dump") (ops.run (dump_call (postgres p)) w) h

mkdir_or-none : (o : Option Str) (io : Io) → (mkdir_or o io).error ≡ none → io.error ≡ none
unfolding mkdir_or
mkdir_or-none none io h = h
mkdir_or-none (some e) io h = absurd (cc (h))

load_done :
    (ops : Processes) (t : Tool) (rd : ℕ)
    → (load ops t rd).error ≡ none
    → (ops.run (load_call t) rd).wait ≡ none
unfolding load
load_done ops (files root) rd h =
    run_error-none (codes "tar extract") (ops.run (load_call (files root)) rd)
      (mkdir_or-none (ops.mkdir root) _ h)
load_done ops (mysql m) rd h =
    run_error-none (codes "mysql import") (ops.run (load_call (mysql m)) rd) h
load_done ops (postgres p) rd h =
    run_error-none (codes "psql restore") (ops.run (load_call (postgres p)) rd) h

result_bytes :
    (id : Str) (made : Option Increment) (o : Outcome Str ℕ) (n : ℕ)
    → o ≡ ok n
    → (backup_result id made o).bytes ≡ n
unfolding backup_result
result_bytes id made (ok m) n h = cc
result_bytes id made (err e) n h = absurd (cc (h))

module _ (programs : Programs) (d : CliDataPlane) (ops : Processes) (t : Tool) (cmd : Command) where
  abbrev conn : Connector
  conn = connector_of ops t

  abbrev result_over : Str → Plane → Result
  result_over id plane =
      let made = produced plane conn id cmd in
      backup_result id made (plane.stored id (kind_of t) (error_of (io_of made)))

  -- What a backup that is done says of the two programs.
  abbrev BothStored : Str → Result → Type 0
  BothStored id res =
      (w : ℕ) × ((ops.run (dump_call t) w).wait ≡ none)
      × ((programs.run (backup_call d id (kind_of t)) none).wait ≡ none)
      × (res.bytes ≡ stored_bytes (programs.run (backup_call d id (kind_of t)) none).out)

  result_over-BothStored :
      (id : Str)
      → (result_over id (cli_plane programs d)).status ≡ status_done
      → BothStored id (result_over id (cli_plane programs d))
  unfolding produce
  result_over-BothStored id done =
      let plane = cli_plane programs d in
      let made = produced plane conn id cmd in
      let called = error_of (io_of made) in
      let (n, e) = stored_of_done id made (plane.stored id (kind_of t) called) done in
      let (all, well, size) = (backup_exact programs (backup_call d id (kind_of t)) called n).0 e in
      let (w, there, dumped) =
        written_of plane conn id cmd (plane.writer id (kind_of t)) refl all in
      (
        w,
        dump_done ops t w dumped,
        well,
        result_bytes id made (plane.stored id (kind_of t) called) n e ∙ sym size,
      )

  loaded_of :
      (o : Option ℕ)
      → error_of (consumed (load ops t) o) ≡ some none
      → (rd : ℕ) × ((ops.run (load_call t) rd).wait ≡ none)
  unfolding consumed
  loaded_of none h = absurd (cc (h))
  loaded_of (some rd) h = (rd, load_done ops t rd (let e : (load ops t rd).error ≡ none = cc in e))

  abbrev single_over : Plane → Result
  single_over plane =
      single_result cmd.backup_id (
        plane.restored cmd.backup_id
          (error_of (consumed (load ops t) (plane.reader cmd.backup_id))))

  -- What a restore that is done says of the two programs.
  abbrev BothLoaded : Type 0
  BothLoaded =
      (rd : ℕ) × ((ops.run (load_call t) rd).wait ≡ none)
      × ((programs.run (restore_call d cmd.backup_id) none).wait ≡ none)

  single_result_done :
      (o : Option Str) → (single_result cmd.backup_id o).status ≡ status_done → o ≡ none
  unfolding single_result
  single_result_done none h = refl
  single_result_done (some e) h = absurd (cc (h))

  single_over-BothLoaded : (single_over (cli_plane programs d)).status ≡ status_done → BothLoaded
  single_over-BothLoaded done =
      let plane = cli_plane programs d in
      let called = error_of (consumed (load ops t) (plane.reader cmd.backup_id)) in
      let well = single_result_done (plane.restored cmd.backup_id called) done in
      let (all, ended) = restored_ended programs (restore_call d cmd.backup_id) called well in
      let (rd, loaded) = loaded_of (plane.reader cmd.backup_id) all in (rd, loaded, ended)

  module _ (planes : DataPlane → Plane) (now : ℕ) (r : Runner)
      (plane : planes r.dp ≡ cli_plane programs d) where
    -- Over CLIDataPlane, if a backup by the connector for files, MySQL or PostgreSQL has the
    -- status "done", then the connector's program (tar, mysqldump, pg_dump) and the data plane's
    -- program both ended without an error, and the result's bytes are the size read from the
    -- latter's output.
    pub backup_stored :
        (stamp : Str)
        → (do_backup planes (connector_of ops t) now stamp cmd r).1.status ≡ status_done
        → (w : ℕ) × ((ops.run (dump_call t) w).wait ≡ none)
          × ((programs.run
                (backup_call d (backup_id_of (connector_of ops t) stamp cmd) (kind_of t))
                none).wait
              ≡ none)
          × ((do_backup planes (connector_of ops t) now stamp cmd r).1.bytes
              ≡ stored_bytes
                  (programs.run
                    (backup_call d (backup_id_of (connector_of ops t) stamp cmd) (kind_of t))
                    none).out)
    unfolding do_backup
    backup_stored stamp done =
        let id = backup_id_of conn stamp cmd in
        subst (λ p. (result_over id p).status ≡ status_done → BothStored id (result_over id p))
          (sym plane) (result_over-BothStored id) done

    -- Over CLIDataPlane, if a restore by the connector for files, MySQL or PostgreSQL has the
    -- status "done", then the connector's program (tar, mysql, psql) and the data plane's program
    -- both ended without an error.
    pub restore_loaded :
        (do_restore planes (connector_of ops t) now cmd r).1.status ≡ status_done
        → (rd : ℕ) × ((ops.run (load_call t) rd).wait ≡ none)
          × ((programs.run (restore_call d cmd.backup_id) none).wait ≡ none)
    unfolding do_restore restore_with restore_single restore_one begin_progress
    restore_loaded done = elim (Bool-cases (is_empty cmd.backup_id)) [
      | inl e ↦ absurd (let k = rw e at done in cc)
      | inr e ↦
          let k : (single_over (planes r.dp)).status ≡ status_done = rw e at done in
          single_over-BothLoaded (subst (λ p. (single_over p).status ≡ status_done) plane k)
    ]
