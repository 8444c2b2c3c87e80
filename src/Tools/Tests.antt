-- ===== src/Tools/Tests.antt =====
-- Examples of the connectors (examples/files-client/main.go and its like).
use binfinity_addon_sdk.Prelude.{Str, [], codes, none, refl, ℕ, ◌∷◌, ◌≡◌}
use binfinity_addon_sdk.Wire.{Command, cmd_backup, cmd_restore, status_done}
use binfinity_addon_sdk.Runner.{CliDataPlane, DataPlane}
use binfinity_addon_sdk.Runner.Fixtures.{enrolled}
use binfinity_addon_sdk.Runner.Backup.{Plane, do_backup, produce, produced}
use binfinity_addon_sdk.Runner.Restore.{
  consumed, do_restore, restore_one, restore_single, restore_with,
}
use binfinity_addon_sdk.Cli.{
  Programs, backup, backup_call, cli_plane, restore, restore_call, stored_bytes,
}
use binfinity_addon_sdk.Tools.{
  Processes, Tool, connector_of, dump, dump_call, files, files_of, kind_of, load, load_call,
  postgres_of, run_error,
}
use binfinity_addon_sdk.Tools.Stored.{backup_stored, restore_loaded}

-- No variable is set.
abbrev unset : Str → Str
unset k = []

files_default : files_of unset ≡ files (codes "/data")
unfolding files_of
files_default = refl

abbrev tool : Tool
tool = postgres_of unset

-- Every program starts and ends well.
abbrev ops : Processes
ops = record {
  mkdir = λ p. none;
  run = λ call w. record { wait = none; out = []; err_out = [] };
  counts = λ call w. 3 ∷ [];
}

abbrev binfinity : Programs
binfinity = record {
  takes = λ call. none;
  passes = λ call. 0;
  start = λ call. none;
  run = λ call error. record { wait = none; out = codes "bytes stored:   12\n"; err_out = [] };
}

abbrev cli_config : CliDataPlane
cli_config = record {
  binary = [];
  store = codes "local:/b";
  passphrase = codes "pp";
  sms_token = [];
}

abbrev planes : DataPlane → Plane
planes dp = cli_plane binfinity cli_config

abbrev command : Str → Command
command kind = record {
  id = codes "j-1";
  system_id = codes "sys-1";
  kind = kind;
  backup_id = codes "b-1";
  status = [];
  created = [];
  mode = codes "full";
  base_backup_id = [];
  cursor = [];
  chain = [];
}

backup_done :
    (do_backup planes (connector_of ops tool) 5 (codes "s") (command cmd_backup) enrolled).1.status
    ≡ status_done
unfolding do_backup produced produce dump run_error backup postgres_of
backup_done = refl

backup_stored_example :
    (w : ℕ) × ((ops.run (dump_call tool) w).wait ≡ none)
    × ((binfinity.run (backup_call cli_config (codes "b-1") (kind_of tool)) none).wait ≡ none)
    × ((do_backup planes
          (connector_of ops tool)
          5
          (codes "s")
          (command cmd_backup)
          enrolled).1.bytes
        ≡ stored_bytes
            (binfinity.run (backup_call cli_config (codes "b-1") (kind_of tool)) none).out)
backup_stored_example =
    backup_stored binfinity cli_config ops tool (command cmd_backup) planes 5 enrolled refl
      (codes "s") backup_done

restore_done :
    (do_restore planes (connector_of ops tool) 5 (command cmd_restore) enrolled).1.status
    ≡ status_done
unfolding do_restore restore_with restore_single restore_one consumed load run_error restore
    postgres_of
restore_done = refl

restore_loaded_example :
    (rd : ℕ) × ((ops.run (load_call tool) rd).wait ≡ none)
    × ((binfinity.run (restore_call cli_config (codes "b-1")) none).wait ≡ none)
restore_loaded_example =
    restore_loaded binfinity cli_config ops tool (command cmd_restore) planes 5 enrolled refl
      restore_done
