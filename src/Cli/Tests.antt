-- ===== src/Cli/Tests.antt =====
-- Examples of the data plane over the program (dataplane.go), alone and below the agent (sdk.go).
use binfinity_addon_sdk.Prelude.{
  All, List, Option, Str, [], arith, codes, contains_byte, cut_prefix, decimal, false, is_digit,
  none, read_digits, refl, some, str_eq, true, ℕ, ◌++◌, ◌∷◌, ◌≡◌,
}
use binfinity_addon_sdk.Wire.{Command, cmd_backup, cmd_restore, status_done}
use binfinity_addon_sdk.Outcome.{err, ok}
use binfinity_addon_sdk.Outbox.Fixtures.{by_id}
use binfinity_addon_sdk.Runner.Requests.{Tick}
use binfinity_addon_sdk.Runner.Backup.{Connector, Incremental, Io, Plane, do_backup, produced}
use binfinity_addon_sdk.Runner.{CliDataPlane, DataPlane}
use binfinity_addon_sdk.Runner.Fixtures.{all_down, enrolled}
use binfinity_addon_sdk.Runner.Restore.{do_restore}
use binfinity_addon_sdk.Runner.Contract.{
  Applied, IsHonest, WroteWell, do_backup_produced, do_restore-Applied,
}
use binfinity_addon_sdk.Cli.{
  Invocation, Programs, backup, backup_call, cli_plane, find_stored, first_number, match_number,
  restore, skip_blanks, stored_bytes, take_digits,
}
use binfinity_addon_sdk.Cli.Outcomes.{cli_plane-IsHonest}
use binfinity_addon_sdk.Cli.Stored.{stored_bytes_print}

abbrev cli_config : CliDataPlane
cli_config = record {
  binary = [];
  store = codes "local:/b";
  passphrase = codes "pp";
  sms_token = [];
}

abbrev printed : Str
printed = codes "id: x\nbytes stored:   12\n"

-- A program that starts and ends well.
abbrev stores : Programs
stores = record {
  takes = λ call. none;
  passes = λ call. 0;
  start = λ call. none;
  run = λ call error. record { wait = none; out = printed; err_out = [] };
}

-- A program that does not start.
abbrev missing : Programs
missing = record stores { start = λ call. some (codes "not found") }

printed-stored : stored_bytes printed ≡ 12
unfolding find_stored match_number cut_prefix skip_blanks first_number take_digits is_digit
printed-stored = refl

backup_missing :
    backup missing (backup_call cli_config (codes "b-1") (codes "files")) none
    ≡ err (codes "start binfinity backup: not found")
unfolding backup
backup_missing = refl

stored_bytes_print_example :
    stored_bytes (
      codes "id: x\n"
      ++ (codes "bytes stored:" ++ (32 ∷ (codes "  " ++ (decimal 12 ++ codes "\n")))))
    ≡ 12
unfolding contains_byte read_digits is_digit
stored_bytes_print_example =
    stored_bytes_print (codes "id: x\n") 32 (codes "  ") 12 (codes "\n") refl
      (refl, (refl, (refl, tt))) (omega arith) refl

-- The producer was called and returned no error.
abbrev all_written : Option (Option Str)
all_written = some none

abbrev invocation : Invocation
invocation = backup_call cli_config (codes "b-1") (codes "files")

cli_plane-IsHonest_example : IsHonest (cli_plane stores cli_config)
cli_plane-IsHonest_example = cli_plane-IsHonest stores cli_config

abbrev one_write : Io
one_write = record { counts = 3 ∷ []; error = none }

abbrev incremental : Incremental
incremental = record {
  backup_incremental = λ w cursor. record { io = one_write; next = codes "c1"; is_delta = true };
  restore_incremental = λ rd is_base. one_write;
}

abbrev connector : Connector
connector = record {
  data_type = codes "files";
  backup = λ w. one_write;
  restore = λ rd. one_write;
  estimate = none;
  incremental = some incremental;
}

abbrev command : Str → List Str → Command
command kind chain = record {
  id = codes "j-1";
  system_id = codes "sys-1";
  kind = kind;
  backup_id = codes "b-1";
  status = [];
  created = [];
  mode = codes "full";
  base_backup_id = [];
  cursor = [];
  chain = chain;
}

abbrev planes : DataPlane → Plane
planes dp = cli_plane stores cli_config

do_backup_stored :
    (do_backup planes connector 5 (codes "s") (command cmd_backup []) enrolled).1.status
    ≡ status_done
unfolding do_backup produced backup str_eq
do_backup_stored = refl

do_backup_produced_example :
    (w : ℕ) × ((planes enrolled.dp).writer (codes "b-1") (codes "files") ≡ some w)
    × WroteWell connector (command cmd_backup []) w
do_backup_produced_example =
    do_backup_produced planes connector 5 (codes "s") (command cmd_backup []) enrolled
      (cli_plane-IsHonest stores cli_config) do_backup_stored

do_restore_restored :
    (do_restore planes connector 5
      (command cmd_restore (codes "b0" ∷ codes "b1" ∷ []))
      enrolled).1.status
    ≡ status_done
unfolding do_restore restore
do_restore_restored = refl

do_restore-Applied_example :
    Applied (planes enrolled.dp) incremental true (codes "b0")
    × All (Applied (planes enrolled.dp) incremental false) (codes "b1" ∷ [])
do_restore-Applied_example =
    do_restore-Applied planes incremental enrolled (cli_plane-IsHonest stores cli_config) connector
      5 (command cmd_restore (codes "b0" ∷ codes "b1" ∷ [])) (codes "b0") (codes "b1" ∷ []) refl
      refl refl do_restore_restored

-- A program that ends before it has read its input.
abbrev ends_early : Programs
ends_early = record stores { takes = λ call. some 0 }

abbrev plain : Connector
plain = record connector { incremental = none }

-- The platform answers every poll, and every body is a backup command.
abbrev one_command : Str → Option Command
one_command text = some (command cmd_backup [])

abbrev stuck_tick : Tick
stuck_tick = record {
  net = record {
    new_request = λ url. none;
    now = 0;
    attempts = all_down;
    exchange = λ q. ok (record { status = 200; body = q.url });
  };
  env = record {
    planes = λ dp. cli_plane ends_early cli_config;
    now = 5;
    stamp = codes "t";
    early = [];
    during = [];
    late = [];
    json = by_id;
    post = record { unbuilt = none; now = 0; attempts = all_down; status = λ tok p. none };
  };
}
