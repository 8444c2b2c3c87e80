-- ===== src/Tools.antt =====
-- The connectors that pass one outside program's stream on (examples/files-client/main.go,
-- examples/mysql-client/main.go, examples/postgres-client/main.go). What a program does is data.
pub mod Stored
mod Tests
use binfinity_addon_sdk.Prelude.{
  List, Option, Str, [], codes, non_empty_or, none, some, trim_space, ℕ, ◌++◌, ◌∷◌,
}
use binfinity_addon_sdk.Runner.Backup.{Connector, Io}
use binfinity_addon_sdk.Cli.{Ended, Invocation, backup, process_error, restore}

pub record MysqlConnector : Type 0 where
  pub host : Str
  pub user : Str
  pub pass : Str
  pub db : Str

pub record PgConnector : Type 0 where
  pub host : Str
  pub port : Str
  pub user : Str
  pub pass : Str
  pub db : Str

-- filesConnector has just its root.
pub data Tool : Type 0 where
  files : Str → Tool
  mysql : MysqlConnector → Tool
  postgres : PgConnector → Tool

-- os.MkdirAll's error; how a program ends that has this writer or reader, and the counts that the
-- calls of Write or Read return meanwhile
pub record Processes : Type 0 where
  pub mkdir : Str → Option Str
  pub run : Invocation → ℕ → Ended
  pub counts : Invocation → ℕ → List ℕ

-- env of each of the three
abbrev env : (Str → Str) → Str → Str → Str
env get key default = non_empty_or (get key) default

-- main of each
unfoldable pub files_of : (Str → Str) → Tool
files_of get = files (env get (codes "FILES_ROOT") (codes "/data"))

unfoldable pub mysql_of : (Str → Str) → Tool
mysql_of get = mysql (record {
  host = env get (codes "MYSQL_HOST") (codes "mysql");
  user = env get (codes "MYSQL_USER") (codes "root");
  pass = get (codes "MYSQL_PASSWORD");
  db = env get (codes "MYSQL_DB") (codes "demo");
})

unfoldable pub postgres_of : (Str → Str) → Tool
postgres_of get = postgres (record {
  host = env get (codes "PG_HOST") (codes "postgres");
  port = env get (codes "PG_PORT") (codes "5432");
  user = env get (codes "PG_USER") (codes "postgres");
  pass = get (codes "PG_PASSWORD");
  db = env get (codes "PG_DB") (codes "postgres");
})

abbrev files_dump_call : Str → Invocation
files_dump_call root = record {
  program = codes "tar";
  args = codes "-c" ∷ codes "-C" ∷ root ∷ codes "." ∷ [];
  added = [];
}

abbrev mysql_dump_call : MysqlConnector → Invocation
mysql_dump_call m = record {
  program = codes "mysqldump";
  args =
      codes "-h"
      ∷ m.host
      ∷ codes "-u"
      ∷ m.user
      ∷ codes "--databases"
      ∷ m.db
      ∷ codes "--add-drop-table"
      ∷ codes "--single-transaction"
      ∷ codes "--skip-comments"
      ∷ [];
  added = (codes "MYSQL_PWD=" ++ m.pass) ∷ [];
}

abbrev pg_dump_call : PgConnector → Invocation
pg_dump_call p = record {
  program = codes "pg_dump";
  args =
      codes "-h"
      ∷ p.host
      ∷ codes "-p"
      ∷ p.port
      ∷ codes "-U"
      ∷ p.user
      ∷ codes "--clean"
      ∷ codes "--if-exists"
      ∷ codes "--no-owner"
      ∷ codes "--no-privileges"
      ∷ p.db
      ∷ [];
  added = (codes "PGPASSWORD=" ++ p.pass) ∷ [];
}

unfoldable pub dump_call : Tool → Invocation
dump_call (files root) = files_dump_call root
dump_call (mysql m) = mysql_dump_call m
dump_call (postgres p) = pg_dump_call p

abbrev files_load_call : Str → Invocation
files_load_call root = record {
  program = codes "tar";
  args = codes "-x" ∷ codes "-C" ∷ root ∷ [];
  added = [];
}

abbrev mysql_load_call : MysqlConnector → Invocation
mysql_load_call m = record {
  program = codes "mysql";
  args = codes "-h" ∷ m.host ∷ codes "-u" ∷ m.user ∷ [];
  added = (codes "MYSQL_PWD=" ++ m.pass) ∷ [];
}

abbrev pg_load_call : PgConnector → Invocation
pg_load_call p = record {
  program = codes "psql";
  args =
      codes "-h"
      ∷ p.host
      ∷ codes "-p"
      ∷ p.port
      ∷ codes "-U"
      ∷ p.user
      ∷ codes "-d"
      ∷ p.db
      ∷ codes "--set"
      ∷ codes "ON_ERROR_STOP=on"
      ∷ [];
  added = (codes "PGPASSWORD=" ++ p.pass) ∷ [];
}

unfoldable pub load_call : Tool → Invocation
load_call (files root) = files_load_call root
load_call (mysql m) = mysql_load_call m
load_call (postgres p) = pg_load_call p

unfoldable pub run_error : Str → Ended → Option Str
unfolding trim_space
run_error what ended = elim (ended.wait) [
  | none ↦ none
  | some e ↦ some (process_error what e ended.err_out)
]

abbrev run_io : Processes → Str → Invocation → ℕ → Io
run_io ops what call w = record {
  counts = ops.counts call w;
  error = run_error what (ops.run call w);
}

-- Backup of each
abbrev files_backup : Processes → Str → ℕ → Io
files_backup ops root w = run_io ops (codes "tar create") (dump_call (files root)) w

abbrev mysql_backup : Processes → MysqlConnector → ℕ → Io
mysql_backup ops m w = run_io ops (codes "mysqldump") (dump_call (mysql m)) w

abbrev pg_backup : Processes → PgConnector → ℕ → Io
pg_backup ops p w = run_io ops (codes "pg_dump") (dump_call (postgres p)) w

unfoldable pub dump : Processes → Tool → ℕ → Io
unfolding run_error dump_call
dump ops (files root) w = files_backup ops root w
dump ops (mysql m) w = mysql_backup ops m w
dump ops (postgres p) w = pg_backup ops p w

unfoldable pub mkdir_or : Option Str → Io → Io
mkdir_or none io = io
mkdir_or (some e) io = record { counts = []; error = some (codes "mkdir restore root: " ++ e) }

-- Restore of each
abbrev files_restore : Processes → Str → ℕ → Io
files_restore ops root rd =
    mkdir_or (ops.mkdir root) (run_io ops (codes "tar extract") (load_call (files root)) rd)

abbrev mysql_restore : Processes → MysqlConnector → ℕ → Io
mysql_restore ops m rd = run_io ops (codes "mysql import") (load_call (mysql m)) rd

abbrev pg_restore : Processes → PgConnector → ℕ → Io
pg_restore ops p rd = run_io ops (codes "psql restore") (load_call (postgres p)) rd

unfoldable pub load : Processes → Tool → ℕ → Io
unfolding run_error load_call mkdir_or
load ops (files root) rd = files_restore ops root rd
load ops (mysql m) rd = mysql_restore ops m rd
load ops (postgres p) rd = pg_restore ops p rd

abbrev pub kind_of : Tool → Str
kind_of (files root) = codes "files"
kind_of (mysql m) = codes "mysql"
kind_of (postgres p) = codes "postgres"

-- Neither incremental nor with an estimate.
abbrev pub connector_of : Processes → Tool → Connector
connector_of ops t = record {
  data_type = kind_of t;
  backup = dump ops t;
  restore = load ops t;
  estimate = none;
  incremental = none;
}
