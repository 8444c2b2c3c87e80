-- ===== src/Wordpress/Commands.antt =====
-- The outside programs of the WordPress connector (examples/wordpress-client/main.go: pickBinary,
-- dumperSupports, dumpDB, loadDB, EstimateBytes). What a program does is data.
pub mod Dumped
use binfinity_addon_sdk.Prelude.{
  Bool, List, Option, Str, [], codes, false, has_prefix, if◌then◌else◌, is_empty, none, parse_int,
  some, trim_space, true, word, ℕ, ◌%◌, ◌++◌, ◌+◌, ◌||◌, ◌∷◌,
}
use binfinity_addon_sdk.Cli.{Ended, Invocation}
use binfinity_addon_sdk.Tools.{dump, run_error}
use binfinity_addon_sdk.Wordpress.Config.{DbConf, WpConnector}
use binfinity_addon_sdk.Wordpress.Backup.{Visit, pass, write}
use binfinity_addon_sdk.Outcome.{Outcome, err, ok}
use binfinity_addon_sdk.Wordpress.{Member}

-- exec.LookPath finds the program; what --help prints; how a program ends; the errors of
-- os.CreateTemp and of the two seeks in the temporary file, in their order
pub record Host : Type 0 where
  pub on_path : Str → Bool
  pub help : Str → Str
  pub run : Invocation → Ended
  pub created : Option Str
  pub told : Option Str
  pub rewound : Option Str

abbrev pub pick_binary : Host → Str → Str → Str
pick_binary h primary fallback =
    if h.on_path primary then primary else if h.on_path fallback then fallback else primary

-- bytes.Contains
unfoldable pub contains_text : Str → Str → Bool
unfolding has_prefix
contains_text [] p = is_empty p
contains_text (c ∷ s) p = has_prefix (c ∷ s) p || contains_text s p

abbrev pub dumper_supports : Host → Str → Str → Bool
dumper_supports h bin opt = contains_text (h.help bin) opt

abbrev login : DbConf → List Str
login db = codes "-h" ∷ db.host ∷ codes "-P" ∷ db.port ∷ codes "-u" ∷ db.user ∷ []

abbrev password : DbConf → List Str
password db = (codes "MYSQL_PWD=" ++ db.pass) ∷ []

abbrev statistics : Bool → List Str
statistics true = codes "--column-statistics=0" ∷ []
statistics false = []

unfoldable pub dump_command : Host → DbConf → Invocation
unfolding contains_text
dump_command h db =
    let dumper = pick_binary h (codes "mysqldump") (codes "mariadb-dump") in
    record {
      program = dumper;
      args =
          login db
          ++ (statistics (dumper_supports h dumper (codes "column-statistics"))
              ++ (codes "--single-transaction"
                  ∷ codes "--quick"
                  ∷ codes "--routines"
                  ∷ codes "--triggers"
                  ∷ codes "--events"
                  ∷ codes "--add-drop-database"
                  ∷ codes "--add-drop-table"
                  ∷ codes "--skip-comments"
                  ∷ codes "--databases"
                  ∷ db.name
                  ∷ []));
      added = password db;
    }

abbrev unless : {A : Type 0} → Option Str → Outcome Str A → Outcome Str A
unless none next = next
unless (some e) next = err e

-- What dumpDB puts in the member, or its error.
unfoldable pub dump_db : Host → DbConf → Outcome Str Str
unfolding dump_command run_error
dump_db h db =
    let ended = h.run (dump_command h db) in
    unless h.created (
      unless (run_error (codes "mysqldump") ended)
        (unless h.told (unless h.rewound (ok ended.out))))

-- write of a connector with this configuration
unfoldable pub write_all : Host → WpConnector → Option ℕ → List Visit → List Member × Option Str
unfolding write dump_db
write_all h c since vs = write (dump_db h c.db) c.exclude since vs

abbrev load_command : Host → DbConf → Invocation
load_command h db = record {
  program = pick_binary h (codes "mysql") (codes "mariadb");
  args = login db;
  added = password db;
}

-- loadDB; how the program ends may depend on the dump that it reads
unfoldable pub load_db : Host → (Invocation → Str → Ended) → DbConf → Str → Option Str
unfolding run_error
load_db h reads db dump = run_error (codes "mysql import") (reads (load_command h db) dump)

abbrev size_query : Host → DbConf → Invocation
size_query h db = record {
  program = pick_binary h (codes "mysql") (codes "mariadb");
  args =
      login db
      ++ (codes "-N"
          ∷ codes "-B"
          ∷ codes "-e"
          ∷ codes
              "SELECT IFNULL(SUM(data_length+index_length),0) FROM information_schema.tables WHERE table_schema=DATABASE()"
          ∷ db.name
          ∷ []);
  added = password db;
}

-- int64 sums; each size is that of a regular file that the walk could stat
unfoldable pub sum_sizes : ℕ → List ℕ → ℕ
sum_sizes total [] = total
sum_sizes total (n ∷ sizes) = sum_sizes ((total + n) % word) sizes

abbrev add_output : ℕ → Ended → ℕ
add_output total ended = elim (ended.wait) [
  | some e ↦ total
  | none ↦ elim (parse_int (trim_space ended.out)) [ none ↦ total | some n ↦ (total + n) % word ]
]

unfoldable pub estimate_bytes : Host → DbConf → List ℕ → ℕ
unfolding sum_sizes parse_int trim_space
estimate_bytes h db sizes = add_output (sum_sizes 0 sizes) (h.run (size_query h db))
