-- ===== src/Cli.antt =====
-- dataplane.go: CLIDataPlane, the data plane that runs the `binfinity` program. What the program
-- does is data: whether it starts, and how it ends once the stream is passed.
pub mod Outcomes
pub mod Stored
pub mod Stuck
mod Tests
use binfinity_addon_sdk.Prelude.{
  Bool, List, Option, Str, [], codes, cut_prefix, false, half_word, if◌then◌else◌, is_digit, length,
  ltb, non_empty_or, none, some, trim_space, ℕ, ◌*◌, ◌++◌, ◌+◌, ◌-◌, ◌==◌, ◌||◌, ◌∷◌,
}
use binfinity_addon_sdk.Runner.{CliDataPlane}
use binfinity_addon_sdk.Runner.Backup.{Io, Plane}
use binfinity_addon_sdk.Outcome.{Outcome, err, ok}

-- A program's start: its path, its arguments, and what is added to the environment.
pub record Invocation : Type 0 where
  pub program : Str
  pub args : List Str
  pub added : List Str

-- cmd.Wait's error, and the two outputs
pub record Ended : Type 0 where
  pub wait : Option Str
  pub out : Str
  pub err_out : Str

-- cmd.Start's error; the end of a program, whose stream ended with this error or without one; how
-- many writes it takes from its input if it ends before the input does; and how many bytes it writes
-- to its output
pub record Programs : Type 0 where
  pub start : Invocation → Option Str
  pub run : Invocation → Option Str → Ended
  pub takes : Invocation → Option ℕ
  pub passes : Invocation → ℕ

abbrev binary_of : CliDataPlane → Str
binary_of d = non_empty_or d.binary (codes "binfinity")

abbrev added_if : Str → Str → List Str
added_if name [] = []
added_if name (c ∷ s) = (name ++ (c ∷ s)) ∷ []

-- env, less os.Environ
abbrev env_of : CliDataPlane → List Str
env_of d =
    added_if (codes "BINFINITY_PASSPHRASE=") d.passphrase
    ++ added_if (codes "SMS_AUTH_TOKEN=") d.sms_token

unfoldable pub backup_call : CliDataPlane → Str → Str → Invocation
backup_call d id source = record {
  program = binary_of d;
  args =
      codes "backup"
      ∷ codes "--in"
      ∷ codes "-"
      ∷ codes "--store"
      ∷ d.store
      ∷ codes "--id"
      ∷ id
      ∷ codes "--source-type"
      ∷ source
      ∷ [];
  added = env_of d;
}

unfoldable pub restore_call : CliDataPlane → Str → Invocation
restore_call d id = record {
  program = binary_of d;
  args =
      codes "restore"
      ∷ codes "--id"
      ∷ id
      ∷ codes "--store"
      ∷ d.store
      ∷ codes "--out"
      ∷ codes "-"
      ∷ [];
  added = env_of d;
}

-- \s of the pattern
abbrev pub is_blank : ℕ → Bool
is_blank c = c == 32 || c == 9 || c == 10 || c == 12 || c == 13

unfoldable pub skip_blanks : Str → Str
skip_blanks [] = []
skip_blanks (c ∷ s) = let rest = skip_blanks s in if is_blank c then rest else c ∷ s

-- \d+ from here, with ParseInt's value; out of range that is the largest int64.
unfoldable pub take_digits : ℕ → Str → ℕ
unfolding is_digit
take_digits n [] = n
take_digits n (c ∷ s) =
    let rest = take_digits (n * 10 + (c - b'0')) s in if is_digit c then rest else n

abbrev pub saturated : ℕ → ℕ
saturated n = if ltb n half_word then n else half_word - 1

-- (\d+)
unfoldable pub first_number : Str → Option ℕ
unfolding take_digits is_digit
first_number [] = none
first_number (c ∷ s) = if is_digit c then some (saturated (take_digits 0 (c ∷ s))) else none

-- \s+(\d+), after "bytes stored:" if that was found
unfoldable pub match_number : Option Str → Option ℕ
unfolding skip_blanks first_number
match_number none = none
match_number (some []) = none
match_number (some (b ∷ s)) = if is_blank b then first_number (skip_blanks s) else none

abbrev pub first_found : Option ℕ → Option ℕ → Option ℕ
first_found none later = later
first_found (some n) later = some n

-- the number of the leftmost match of bytesStoredRe
unfoldable pub find_stored : Str → Option ℕ
unfolding match_number cut_prefix
find_stored [] = none
find_stored (c ∷ s) =
    first_found (match_number (cut_prefix (c ∷ s) (codes "bytes stored:"))) (find_stored s)

abbrev pub size_of : Option ℕ → ℕ
size_of none = 0
size_of (some n) = n

abbrev pub stored_bytes : Str → ℕ
stored_bytes out = size_of (find_stored out)

abbrev pub process_error : Str → Str → Str → Str
process_error what e err_out = what ++ codes ": " ++ e ++ codes ": " ++ trim_space err_out

-- Backup once the program has started, if it returns; the error of `produce` comes before that of
-- the program.
unfoldable pub backup_ended : Option Str → Ended → Outcome Str ℕ
unfolding find_stored trim_space
backup_ended (some e) ended = err (codes "produce source: " ++ e)
backup_ended none ended = elim (ended.wait) [
  | some e ↦ err (process_error (codes "binfinity backup") e ended.err_out)
  | none ↦ ok (stored_bytes ended.out)
]

-- Restore once the program has started, if it returns; the program's error comes first.
unfoldable pub restore_ended : Option Str → Ended → Option Str
unfolding trim_space
restore_ended error ended = elim (ended.wait) [
  | some e ↦ some (process_error (codes "binfinity restore") e ended.err_out)
  | none ↦ elim error [ none ↦ none | some e ↦ some (codes "consume restored stream: " ++ e) ]
]

-- The closure is called exactly if the program starts. `called` is the error that it returned, if
-- it was called; where the program starts it was.
unfoldable pub backup : Programs → Invocation → Option (Option Str) → Outcome Str ℕ
unfolding backup_ended
backup programs call none =
    err
      (codes "start binfinity backup: " ++ (elim (programs.start call) [ none ↦ [] | some e ↦ e ]))
backup programs call (some error) = backup_ended error (programs.run call error)

unfoldable pub restore : Programs → Invocation → Option (Option Str) → Option Str
unfolding restore_ended
restore programs call none =
    some
      (codes "start binfinity restore: " ++ (elim (programs.start call) [ none ↦ [] | some e ↦ e ]))
restore programs call (some error) = restore_ended error (programs.run call error)

abbrev if_started : Option Str → Option ℕ
if_started none = some 0
if_started (some e) = none

-- Backup, whose program has stopped reading: nothing closes the pipe's reader, so a further write
-- waits for ever, and the closure with it. So does a write of no bytes.
unfoldable pub stuck_writer : Option ℕ → Io → Bool
stuck_writer none io = false
stuck_writer (some taken) io = ltb taken (length io.counts)

abbrev pub sum_counts : List ℕ → ℕ
sum_counts [] = 0
sum_counts (n ∷ ns) = n + sum_counts ns

-- Restore, whose closure has returned: without an error nothing closes the pipe's reader, so a
-- program with bytes left waits for ever, and cmd.Wait with it.
unfoldable pub stuck_program : ℕ → Io → Bool
stuck_program passed io = elim (io.error) [
  | some e ↦ false
  | none ↦ ltb (sum_counts io.counts) passed
]

-- CLIDataPlane as a data plane; its one writer and its one reader are a pipe.
abbrev pub cli_plane : Programs → CliDataPlane → Plane
cli_plane programs d = record {
  writer = λ id source. if_started (programs.start (backup_call d id source));
  stored = λ id source called. backup programs (backup_call d id source) called;
  reader = λ id. if_started (programs.start (restore_call d id));
  restored = λ id called. restore programs (restore_call d id) called;
  backup_hangs = λ id source io. stuck_writer (programs.takes (backup_call d id source)) io;
  restore_hangs = λ id io. stuck_program (programs.passes (restore_call d id)) io;
}
