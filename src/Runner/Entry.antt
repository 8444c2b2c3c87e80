-- ===== src/Runner/Entry.antt =====
-- sdk.go: Main, up to the loops. log.Fatalf ends the process where the result is an error.
pub mod Started
use binfinity_addon_sdk.Prelude.{Option, Str, false, ℕ}
use binfinity_addon_sdk.Outcome.{Outcome}
use binfinity_addon_sdk.Wire.{Credentials}
use binfinity_addon_sdk.MemLimit.{MemEnv, apply_memory_limit}
use binfinity_addon_sdk.Runner.{Runner}
use binfinity_addon_sdk.Runner.Setup.{SetupError, new_runner}
use binfinity_addon_sdk.Runner.Environ.{Environ, config_from_env}
use binfinity_addon_sdk.Runner.Saved.{Boot, run}
use binfinity_addon_sdk.Disk.{Disk}

-- What the process finds: the cgroup files and the environment, the connector's data type, the
-- outbox's directory for a path of the credentials, and the file at that path.
pub record Process : Type 0 where
  pub memory : MemEnv
  pub environ : Environ
  pub data_type : Str
  pub outbox_dir : Str → Str
  pub disk : Disk
  pub saved : Option Str

-- The memory limit that is set; the agent that enters the loops, or the error; the saved file.
pub record Entered : Type 0 where
  pub limit : Option ℕ
  pub started : Outcome SetupError Runner
  pub kept_file : Option Str

unfoldable pub main_agent :
    (Str → Option Credentials) → (Credentials → Str) → Process → Boot → Entered
unfolding config_from_env new_runner run
main_agent decode encode p boot =
    let cfg = config_from_env p.environ p.data_type in
    let (agent, left) = run decode encode boot (new_runner false p.outbox_dir p.disk cfg) p.saved in
    record { limit = apply_memory_limit p.memory; started = agent; kept_file = left }
