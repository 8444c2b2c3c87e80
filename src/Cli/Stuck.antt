-- ===== src/Cli/Stuck.antt =====
-- A program that ends before it has read its input (dataplane.go, Backup; sdk.go, pollLoop).
use binfinity_addon_sdk.Prelude.{none, some, ℕ, ◌≡◌}
use binfinity_addon_sdk.Runner.{Runner}
use binfinity_addon_sdk.Cli.{Invocation, Programs}

-- The program starts, takes this many writes, and ends.
pub record EndsEarly (programs : Programs) (call : Invocation) (taken : ℕ) : Type 0 where
  pub starts : programs.start call ≡ none
  pub takes_few : programs.takes call ≡ some taken
