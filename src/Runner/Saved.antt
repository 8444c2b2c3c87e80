-- ===== src/Runner/Saved.antt =====
-- sdk.go: ensureEnrolled with persist, and Run up to its loops. Encoding and decoding of JSON, the
-- write of the file, the enrollment's reply and the clock's text are arguments.
use binfinity_addon_sdk.Prelude.{Bool, Option, Str, false, none, some, true}
use binfinity_addon_sdk.Outcome.{Outcome, err, ok}
use binfinity_addon_sdk.Wire.{Credentials}
use binfinity_addon_sdk.Disk.{WriteFault, torn, unopened}
use binfinity_addon_sdk.Runner.{Runner}
use binfinity_addon_sdk.Runner.Setup.{Response, SetupError, ensure_enrolled, start_run}

-- The file at CRED_PATH after os.WriteFile: `none` if it cannot be read.
unfoldable pub persist : Option WriteFault → Str → Option Str → Option Str
persist none text saved = some text
persist (some unopened) text saved = saved
persist (some (torn t)) text saved = some t

-- What one start of the agent meets.
pub record Boot : Type 0 where
  pub now : Str
  pub reply : Outcome Str Response
  pub fault : Option WriteFault

module _ (decode : Str → Option Credentials) (encode : Credentials → Str) where
  unfoldable pub keep :
      Option WriteFault
      → Option Str
      → Outcome SetupError Credentials × Bool
      → Outcome SetupError Credentials × Option Str
  unfolding persist
  keep fault saved (ok c, true) = (ok c, persist fault (encode c) saved)
  keep fault saved (ok c, false) = (ok c, saved)
  keep fault saved (err e, fresh) = (err e, saved)

  -- ensureEnrolled, with this setup key: the credentials, and the file afterwards
  unfoldable pub obtain : Boot → Str → Option Str → Outcome SetupError Credentials × Option Str
  unfolding keep ensure_enrolled
  obtain boot key saved =
      keep boot.fault saved (ensure_enrolled decode boot.now saved key boot.reply)

  unfoldable pub run_agent :
      Runner → Outcome SetupError Credentials × Option Str → Outcome SetupError Runner × Option Str
  unfolding start_run
  run_agent r (ok c, saved) = (ok (start_run c r), saved)
  run_agent r (err e, saved) = (err e, saved)

  -- Run: the agent that enters the loops
  unfoldable pub run :
      Boot → Outcome SetupError Runner → Option Str → Outcome SetupError Runner × Option Str
  unfolding run_agent obtain
  run boot (err e) saved = (err e, saved)
  run boot (ok r) saved = run_agent r (obtain boot r.cfg.setup_key saved)
