-- ===== src/Runner/Entry/Started.antt =====
-- When the agent starts (sdk.go: Main, Run, newRunner, ensureEnrolled).
use binfinity_addon_sdk.Prelude.{
  Bool, Bool-cases, Option, Str, codes, false, inl, inr, is_empty, not, refl, true, ◌&&◌, ◌||◌, ◌∙◌,
  ◌≡◌,
}
use binfinity_addon_sdk.Outcome.{Outcome, err, ok}
use binfinity_addon_sdk.Wire.{Credentials}
use binfinity_addon_sdk.Disk.{Disk, WriteFault}
use binfinity_addon_sdk.Runner.{Config, Runner}
use binfinity_addon_sdk.Runner.Setup.{SetupError, build_runner, ensure_enrolled, new_runner}
use binfinity_addon_sdk.Runner.Environ.{config_from_env}
use binfinity_addon_sdk.Runner.Saved.{Boot, keep, obtain, run, run_agent}
use binfinity_addon_sdk.Runner.Enrolled.{ensure_enrolled_outcome, is_accepted, is_ok, is_usable}
use binfinity_addon_sdk.Runner.Entry.{Process, main_agent}

abbrev pub is_started : Outcome SetupError Runner → Bool
is_started (ok r) = true
is_started (err e) = false

module _ (decode : Str → Option Credentials) (encode : Credentials → Str) where
  keep-is_ok :
      (fault : Option WriteFault) (saved : Option Str) (o : Outcome SetupError Credentials × Bool)
      → is_ok (keep decode encode fault saved o).0 ≡ is_ok o.0
  unfolding keep
  keep-is_ok fault saved (ok c, true) = refl
  keep-is_ok fault saved (ok c, false) = refl
  keep-is_ok fault saved (err e, fresh) = refl

  run_agent-is_started :
      (r : Runner) (o : Outcome SetupError Credentials × Option Str)
      → is_started (run_agent decode encode r o).0 ≡ is_ok o.0
  unfolding run_agent
  run_agent-is_started r (ok c, saved) = refl
  run_agent-is_started r (err e, saved) = refl

  -- The agent can enroll, or has enrolled before.
  abbrev pub can_enroll : Boot → Str → Option Str → Bool
  can_enroll boot key saved =
      is_usable decode saved || not (is_empty key) && is_accepted decode boot.reply

  obtain-is_ok :
      (boot : Boot) (key : Str) (saved : Option Str)
      → is_ok (obtain decode encode boot key saved).0 ≡ can_enroll boot key saved
  unfolding obtain
  obtain-is_ok boot key saved =
      keep-is_ok boot.fault saved (ensure_enrolled decode boot.now saved key boot.reply)
      ∙ (ensure_enrolled_outcome decode boot.now saved key boot.reply).1

  run-is_started :
      (boot : Boot) (r : Runner) (saved : Option Str)
      → is_started (run decode encode boot (ok r) saved).0 ≡ can_enroll boot r.cfg.setup_key saved
  unfolding run
  run-is_started boot r saved =
      run_agent-is_started r (obtain decode encode boot r.cfg.setup_key saved)
      ∙ obtain-is_ok boot r.cfg.setup_key saved

  run-new_runner :
      (boot : Boot) (outbox_dir : Str → Str) (d : Disk) (cfg : Config) (saved : Option Str)
      → is_started (run decode encode boot (new_runner false outbox_dir d cfg) saved).0
        ≡ (not (is_empty cfg.endpoint) && can_enroll boot cfg.setup_key saved)
  unfolding new_runner build_runner run
  run-new_runner boot outbox_dir d cfg saved = elim (Bool-cases (is_empty cfg.endpoint)) [
    | inl e ↦ rw e refl
    | inr e ↦ rw e (run-is_started boot (build_runner outbox_dir d cfg) saved)
  ]

  -- Main enters its loops exactly if BF_ENDPOINT is not empty, and either the saved file decodes
  -- to credentials with a client id, or BF_SETUP_KEY is not empty and the platform answers the
  -- enrollment with 201 and a body that decodes; otherwise it ends with an error. Whether the
  -- credentials can be written does not matter.
  pub main_agent-is_started :
      (p : Process) (boot : Boot)
      → is_started (main_agent decode encode p boot).started ≡ (
          not (is_empty (p.environ.get (codes "BF_ENDPOINT")))
          && can_enroll boot (p.environ.get (codes "BF_SETUP_KEY")) p.saved)
  unfolding main_agent config_from_env
  main_agent-is_started p boot =
      run-new_runner boot p.outbox_dir p.disk (config_from_env p.environ p.data_type) p.saved
