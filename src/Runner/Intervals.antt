-- ===== src/Runner/Intervals.antt =====
-- The intervals of the agent that Main runs (sdk.go: ConfigFromEnv, newRunner).
use binfinity_addon_sdk.Prelude.{
  Bool, Bool-cases, Option-cases, Str, ap, arith, codes, false, inl, inr, is_empty, refl, sle, slt,
  some, subst, sym, true, ℕ, ◌*◌, ◌∙◌, ◌≡◌, ◌⊎◌,
}
use binfinity_addon_sdk.Outcome.{ok}
use binfinity_addon_sdk.Disk.{Disk}
use binfinity_addon_sdk.Runner.{Config, Runner}
use binfinity_addon_sdk.Runner.Setup.{new_runner, positive_or, second}
use binfinity_addon_sdk.Runner.Environ.{Environ, config_from_env, duration_or}

-- A positive interval: the default, or what the variable is set to. It is the latter wherever that
-- is positive.
pub record IsInterval (e : Environ) (key : Str) (default n : ℕ) : Type 0 where
  pub positive : slt 0 n ≡ true
  pub source : (n ≡ default) ⊎ (e.parse_duration (e.get key) ≡ some n)
  pub wanted :
      (d : ℕ)
      → is_empty (e.get key) ≡ false
      → e.parse_duration (e.get key) ≡ some d
      → slt 0 d ≡ true
      → n ≡ d

positive_or-positive : (d default : ℕ) → slt 0 default ≡ true → slt 0 (positive_or d default) ≡ true
positive_or-positive d default h = ground arith

positive_or_same : (d default : ℕ) → slt 0 d ≡ true → positive_or d default ≡ d
positive_or_same d default h = ground arith

positive_or_cases :
    (d default : ℕ) → (positive_or d default ≡ default) ⊎ (positive_or d default ≡ d)
positive_or_cases d default = elim (Bool-cases (sle d 0)) [
  | inl e ↦ inl (rw e refl)
  | inr e ↦ inr (rw e refl)
]

duration_or_parsed :
    (e : Environ) (key : Str) (default d : ℕ)
    → is_empty (e.get key) ≡ false
    → e.parse_duration (e.get key) ≡ some d
    → duration_or e key default ≡ d
unfolding duration_or
duration_or_parsed e key default d set parsed = rw (set, parsed) refl

duration_or_cases :
    (e : Environ) (key : Str) (default : ℕ)
    → (duration_or e key default ≡ default)
      ⊎ (e.parse_duration (e.get key) ≡ some (duration_or e key default))
duration_or_cases e key default = elim (Bool-cases (is_empty (e.get key))) [
  | inl h ↦ inl (unfold duration_or in rw h refl)
  | inr h ↦ elim (Option-cases (e.parse_duration (e.get key))) [
    | inl k ↦ inl (unfold duration_or in rw (h, k) refl)
    | inr (d, k) ↦ inr (k ∙ ap some (sym (duration_or_parsed e key default d h k)))
  ]
]

duration_or-IsInterval :
    (e : Environ) (key : Str) (default : ℕ)
    → slt 0 default ≡ true
    → IsInterval e key default (positive_or (duration_or e key default) default)
duration_or-IsInterval e key default h =
    let v = duration_or e key default in
    record {
      positive = positive_or-positive v default h;
      source = elim (positive_or_cases v default) [
        | inl k ↦ inl k
        | inr k ↦ elim (duration_or_cases e key default) [
          | inl m ↦ inl (k ∙ m)
          | inr m ↦ inr (m ∙ ap some (sym k))
        ]
      ];
      wanted = λ d set parsed good.
          ap (λ n. positive_or n default) (duration_or_parsed e key default d set parsed)
          ∙ positive_or_same d default good;
    }

new_runner_intervals :
    (is_nil : Bool) (outbox_dir : Str → Str) (d : Disk) (cfg : Config) {r : Runner}
    → new_runner is_nil outbox_dir d cfg ≡ ok r
    → (positive_or cfg.heartbeat (10 * second) ≡ r.cfg.heartbeat)
      × (positive_or cfg.poll (5 * second) ≡ r.cfg.poll)
      × (positive_or cfg.report_base (2 * second) ≡ r.cfg.report_base)
unfolding new_runner
new_runner_intervals is_nil outbox_dir d cfg h = ground arith

-- For an agent that newRunner builds from ConfigFromEnv, whatever the environment: its heartbeat,
-- poll and report intervals are positive as int64, each is its default or the duration that its
-- variable is set to, and it is the latter if that is positive.
pub new_runner-IsInterval :
    (is_nil : Bool) (outbox_dir : Str → Str) (d : Disk) (e : Environ) (kind : Str) (r : Runner)
    → new_runner is_nil outbox_dir d (config_from_env e kind) ≡ ok r
    → IsInterval e (codes "HEARTBEAT_INTERVAL") (10 * second) r.cfg.heartbeat
      × IsInterval e (codes "POLL_INTERVAL") (5 * second) r.cfg.poll
      × IsInterval e (codes "REPORT_RETRY_BASE") (2 * second) r.cfg.report_base
unfolding config_from_env
new_runner-IsInterval is_nil outbox_dir d e kind r h =
    let (beat, poll, base) = new_runner_intervals is_nil outbox_dir d (config_from_env e kind) h in
    (
      subst (IsInterval e (codes "HEARTBEAT_INTERVAL") (10 * second)) beat
          (duration_or-IsInterval e (codes "HEARTBEAT_INTERVAL") (10 * second) refl),
      subst (IsInterval e (codes "POLL_INTERVAL") (5 * second)) poll
          (duration_or-IsInterval e (codes "POLL_INTERVAL") (5 * second) refl),
      subst (IsInterval e (codes "REPORT_RETRY_BASE") (2 * second)) base
          (duration_or-IsInterval e (codes "REPORT_RETRY_BASE") (2 * second) refl),
    )
