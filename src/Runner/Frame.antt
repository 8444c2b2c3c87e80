-- ===== src/Runner/Frame.antt =====
-- What the work of a command leaves alone in the runner: its configuration, its data plane, its
-- outbox and its cancel hook (sdk.go, doBackup and doRestore).
use binfinity_addon_sdk.Prelude.{
  Bool, List, Option, Str, [], arith, false, if_keeps, is_empty, none, refl, some, str_eq, true, ℕ,
  ◌∙◌, ◌∷◌, ◌≡◌,
}
use binfinity_addon_sdk.Wire.{
  Command, Result, activity_backing_up, activity_restoring, cmd_backup, cmd_restore,
}
use binfinity_addon_sdk.Runner.{
  DataPlane, Runner, begin_progress, count, count_all, end_activity, set_activity,
}
use binfinity_addon_sdk.Runner.Backup.{Connector, Incremental, Io, Plane, do_backup}
use binfinity_addon_sdk.Runner.Restore.{
  after_element, do_restore, is_nil, restore_chain, restore_one, restore_single, restore_with,
}
use binfinity_addon_sdk.Runner.Execute.{Env, run_command}

pub record SameFrame (r s : Runner) : Type 0 where
  pub dp : s.dp ≡ r.dp
  pub out : s.out ≡ r.out
  pub job : s.job ≡ r.job
  pub asked : s.cancel_asked ≡ r.cancel_asked
  pub cfg : s.cfg ≡ r.cfg
  pub dp_store : s.dp_store ≡ r.dp_store
  pub dp_token : s.dp_token ≡ r.dp_token
  pub injected : s.custom_dp ≡ r.custom_dp

pub SameFrame-refl : (r : Runner) → SameFrame r r
SameFrame-refl r = record {
  dp = refl;
  out = refl;
  job = refl;
  asked = refl;
  cfg = refl;
  dp_store = refl;
  dp_token = refl;
  injected = refl;
}

pub SameFrame-trans : {r s t : Runner} → SameFrame r s → SameFrame s t → SameFrame r t
SameFrame-trans h k = record {
  dp = k.dp ∙ h.dp;
  out = k.out ∙ h.out;
  job = k.job ∙ h.job;
  asked = k.asked ∙ h.asked;
  cfg = k.cfg ∙ h.cfg;
  dp_store = k.dp_store ∙ h.dp_store;
  dp_token = k.dp_token ∙ h.dp_token;
  injected = k.injected ∙ h.injected;
}

count-SameFrame : (n : ℕ) (r : Runner) → SameFrame r (count n r)
unfolding count
count-SameFrame n r = ground arith

pub count_all-SameFrame : (ns : List ℕ) (r : Runner) → SameFrame r (count_all ns r)
unfolding count_all
count_all-SameFrame [] r = SameFrame-refl r
count_all-SameFrame (n ∷ ns) r =
    SameFrame-trans (count-SameFrame n r) (count_all-SameFrame ns (count n r))

begin_progress-SameFrame : (now n : ℕ) (r : Runner) → SameFrame r (begin_progress now n r)
unfolding begin_progress
begin_progress-SameFrame now n r = ground arith

set_activity-SameFrame : (a : Str) (r : Runner) → SameFrame r (set_activity a r)
unfolding set_activity
set_activity-SameFrame a r = ground arith

pub end_activity-SameFrame : (r : Runner) → SameFrame r (end_activity r)
unfolding end_activity
end_activity-SameFrame r = ground arith

do_backup-SameFrame :
    (planes : DataPlane → Plane) (conn : Connector) (now : ℕ) (stamp : Str) (cmd : Command)
    (r : Runner)
    → SameFrame r (do_backup planes conn now stamp cmd r).0
unfolding do_backup
do_backup-SameFrame planes conn now stamp cmd r =
    SameFrame-trans (begin_progress-SameFrame now _ r) (count_all-SameFrame _ _)

pub restore_one-SameFrame :
    (planes : DataPlane → Plane) (consume : ℕ → Io) (id : Str) (r : Runner)
    → SameFrame r (restore_one planes consume id r).0
unfolding restore_one
restore_one-SameFrame planes consume id r = count_all-SameFrame _ r

after_element-SameFrame :
    (id : Str) (r s : Runner) (rest : Runner × Option (Str × Str)) (error : Option Str)
    → SameFrame r s
    → SameFrame s rest.0
    → SameFrame r (after_element id s rest error).0
unfolding after_element
after_element-SameFrame id r s rest none h k = SameFrame-trans h k
after_element-SameFrame id r s rest (some e) h k = h

restore_chain-SameFrame :
    (planes : DataPlane → Plane) (inc : Incremental) (is_base : Bool) (ids : List Str) (r : Runner)
    → SameFrame r (restore_chain planes inc is_base ids r).0
unfolding restore_chain
restore_chain-SameFrame planes inc is_base [] r = SameFrame-refl r
restore_chain-SameFrame planes inc is_base (id ∷ ids) r =
    let consume = λ (rd : ℕ). inc.restore_incremental rd is_base in
    let (r', error) = restore_one planes consume id r in
    after_element-SameFrame id r r' (restore_chain planes inc false ids r') error
      (restore_one-SameFrame planes consume id r) (restore_chain-SameFrame planes inc false ids r')

restore_single-SameFrame :
    (planes : DataPlane → Plane) (conn : Connector) (cmd : Command) (r : Runner)
    → SameFrame r (restore_single planes conn cmd r).0
unfolding restore_single
restore_single-SameFrame planes conn cmd r =
    restore_one-SameFrame planes conn.restore cmd.backup_id r

-- A pair whose first part is such a runner.
abbrev SamePair {ℓ} : {A : Type ℓ} → Runner → Runner × A → Type 0
SamePair r s = SameFrame r s.0

restore_with-SameFrame :
    (planes : DataPlane → Plane) (conn : Connector) (inc : Option Incremental) (cmd : Command)
    (r : Runner)
    → SameFrame r (restore_with planes conn inc cmd r).0
unfolding restore_with
restore_with-SameFrame planes conn none cmd r = restore_single-SameFrame planes conn cmd r
restore_with-SameFrame planes conn (some inc) cmd r =
    if_keeps (SamePair {A = Result} r) (is_nil cmd.chain)
      (restore_single-SameFrame planes conn cmd r)
      (restore_chain-SameFrame planes inc true cmd.chain r)

do_restore-SameFrame :
    (planes : DataPlane → Plane) (conn : Connector) (now : ℕ) (cmd : Command) (r : Runner)
    → SameFrame r (do_restore planes conn now cmd r).0
unfolding do_restore
do_restore-SameFrame planes conn now cmd r =
    if_keeps (SamePair {A = Result} r) (is_empty cmd.backup_id) (SameFrame-refl r) (
      SameFrame-trans (begin_progress-SameFrame now 0 r)
        (restore_with-SameFrame planes conn conn.incremental cmd (begin_progress now 0 r)))

pub run_command-SameFrame :
    (env : Env) (conn : Connector) (cmd : Command) (r : Runner)
    → SameFrame r (run_command env conn cmd r).0
unfolding run_command
run_command-SameFrame env conn cmd r =
    if_keeps (SamePair {A = Result} r) (str_eq cmd.kind cmd_backup)
      (SameFrame-trans (set_activity-SameFrame activity_backing_up r)
        (do_backup-SameFrame env.planes conn env.now env.stamp cmd _))
      (if_keeps (SamePair {A = Result} r) (str_eq cmd.kind cmd_restore)
        (SameFrame-trans (set_activity-SameFrame activity_restoring r)
          (do_restore-SameFrame env.planes conn env.now cmd _))
        (SameFrame-refl r))
