-- ===== src/Runner/Results.antt =====
-- What the result of a command depends on (sdk.go, doBackup and doRestore).
use binfinity_addon_sdk.Prelude.{
  Bool, Bool-cases, List, Option, Str, [], ap, false, inl, inr, is_empty, none, refl, some, str_eq,
  sym, true, ℕ, ◌∙◌, ◌∷◌, ◌≡◌,
}
use binfinity_addon_sdk.Wire.{Command, cmd_backup, cmd_restore}
use binfinity_addon_sdk.Runner.{DataPlane, Runner, begin_progress, set_activity}
use binfinity_addon_sdk.Runner.Backup.{Connector, Incremental, Io, Plane, do_backup}
use binfinity_addon_sdk.Runner.Restore.{
  after_element, chain_result, do_restore, is_nil, restore_chain, restore_one, restore_single,
  restore_with, single_result,
}
use binfinity_addon_sdk.Runner.Execute.{Env, run_command}
use binfinity_addon_sdk.Runner.Frame.{restore_one-SameFrame}

module _ (planes : DataPlane → Plane) (r s : Runner) (e : s.dp ≡ r.dp) where
  restore_one_dp :
      (consume : ℕ → Io) (id : Str)
      → (restore_one planes consume id s).1 ≡ (restore_one planes consume id r).1
  unfolding restore_one
  restore_one_dp consume id = rw e

after_element_dp :
    (id : Str) (r s : Runner) (t u : Runner × Option (Str × Str)) (error : Option Str)
    → t.1 ≡ u.1
    → (after_element id r t error).1 ≡ (after_element id s u error).1
unfolding after_element
after_element_dp id r s t u none h = h
after_element_dp id r s t u (some e) h = refl

pub restore_chain_dp :
    (planes : DataPlane → Plane) (inc : Incremental) (is_base : Bool) (ids : List Str)
    (r s : Runner)
    → s.dp ≡ r.dp
    → (restore_chain planes inc is_base ids s).1 ≡ (restore_chain planes inc is_base ids r).1
unfolding restore_chain
restore_chain_dp planes inc is_base [] r s e = refl
restore_chain_dp planes inc is_base (id ∷ ids) r s e =
    let consume = λ (rd : ℕ). inc.restore_incremental rd is_base in
    let frame_r = restore_one-SameFrame planes consume id r in
    let frame_s = restore_one-SameFrame planes consume id s in
    rw (restore_one_dp planes r s e consume id) (
      after_element_dp id _ _ _ _ (restore_one planes consume id r).1 (
        restore_chain_dp planes inc false ids (restore_one planes consume id r).0
          (restore_one planes consume id s).0 (frame_s.dp ∙ e ∙ sym frame_r.dp)))

-- What a command results in depends on the runner's data plane, and on nothing else of it.
module _ (planes : DataPlane → Plane) (conn : Connector) (cmd : Command) (r s : Runner)
    (e : s.dp ≡ r.dp) where
  restore_single_dp : (restore_single planes conn cmd s).1 ≡ (restore_single planes conn cmd r).1
  unfolding restore_single
  restore_single_dp =
      ap (single_result cmd.backup_id) (restore_one_dp planes r s e conn.restore cmd.backup_id)

  restore_with_dp :
      (inc : Option Incremental)
      → (restore_with planes conn inc cmd s).1 ≡ (restore_with planes conn inc cmd r).1
  unfolding restore_with
  restore_with_dp none = restore_single_dp
  restore_with_dp (some inc) = elim (Bool-cases (is_nil cmd.chain)) [
    | inl t ↦ rw t restore_single_dp
    | inr t ↦
        rw t (ap (chain_result cmd.backup_id) (restore_chain_dp planes inc true cmd.chain r s e))
  ]

do_restore_dp :
    (planes : DataPlane → Plane) (conn : Connector) (now : ℕ) (cmd : Command) (r s : Runner)
    → s.dp ≡ r.dp
    → (do_restore planes conn now cmd s).1 ≡ (do_restore planes conn now cmd r).1
unfolding do_restore
do_restore_dp planes conn now cmd r s e = elim (Bool-cases (is_empty cmd.backup_id)) [
  | inl t ↦ rw t
  | inr t ↦ rw t (
      restore_with_dp planes conn cmd (begin_progress now 0 r) (begin_progress now 0 s)
        (unfold begin_progress in e) conn.incremental)
]

do_backup_dp :
    (planes : DataPlane → Plane) (conn : Connector) (now : ℕ) (stamp : Str) (cmd : Command)
    (r s : Runner)
    → s.dp ≡ r.dp
    → (do_backup planes conn now stamp cmd s).1 ≡ (do_backup planes conn now stamp cmd r).1
unfolding do_backup
do_backup_dp planes conn now stamp cmd r s e = rw e

pub run_command_dp :
    (env : Env) (conn : Connector) (cmd : Command) (r s : Runner)
    → s.dp ≡ r.dp
    → (run_command env conn cmd s).1 ≡ (run_command env conn cmd r).1
unfolding run_command set_activity
run_command_dp env conn cmd r s e = elim (Bool-cases (str_eq cmd.kind cmd_backup)) [
  | inl t ↦ rw t (do_backup_dp env.planes conn env.now env.stamp cmd _ _ e)
  | inr t ↦ elim (Bool-cases (str_eq cmd.kind cmd_restore)) [
    | inl u ↦ rw (t, u) (do_restore_dp env.planes conn env.now cmd _ _ e)
    | inr u ↦ rw (t, u)
  ]
]
