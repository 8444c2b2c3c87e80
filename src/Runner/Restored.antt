-- ===== src/Runner/Restored.antt =====
-- When a restore is done (sdk.go, doRestore).
use binfinity_addon_sdk.Prelude.{
  All, Bool, List, Option, Str, [], ap, false, is_empty, none, refl, some, sym, true, ℕ, ◌↔◌, ◌∙◌,
  ◌∷◌, ◌≡◌,
}
use binfinity_addon_sdk.Wire.{Command, Result, status_done}
use binfinity_addon_sdk.Runner.{DataPlane, Runner, begin_progress}
use binfinity_addon_sdk.Runner.Backup.{Connector, Incremental, Plane}
use binfinity_addon_sdk.Runner.Restore.{
  after_element, chain_result, do_restore, is_nil, restore_chain, restore_one, restore_with,
}
use binfinity_addon_sdk.Runner.Frame.{restore_one-SameFrame}
use binfinity_addon_sdk.Runner.Results.{restore_chain_dp}

module _ (planes : DataPlane → Plane) (inc : Incremental) where
  -- The element with this id restores without an error, as the base or as a delta.
  abbrev pub Restores : Runner → Bool → Str → Type 0
  Restores r is_base id =
      (restore_one planes (λ rd. inc.restore_incremental rd is_base) id r).1 ≡ none

  -- Every element restores, with the first taken for the base or not.
  abbrev Chain : Runner → Bool → List Str → Type 0
  Chain r is_base [] = Unit
  Chain r is_base (id ∷ ids) = Restores r is_base id × All (Restores r false) ids

  Chain-deltas : (r : Runner) (ids : List Str) → Chain r false ids → All (Restores r false) ids
  Chain-deltas r [] h = tt
  Chain-deltas r (id ∷ ids) h = h

  deltas-Chain : (r : Runner) (ids : List Str) → All (Restores r false) ids → Chain r false ids
  deltas-Chain r [] h = tt
  deltas-Chain r (id ∷ ids) h = h

  after_element-none :
      (id : Str) (r : Runner) (rest : Runner × Option (Str × Str)) (error : Option Str)
      → ((after_element id r rest error).1 ≡ none) ↔ ((error ≡ none) × (rest.1 ≡ none))
  unfolding after_element
  after_element-none id r rest none = (λ h. (refl, h), λ h. h.1)
  after_element-none id r rest (some e) = (λ h. cc, λ h. cc)

  restore_chain_done :
      (is_base : Bool) (ids : List Str) (r : Runner)
      → ((restore_chain planes inc is_base ids r).1 ≡ none) ↔ Chain r is_base ids
  unfolding restore_chain
  restore_chain_done is_base [] r = (λ h. tt, λ h. refl)
  restore_chain_done is_base (id ∷ ids) r =
      let consume = λ (rd : ℕ). inc.restore_incremental rd is_base in
      let (r', error) = restore_one planes consume id r in
      let same =
        restore_chain_dp planes inc false ids r r' (restore_one-SameFrame planes consume id r).dp in
      let split = after_element-none id r' (restore_chain planes inc false ids r') error in
      let rest = restore_chain_done false ids r in
      (
        λ h. ((split.0 h).0, Chain-deltas r ids (rest.0 (sym same ∙ (split.0 h).1))),
        λ h. split.1 (h.0, same ∙ rest.1 (deltas-Chain r ids h.1)),
      )

chain_result-done :
    (id : Str) (o : Option (Str × Str)) → ((chain_result id o).status ≡ status_done) ↔ (o ≡ none)
unfolding chain_result
chain_result-done id none = (λ h. refl, λ h. refl)
chain_result-done id (some (bid, e)) = (λ h. cc, λ h. cc)

restore_with_chain :
    (planes : DataPlane → Plane) (conn : Connector) (inc : Incremental) (cmd : Command) (r : Runner)
    → is_nil cmd.chain ≡ false
    → (restore_with planes conn (some inc) cmd r).1
      ≡ chain_result cmd.backup_id (restore_chain planes inc true cmd.chain r).1
unfolding restore_with
restore_with_chain planes conn inc cmd r some_chain = rw some_chain

do_restore_named :
    (planes : DataPlane → Plane) (conn : Connector) (now : ℕ) (cmd : Command) (r : Runner)
    → is_empty cmd.backup_id ≡ false
    → (do_restore planes conn now cmd r).1
      ≡ (restore_with planes conn conn.incremental cmd (begin_progress now 0 r)).1
unfolding do_restore
do_restore_named planes conn now cmd r named = rw named

dp-begin_progress : (now : ℕ) (r : Runner) → (begin_progress now 0 r).dp ≡ r.dp
unfolding begin_progress
dp-begin_progress now r = refl

-- For a command with a backup id and a chain that is not empty, and an incremental connector, the
-- restore's status is "done" exactly if the chain's first element restores without an error as the
-- base, and every later one as a delta.
pub do_restore_chain :
    (planes : DataPlane → Plane) (conn : Connector) (inc : Incremental) (now : ℕ) (cmd : Command)
    (r : Runner) (base : Str) (deltas : List Str)
    → is_empty cmd.backup_id ≡ false
    → conn.incremental ≡ some inc
    → cmd.chain ≡ base ∷ deltas
    → ((do_restore planes conn now cmd r).1.status ≡ status_done)
      ↔ (Restores planes inc r true base × All (Restores planes inc r false) deltas)
do_restore_chain planes conn inc now cmd r base deltas named able chain =
    let begun = begin_progress now 0 r in
    let run = λ (ids : List Str). (restore_chain planes inc true ids begun).1 in
    let as_chain =
      do_restore_named planes conn now cmd r named
      ∙ ap (λ o. (restore_with planes conn o cmd begun).1) able
      ∙ restore_with_chain planes conn inc cmd begun (ap is_nil chain)
      ∙ ap (λ ids. chain_result cmd.backup_id (run ids)) chain in
    let ended = chain_result-done cmd.backup_id (run (base ∷ deltas)) in
    let elements = restore_chain_done planes inc true (base ∷ deltas) r in
    let same = restore_chain_dp planes inc true (base ∷ deltas) r begun (dp-begin_progress now r) in
    (
      λ e. elements.0 (sym same ∙ ended.0 (sym (ap (λ (res : Result). res.status) as_chain) ∙ e)),
      λ h. ap (λ (res : Result). res.status) as_chain ∙ ended.1 (same ∙ elements.1 h),
    )
