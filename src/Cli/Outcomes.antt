-- ===== src/Cli/Outcomes.antt =====
-- When the program's run is a success (dataplane.go, Backup and Restore).
use binfinity_addon_sdk.Prelude.{
  Option, Option-cases, Str, ap, inl, inr, none, refl, some, sym, ℕ, ◌↔◌, ◌∙◌, ◌≡◌,
}
use binfinity_addon_sdk.Outcome.{ok}
use binfinity_addon_sdk.Runner.{CliDataPlane}
use binfinity_addon_sdk.Runner.Contract.{IsHonest}
use binfinity_addon_sdk.Cli.{
  Ended, Invocation, Programs, backup, backup_call, backup_ended, cli_plane, restore, restore_call,
  restore_ended, stored_bytes,
}

-- CLIDataPlane's Backup returns n without an error exactly if its closure was called and returned
-- no error, the program ended without an error, and the size read from its output is n.
pub backup_exact :
    (programs : Programs) (call : Invocation) (called : Option (Option Str)) (n : ℕ)
    → (backup programs call called ≡ ok n) ↔ (
        (called ≡ some none)
        × ((programs.run call none).wait ≡ none)
        × (stored_bytes (programs.run call none).out ≡ n))
unfolding backup backup_ended
backup_exact programs call none n = (λ h. cc, λ h. cc)
backup_exact programs call (some (some e)) n = (λ h. cc, λ h. cc)
backup_exact programs call (some none) n = (
  λ h. let k = ended_ok (programs.run call none) h in (refl, k.0, k.1),
  λ h. ended_well (programs.run call none) h.1 h.2,
)
  where
    ended_ok :
        (ended : Ended)
        → backup_ended none ended ≡ ok n
        → (ended.wait ≡ none) × (stored_bytes ended.out ≡ n)
    ended_ok ended h = elim (Option-cases ended.wait) [
      | inl e ↦ (e, let k = rw e at h in cc)
      | inr (t, e) ↦ absurd (let k = rw e at h in cc)
    ]

    ended_well :
        (ended : Ended)
        → ended.wait ≡ none
        → stored_bytes ended.out ≡ n
        → backup_ended none ended ≡ ok n
    ended_well ended e h = rw (e, backup_ended) (ap ok h)

restored_well :
    (error : Option Str) (ended : Ended)
    → restore_ended error ended ≡ none
    → (error ≡ none) × (ended.wait ≡ none)
unfolding restore_ended
restored_well error ended h = elim (Option-cases ended.wait) [
  | inr (t, e) ↦ absurd (let k = rw (e, restore_ended) at h in cc)
  | inl e ↦ elim (Option-cases error) [
    | inl g ↦ (g, e)
    | inr (t, g) ↦ absurd (let k = rw (e, g, restore_ended) at h in cc)
  ]
]

restored_called :
    (programs : Programs) (call : Invocation) (called : Option (Option Str))
    → restore programs call called ≡ none
    → called ≡ some none
unfolding restore
restored_called programs call none h = cc
restored_called programs call (some error) h =
    ap some (restored_well error (programs.run call error) h).0

pub restored_ended :
    (programs : Programs) (call : Invocation) (called : Option (Option Str))
    → restore programs call called ≡ none
    → (called ≡ some none) × ((programs.run call none).wait ≡ none)
unfolding restore
restored_ended programs call called h =
    let e = restored_called programs call called h in
    let k : restore programs call (some none) ≡ none = ap (restore programs call) (sym e) ∙ h in
    (e, (restored_well none (programs.run call none) k).1)

-- CLIDataPlane is a data plane that reports success only if it called its closure and that
-- returned no error, whatever the program does.
pub cli_plane-IsHonest : (programs : Programs) (d : CliDataPlane) → IsHonest (cli_plane programs d)
cli_plane-IsHonest programs d = record {
  backed =
      λ id source called n h. ((backup_exact programs (backup_call d id source) called n).0 h).0;
  recovered = λ id called h. restored_called programs (restore_call d id) called h;
}
