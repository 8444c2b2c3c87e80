-- ===== src/Disk.antt =====
-- A directory, and the calls of package os that the outbox makes on it. What the operating system
-- refuses is part of the state, so each failure path is a value.
use binfinity_addon_sdk.Prelude.{
  Bool, List, Option, Str, [], false, if◌then◌else◌, none, some, str_eq, true, ◌∷◌,
}

pub data Node : Type 0 where
  file : Str → Node
  folder : Node

-- A failed write leaves the entry alone, or leaves it with other bytes.
pub data WriteFault : Type 0 where
  unopened : WriteFault
  torn : Str → WriteFault

-- Which calls of the operating system fail, by the entry's name. A folder in the way of a write or
-- a rename is such a failure.
pub record Faults : Type 0 where
  pub write_fails : Str → Option WriteFault
  pub rename_fails : Str → Bool
  pub remove_fails : Str → Bool
  pub read_dir_fails : Bool
  pub read_fails : Str → Bool

pub record Disk : Type 0 where
  pub entries : List (Str × Node)
  pub faults : Faults

unfoldable pub lookup : Str → List (Str × Node) → Option Node
lookup k [] = none
lookup k ((j, v) ∷ m) = if str_eq j k then some v else lookup k m

unfoldable pub remove : Str → List (Str × Node) → List (Str × Node)
remove k [] = []
remove k ((j, v) ∷ m) = let rest = remove k m in if str_eq j k then rest else (j, v) ∷ rest

-- A write over an entry replaces it.
unfoldable pub insert : Str → Node → List (Str × Node) → List (Str × Node)
unfolding remove
insert k v m = (k, v) ∷ remove k m

-- os.WriteFile: the new directory, and whether it succeeded
unfoldable pub write_file : Str → Str → Disk → Disk × Bool
unfolding insert
write_file k text d = elim (d.faults.write_fails k) [
  | none ↦ (record d { entries = insert k (file text) d.entries }, true)
  | some unopened ↦ (d, false)
  | some (torn left) ↦ (record d { entries = insert k (file left) d.entries }, false)
]

move : Str → Option Node → List (Str × Node) → List (Str × Node) × Bool
unfolding insert remove
move k none m = (m, false)
move k (some v) m = (insert k v m, true)

-- os.Rename of `j` to `k`: atomic, so it leaves the old directory or the new one
unfoldable pub rename : Str → Str → Disk → Disk × Bool
unfolding move lookup remove
rename j k d =
    if d.faults.rename_fails k
    then (d, false)
    else (let (m, done) = move k (lookup j d.entries) (remove j d.entries) in
        if done then (record d { entries = m }, true) else (d, false))

-- os.Remove
unfoldable pub remove_file : Str → Disk → Disk
unfolding remove
remove_file k d = if d.faults.remove_fails k then d else record d { entries = remove k d.entries }
