-- ===== src/Wordpress/Backup.antt =====
-- The backup of the WordPress connector (examples/wordpress-client/main.go: isExcluded, addContent,
-- dumpDB, write, Backup, BackupIncremental). Its stream is the list of the tar's members.
use binfinity_addon_sdk.Prelude.{
  Bool, List, Option, Str, [], codes, false, has_prefix, if◌then◌else◌, is_empty, ltb, none, not,
  some, str_eq, trim_left_slashes, trim_slashes, trim_space, true, ℕ, ◌++◌, ◌||◌, ◌∷◌,
}
use binfinity_addon_sdk.Outcome.{Outcome, err, ok}
use binfinity_addon_sdk.Wordpress.{Member}
use binfinity_addon_sdk.Wordpress.Paths.{join}
use binfinity_addon_sdk.Wordpress.Tree.{TreePath}

-- e = strings.Trim(strings.TrimSpace(e), "/")
abbrev trim_exclude : Str → Str
trim_exclude e = trim_slashes (trim_left_slashes (trim_space e))

-- isExcluded
unfoldable pub is_excluded : List Str → Str → Bool
unfolding str_eq has_prefix trim_slashes trim_left_slashes trim_space
is_excluded [] rel = false
is_excluded (raw ∷ excludes) rel =
    let rest = is_excluded excludes rel in
    let e = trim_exclude raw in
    if is_empty e then rest else str_eq rel e || has_prefix rel (e ++ codes "/") || rest

-- What the walk finds at a path: a regular file has its time of change, and its bytes or the error
-- of reading them; `unreadable` is an error that the walk hands on, or that of a ctx that is done.
pub data Info : Type 0 where
  directory : Info
  regular : ℕ → Outcome Str Str → Info
  special : Info
  unreadable : Str → Info

pub record Visit : Type 0 where
  pub path : TreePath
  pub info : Info

-- What the callback of filepath.Walk does: it writes a member, passes, or ends the walk.
pub data Action : Type 0 where
  write_member : Member → Action
  pass : Action
  stop : Str → Action

-- `since` is `none` for the zero time.
abbrev pub is_old : Option ℕ → ℕ → Bool
is_old none changed = false
is_old (some since) changed = not (ltb since changed)

abbrev pub is_full : Option ℕ → Bool
is_full none = true
is_full (some since) = false

unfoldable pub file_action : Str → Outcome Str Str → Action
file_action rel (err e) = stop e
file_action rel (ok bytes) =
    write_member (record { name = codes "files/" ++ rel; is_dir = false; bytes = bytes })

-- the callback, below the root
unfoldable pub visit_below : List Str → Option ℕ → Str → Info → Action
unfolding is_excluded file_action
visit_below excludes since rel directory =
    if is_excluded excludes rel
    then pass
    else if is_full since
    then write_member
        (record { name = codes "files/" ++ (rel ++ codes "/"); is_dir = true; bytes = [] })
    else pass
visit_below excludes since rel (regular changed bytes) =
    if is_old since changed then pass else file_action rel bytes
visit_below excludes since rel special = pass
visit_below excludes since rel (unreadable e) = stop e

-- The callback; at the root only an error matters.
unfoldable pub visit_action : List Str → Option ℕ → TreePath → Info → Action
unfolding visit_below join
visit_action excludes since [] directory = pass
visit_action excludes since [] (regular changed bytes) = pass
visit_action excludes since [] special = pass
visit_action excludes since [] (unreadable e) = stop e
visit_action excludes since (p ∷ ps) info = visit_below excludes since (join (p ∷ ps)) info

-- One of the directories above the path, below `pre`, is excluded: the walk skips its contents.
unfoldable pub is_hidden : List Str → TreePath → TreePath → Bool
unfolding is_excluded join
is_hidden excludes pre [] = false
is_hidden excludes pre (c ∷ []) = false
is_hidden excludes pre (c ∷ d ∷ cs) =
    is_excluded excludes (join (pre ++ (c ∷ []))) || is_hidden excludes (pre ++ (c ∷ [])) (d ∷ cs)

unfoldable pub visit : List Str → Option ℕ → Visit → Action
unfolding is_hidden visit_action
visit excludes since v =
    if is_hidden excludes [] v.path then pass else visit_action excludes since v.path v.info

unfoldable pub next_visit : Action → List Member × Option Str → List Member × Option Str
next_visit (write_member m) (ms, e) = (m ∷ ms, e)
next_visit pass rest = rest
next_visit (stop e) rest = ([], some e)

-- addContent, over what the walk of wp-content would find with nothing skipped
unfoldable pub add_content : List Str → Option ℕ → List Visit → List Member × Option Str
unfolding visit next_visit
add_content excludes since [] = ([], none)
add_content excludes since (v ∷ vs) =
    next_visit (visit excludes since v) (add_content excludes since vs)

abbrev pub dump_member : Str → Member
dump_member bytes = record { name = codes "db/dump.sql"; is_dir = false; bytes = bytes }

-- write, where `dump` is what dumpDB gets from mysqldump, or its error
unfoldable pub write : Outcome Str Str → List Str → Option ℕ → List Visit → List Member × Option Str
unfolding add_content
write (err e) excludes since vs = ([], some e)
write (ok dump) excludes since vs =
    let (ms, e) = add_content excludes since vs in (dump_member dump ∷ ms, e)

-- BackupIncremental: the members, and the new cursor with `isDelta`, or the error. `parse` is
-- time.Parse, and `next` the formatted time at the start.
since_of : (Str → Option ℕ) → Str → Option ℕ
since_of parse [] = none
since_of parse (c ∷ cursor) = parse (c ∷ cursor)

abbrev with_cursor : Str → Bool → Option Str → Outcome Str (Str × Bool)
with_cursor next is_delta none = ok (next, is_delta)
with_cursor next is_delta (some e) = err e

unfoldable pub backup_incremental :
    (Str → Option ℕ)
    → Str
    → Outcome Str Str
    → List Str
    → List Visit
    → Str
    → List Member × Outcome Str (Str × Bool)
unfolding write since_of
backup_incremental parse next dump excludes vs cursor =
    let since = since_of parse cursor in
    let (ms, e) = write dump excludes since vs in (ms, with_cursor next (not (is_full since)) e)
