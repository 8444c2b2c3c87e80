-- ===== src/Wordpress/Tree.antt =====
-- The wp-content tree of the WordPress connector and what a restore does to it
-- (examples/wordpress-client/main.go: extractInto, clearDir, loadDB). A path is the list of its
-- parts below wp-content, which is the path [] itself. Permissions and links are left out.
use binfinity_addon_sdk.Prelude.{
  Bool, List, Option, Str, [], false, if◌then◌else◌, none, some, str_eq, true, ◌&&◌, ◌++◌, ◌∷◌,
}
use binfinity_addon_sdk.Disk.{Node, WriteFault, file, folder, torn, unopened}
use binfinity_addon_sdk.Outbox.{sort}
use binfinity_addon_sdk.Wordpress.{Effect, Member, clear_dir, extract_into, flush_cache, load_db}
use binfinity_addon_sdk.Wordpress.Paths.{target}

abbrev pub TreePath : Type 0
TreePath = List Str

unfoldable pub path_eq : TreePath → TreePath → Bool
unfolding str_eq
path_eq [] [] = true
path_eq (p ∷ ps) (q ∷ qs) = str_eq p q && path_eq ps qs
path_eq _ _ = false

-- Which calls of the operating system fail, by the path, and the error's text. A failed RemoveAll
-- removes nothing; a failed write leaves the file as WriteFault says.
pub record TreeFaults : Type 0 where
  pub read_dir_fails : Bool
  pub remove_fails : TreePath → Bool
  pub mkdir_fails : TreePath → Bool
  pub write_fails : TreePath → Option WriteFault
  pub text : Str

pub record Tree : Type 0 where
  pub entries : List (TreePath × Node)
  pub faults : TreeFaults

unfoldable pub find : TreePath → List (TreePath × Node) → Option Node
unfolding path_eq
find p [] = none
find p ((q, v) ∷ m) = if path_eq q p then some v else find p m

-- an entry's new node; the older one is shadowed
abbrev pub put : TreePath → Node → Tree → Tree
put p v t = record t { entries = (p, v) ∷ t.entries }

-- one level of os.MkdirAll
unfoldable pub ensure_found : TreePath → Tree → Option Node → Tree × Option Str
ensure_found p t (some folder) = (t, none)
ensure_found p t (some (file bytes)) = (t, some t.faults.text)
ensure_found p t none =
    if t.faults.mkdir_fails p then (t, some t.faults.text) else (put p folder t, none)

unfoldable pub ensure : TreePath → Tree → Tree × Option Str
unfolding ensure_found find
ensure p t = ensure_found p t (find p t.entries)

unfoldable pub unless_error : Tree → Tree × Option Str → Option Str → Tree × Option Str
unless_error t rest none = rest
unless_error t rest (some e) = (t, some e)

-- os.MkdirAll of the path `cs` below the directory `pre`
unfoldable pub mkdir_all : TreePath → TreePath → Tree → Tree × Option Str
unfolding ensure unless_error
mkdir_all pre [] t = ensure pre t
mkdir_all pre (c ∷ cs) t =
    let (made, e) = ensure pre t in unless_error made (mkdir_all (pre ++ (c ∷ [])) cs made) e

-- the path without its last part, as filepath.Dir gives it
unfoldable pub parent : TreePath → TreePath
parent [] = []
parent (c ∷ []) = []
parent (c ∷ d ∷ cs) = c ∷ parent (d ∷ cs)

-- os.MkdirAll(filepath.Dir(dst)); the parent of wp-content itself is outside this tree, and is there
unfoldable pub mkdir_parent : TreePath → Tree → Tree × Option Str
unfolding mkdir_all parent
mkdir_parent [] t = (t, none)
mkdir_parent (c ∷ cs) t = mkdir_all [] (parent (c ∷ cs)) t

unfoldable pub write_faulty : TreePath → Str → Tree → Option WriteFault → Tree × Option Str
write_faulty p bytes t none = (put p (file bytes) t, none)
write_faulty p bytes t (some unopened) = (t, some t.faults.text)
write_faulty p bytes t (some (torn left)) = (put p (file left) t, some t.faults.text)

unfoldable pub write_found : TreePath → Str → Tree → Option Node → Tree × Option Str
unfolding write_faulty
write_found p bytes t (some folder) = (t, some t.faults.text)
write_found p bytes t (some (file old)) = write_faulty p bytes t (t.faults.write_fails p)
write_found p bytes t none = write_faulty p bytes t (t.faults.write_fails p)

-- os.OpenFile and io.Copy
unfoldable pub write_at : TreePath → Str → Tree → Tree × Option Str
unfolding write_found find
write_at p bytes t = write_found p bytes t (find p t.entries)

unfoldable pub extract_to : TreePath → Member → Tree → Tree × Option Str
unfolding mkdir_all mkdir_parent write_at unless_error
extract_to dst m t =
    if m.is_dir
    then mkdir_all [] dst t
    else (let (made, e) = mkdir_parent dst t in unless_error made (write_at dst m.bytes made) e)

extract_at : Option TreePath → Member → Tree → Tree × Option Str
unfolding extract_to
extract_at none m t = (t, none)
extract_at (some dst) m t = extract_to dst m t

-- extractInto
unfoldable pub extract : Str → Member → Tree → Tree × Option Str
unfolding extract_at target
extract rel m t = extract_at (target rel) m t

-- the names in wp-content
unfoldable pub child_names : List (TreePath × Node) → List Str
child_names [] = []
child_names (([], v) ∷ m) = child_names m
child_names ((p ∷ ps, v) ∷ m) = p ∷ child_names m

abbrev pub is_below : Str → TreePath → Bool
is_below name [] = false
is_below name (p ∷ ps) = str_eq p name

-- os.RemoveAll of a name in wp-content
unfoldable pub remove_below : Str → List (TreePath × Node) → List (TreePath × Node)
unfolding str_eq
remove_below name [] = []
remove_below name ((p, v) ∷ m) =
    let rest = remove_below name m in if is_below name p then rest else (p, v) ∷ rest

unfoldable pub remove_names : List Str → Tree → Tree × Option Str
unfolding remove_below
remove_names [] t = (t, none)
remove_names (name ∷ names) t =
    let rest = remove_names names (record t { entries = remove_below name t.entries }) in
    if t.faults.remove_fails (name ∷ []) then (t, some t.faults.text) else rest

unfoldable pub clear_found : Tree → Option Node → Tree × Option Str
unfolding remove_names child_names sort ensure
clear_found t none = ensure [] t
clear_found t (some (file bytes)) = (t, some t.faults.text)
clear_found t (some folder) = remove_names (sort (child_names t.entries)) t

-- clearDir
unfoldable pub clear : Tree → Tree × Option Str
unfolding clear_found find
clear t =
    if t.faults.read_dir_fails then (t, some t.faults.text) else clear_found t (find [] t.entries)

-- A WordPress site: its database and its wp-content.
pub record Site : Type 0 where
  pub db : Str
  pub tree : Tree

-- mysql's import of a dump, and the flush of the object cache
pub record Services : Type 0 where
  pub import : Str → Str → Str × Option Str
  pub flush : Option Str

-- What the calls of consume and apply do to a site.
unfoldable pub on_site : Services → Effect → Site → Site × Option Str
unfolding clear extract
on_site o (load_db bytes) s = let (db, e) = o.import bytes s.db in (record s { db = db }, e)
on_site o clear_dir s = let (tree, e) = clear s.tree in (record s { tree = tree }, e)
on_site o (extract_into rel m) s =
    let (tree, e) = extract rel m s.tree in (record s { tree = tree }, e)
on_site o flush_cache s = (s, o.flush)
