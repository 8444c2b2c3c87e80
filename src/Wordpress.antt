-- ===== src/Wordpress.antt =====
-- The restore of the WordPress connector (examples/wordpress-client/main.go: isDBDump, contentRel,
-- consume, apply), over what its calls of loadDB, clearDir, extractInto and flushObjectCache do to
-- an unknown state.
pub mod Commands
pub mod Locate
pub mod Members
pub mod Applied
pub mod Cleared
pub mod Paths
pub mod Tree
pub mod Backup
pub mod Resp
pub mod Config
pub mod WpConfig
pub mod Kept
pub mod Grown
pub mod Emptied
pub mod Visited
pub mod Extracted
pub mod Filled
pub mod Begun
pub mod RoundTrip
pub mod Overlaid
pub mod Merged
pub mod Delta
pub mod Fresh
pub mod Chained
pub mod Layers
mod Fixtures
mod RestoreTests
mod ChainTests
mod HostTests
mod Tests
use binfinity_addon_sdk.Prelude.{
  Bool, List, Option, Str, [], codes, contains_byte, cut_prefix, false, has_prefix, has_suffix,
  if◌then◌else◌, none, not, some, str_eq, true, ℕ, ◌&&◌, ◌++◌, ◌+◌, ◌||◌, ◌∷◌,
}

-- s[3:] of a string with at least three bytes
abbrev drop_three : Str → Str
drop_three (a ∷ b ∷ c ∷ s) = s
drop_three s = []

-- the test of any *.sql at the root or directly under db/
root_sql : Str → Bool
unfolding has_suffix contains_byte has_prefix
root_sql name =
    if not (has_suffix name (codes ".sql"))
    then false
    else if contains_byte b'/' name
    then has_prefix name (codes "db/") && not (contains_byte b'/' (drop_three name))
    else true

unfoldable pub is_db_dump : Str → Bool
unfolding root_sql
is_db_dump name =
    if str_eq name (codes "db/dump.sql") || str_eq name (codes "db.sql")
    then true
    else root_sql name

unfoldable pub content_rel : Str → Option Str
unfolding cut_prefix
content_rel name = elim (cut_prefix name (codes "files/")) [
  | some rel ↦ some rel
  | none ↦ cut_prefix name (codes "wp-content/")
]

-- A tar member: its name, whether it is a directory, and its data.
pub record Member : Type 0 where
  pub name : Str
  pub is_dir : Bool
  pub bytes : Str

-- How the stream ends: at its end, or with a read error.
pub data Ending : Type 0 where
  eof : Ending
  torn : Str → Ending

pub data Effect : Type 0 where
  load_db : Str → Effect  -- loadDB
  clear_dir : Effect  -- clearDir
  extract_into : Str → Member → Effect  -- extractInto
  flush_cache : Effect  -- flushObjectCache

-- The error of consume, or that of a stream without a dump, with the number of its files.
pub data RestoreError : Type 0 where
  failed : Str → RestoreError
  no_dump : ℕ → RestoreError

-- A state that records the calls, the latest first, and which of them fail.
abbrev pub logging : (Effect → Option Str) → Effect → List Effect → List Effect × Option Str
logging fails e es = (e ∷ es, fails e)

-- The variables of consume, and the state that its calls change.
pub record Progress (World : Type 0) : Type 0 where
  pub db_applied : Bool
  pub files : ℕ
  pub cleared : Bool
  pub world : World

-- `act` is what a call does to that state, with the error that it returns.
module _ {World : Type 0} (act : Effect → World → World × Option Str) where
  abbrev pub started : World → Progress World
  started w = record { db_applied = false; files = 0; cleared = false; world = w }

  unfoldable pub call : Effect → Progress World → Progress World × Option Str
  call e p = let (w, error) = act e p.world in (record p { world = w }, error)

  unfoldable pub mark_applied : Progress World → Option Str → Progress World × Option Str
  mark_applied p none = (record p { db_applied = true }, none)
  mark_applied p (some e) = (p, some e)

  unfoldable pub mark_file : Progress World → Option Str → Progress World × Option Str
  mark_file p none = (record p { files = p.files + 1 }, none)
  mark_file p (some e) = (p, some e)

  unfoldable pub clear_once : Bool → Progress World → Progress World × Option Str
  unfolding call
  clear_once is_base p =
      if is_base && not p.cleared then call clear_dir (record p { cleared = true }) else (p, none)

  -- the call of extractInto, unless clearOnce returned an error
  unfoldable pub extract_member :
      Str → Member → Progress World → Option Str → Progress World × Option Str
  unfolding call mark_file
  extract_member rel m p none = let (q, e) = call (extract_into rel m) p in mark_file q e
  extract_member rel m p (some e) = (p, some e)

  unfoldable pub content_member :
      Bool → Member → Progress World → Option Str → Progress World × Option Str
  unfolding clear_once extract_member
  content_member is_base m p none = (p, none)
  content_member is_base m p (some rel) =
      let (q, e) = clear_once is_base p in extract_member rel m q e

  -- one round of the loop, for a member
  unfoldable pub consume_member : Bool → Member → Progress World → Progress World × Option Str
  unfolding is_db_dump content_rel content_member mark_applied call
  consume_member is_base m p =
      if is_db_dump m.name
      then (let (q, e) = call (load_db m.bytes) p in mark_applied q e)
      else content_member is_base m p (content_rel m.name)

  unfoldable pub unless_failed :
      Progress World → Progress World × Option Str → Option Str → Progress World × Option Str
  unless_failed p rest none = rest
  unless_failed p rest (some e) = (p, some e)

  abbrev pub end_error : Ending → Option Str
  end_error eof = none
  end_error (torn e) = some (codes "read restore stream: " ++ e)

  unfoldable pub consume :
      Bool → Ending → List Member → Progress World → Progress World × Option Str
  unfolding consume_member unless_failed
  consume is_base ending [] p = (p, end_error ending)
  consume is_base ending (m ∷ ms) p =
      let (q, e) = consume_member is_base m p in unless_failed q (consume is_base ending ms q) e

  -- what apply does once the stream is consumed; an error of the flush is only logged
  unfoldable pub finish : Progress World → Option Str → Progress World × Option RestoreError
  unfolding call
  finish p (some e) = (p, some (failed e))
  finish p none =
      if p.db_applied
      then (let (q, e) = call flush_cache p in (q, none))
      else (p, some (no_dump p.files))

  unfoldable pub apply : Bool → Ending → List Member → World → Progress World × Option RestoreError
  unfolding consume finish
  apply is_base ending ms w = let (p, e) = consume is_base ending ms (started w) in finish p e
