-- ===== src/Outbox.antt =====
-- outbox.go: the durable buffer of command results, over its directory. The file `o.path(id)` is
-- the entry `file_name id` of it, since that name is a single path element.
pub mod Names
pub mod Order
pub mod View
pub mod Durable
pub mod Owned
pub mod Rounds
pub mod Flush
pub mod Stopped
pub mod Fixtures
mod Tests
use binfinity_addon_sdk.Prelude.{
  Bool, List, Option, Str, [], codes, false, if◌then◌else◌, is_empty, leb, ltb, map, none, some,
  str_eq, true, ℕ, ◌&&◌, ◌++◌, ◌+◌, ◌==◌, ◌||◌, ◌∷◌,
}
use binfinity_addon_sdk.Disk.{Disk, Node, file, folder, lookup, remove_file, rename, write_file}
use binfinity_addon_sdk.Wire.{Result}

pub record PendingReport : Type 0 where
  pub cmd_id : Str
  pub result : Result

-- One rune of safeName: the byte itself if it is kept, '_' if not.
unfoldable pub is_safe : ℕ → Bool
is_safe r =
    leb b'a' r && leb r b'z'
    || leb b'A' r && leb r b'Z'
    || leb b'0' r && leb r b'9'
    || r == b'-'
    || r == b'_'

safe_rune : ℕ → ℕ
unfolding is_safe
safe_rune r = if is_safe r then r else b'_'

-- The input is the list of the runes of the id.
unfoldable pub safe_name : Str → Str
unfolding safe_rune
safe_name [] = codes "cmd"
safe_name (r ∷ s) = safe_rune r ∷ map safe_rune s

unfoldable pub file_name : Str → Str
unfolding safe_name
file_name id = safe_name id ++ codes ".json"

unfoldable pub tmp_name : Str → Str
unfolding file_name
tmp_name id = file_name id ++ codes ".tmp"

-- json.Marshal and json.Unmarshal of a pendingReport
pub record Json : Type 0 where
  pub encode : PendingReport → Str
  pub decode : Str → Option PendingReport

-- filepath.Ext(name) == ".json": the text from the last dot on
unfoldable pub ext : Str → Str
ext [] = []
ext (c ∷ s) = let rest = ext s in if is_empty rest then (if c == b'.' then c ∷ s else []) else rest

is_report : Str × Node → Bool
unfolding ext str_eq
is_report (name, folder) = false
is_report (name, file text) = str_eq (ext name) (codes ".json")

-- s < t, byte by byte
unfoldable pub str_lt : Str → Str → Bool
str_lt s [] = false
str_lt [] (b ∷ t) = true
str_lt (a ∷ s) (b ∷ t) = ltb a b || a == b && str_lt s t

-- sort.Strings, as an insertion sort
unfoldable pub insert_sorted : Str → List Str → List Str
insert_sorted x [] = x ∷ []
insert_sorted x (y ∷ ys) =
    let rest = insert_sorted x ys in if str_lt y x then y ∷ rest else x ∷ y ∷ ys

unfoldable pub sort : List Str → List Str
unfolding insert_sorted str_lt
sort [] = []
sort (x ∷ xs) = insert_sorted x (sort xs)

pub report_names : List (Str × Node) → List Str
unfolding is_report
report_names [] = []
report_names ((name, v) ∷ m) =
    let rest = report_names m in if is_report (name, v) then name ∷ rest else rest

module _ (json : Json) where
  -- `if json.Unmarshal(b, &p) == nil && p.CmdID != ""`
  pub accept : Option PendingReport → Option PendingReport
  accept none = none
  accept (some p) = if is_empty p.cmd_id then none else some p

  pub parse_node : Option Node → Option PendingReport
  unfolding accept
  parse_node none = none
  parse_node (some folder) = none
  parse_node (some (file text)) = accept (json.decode text)

  -- what one round of the reading loop appends
  pub read_report : Disk → Str → Option PendingReport
  unfolding parse_node lookup
  read_report d name = if d.faults.read_fails name then none else parse_node (lookup name d.entries)

  pub cons_some : Option PendingReport → List PendingReport → List PendingReport
  cons_some none ps = ps
  cons_some (some p) ps = p ∷ ps

  pub read_all : Disk → List Str → List PendingReport
  unfolding read_report cons_some
  read_all d [] = []
  read_all d (name ∷ names) = cons_some (read_report d name) (read_all d names)

  -- the body of `pending` for an outbox that is not nil
  unfoldable pub pending_on : Disk → List PendingReport
  unfolding read_all sort report_names
  pending_on d = if d.faults.read_dir_fails then [] else read_all d (sort (report_names d.entries))

  -- the body of `enqueue` likewise
  unfoldable pub enqueue_on : Str → Result → Disk → Disk × Bool
  unfolding write_file rename tmp_name
  enqueue_on id res d =
      let (d', written) =
        write_file (tmp_name id) (json.encode (record { cmd_id = id; result = res })) d in
      if written then rename (tmp_name id) (file_name id) d' else (d', false)

  -- The methods, whose receiver may be nil.
  unfoldable pub enqueue : Option Disk → Str → Result → Option Disk × Bool
  unfolding enqueue_on
  enqueue none id res = (none, true)
  enqueue (some d) id res = let (d', done) = enqueue_on id res d in (some d', done)

  unfoldable pub pending : Option Disk → List PendingReport
  unfolding pending_on
  pending none = []
  pending (some d) = pending_on d

unfoldable pub ack_on : Str → Disk → Disk
unfolding remove_file file_name
ack_on id d = remove_file (file_name id) d

unfoldable pub ack : Option Disk → Str → Option Disk
unfolding ack_on
ack none id = none
ack (some d) id = some (ack_on id d)

-- newOutbox, over the directory that it opens
unfoldable pub new_outbox : Str → Disk → Option Disk
new_outbox [] d = none
new_outbox (c ∷ dir) d = some d

-- What the rounds of one flush meet: whether ctx is done before a report, and what `send` returns.
pub record Sender : Type 0 where
  pub ctx_done : PendingReport → Bool
  pub send : PendingReport → Bool

pub flush_all : Sender → List PendingReport → ℕ → Disk → Disk × ℕ
unfolding ack_on
flush_all env [] remaining d = (d, remaining)
flush_all env (p ∷ ps) remaining d =
    let rest =
      flush_all env ps (if env.send p then remaining else remaining + 1)
        (if env.send p then ack_on p.cmd_id d else d) in
    if env.ctx_done p then (d, remaining + 1) else rest

unfoldable pub flush_on : Json → Sender → Disk → Disk × ℕ
unfolding flush_all pending_on
flush_on json env d = flush_all env (pending_on json d) 0 d

unfoldable pub flush : Json → Sender → Option Disk → Option Disk × ℕ
unfolding flush_on
flush json env none = (none, 0)
flush json env (some d) = let (d', remaining) = flush_on json env d in (some d', remaining)
