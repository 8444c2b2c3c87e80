-- ===== src/Wire.antt =====
-- wire.go: the data that an addon and the platform exchange, and its fixed words. Strings are lists
-- of bytes; the int64 fields are bit patterns.
use binfinity_addon_sdk.Prelude.{List, Str, codes, ℕ}

pub record Credentials : Type 0 where
  pub internal_id : Str
  pub client_id : Str
  pub secret : Str
  pub name : Str
  pub tenant_id : Str
  pub roles : List Str
  pub enrolled_at : Str
  pub store_spec : Str
  pub sms_token : Str

pub record Heartbeat : Type 0 where
  pub system_id : Str
  pub name : Str
  pub data_type : Str
  pub activity : Str
  pub started_at : Str
  pub bytes_done : ℕ
  pub bytes_total : ℕ

pub record Command : Type 0 where
  pub id : Str
  pub system_id : Str
  pub kind : Str  -- Type
  pub backup_id : Str
  pub status : Str
  pub created : Str
  pub mode : Str
  pub base_backup_id : Str
  pub cursor : Str
  pub chain : List Str

pub record Result : Type 0 where
  pub status : Str
  pub backup_id : Str
  pub bytes : ℕ
  pub error : Str
  pub cursor : Str

abbrev pub cmd_backup : Str
cmd_backup = codes "backup"

abbrev pub cmd_restore : Str
cmd_restore = codes "restore"

abbrev pub activity_idle : Str
activity_idle = codes "idle"

abbrev pub activity_backing_up : Str
activity_backing_up = codes "backing-up"

abbrev pub activity_restoring : Str
activity_restoring = codes "restoring"

abbrev pub status_done : Str
status_done = codes "done"

abbrev pub status_failed : Str
status_failed = codes "failed"

abbrev pub status_cancelled : Str
status_cancelled = codes "cancelled"
