-- ===== src/MemLimit.antt =====
-- memlimit.go: the soft memory limit that the addon sets from its container's cap. The environment
-- and the two cgroup files are a record; `none` for a file is a failed read.
pub mod Bounds
mod Tests
use mathlib.Core.Option.{Option, none, some}
use binfinity_addon_sdk.Prelude.{
  Str, [], codes, if◌then◌else◌, is_empty, parse_int, sle, slt, str_eq, sub_word, trim_space, ℕ,
  ◌*◌, ◌/◌, ◌^◌, ◌∷◌,
}

abbrev pub mib : ℕ
mib = 2 ^ 20

pub record MemEnv : Type 0 where
  pub gomemlimit : Str  -- GOMEMLIMIT
  pub override : Str  -- BINFINITY_MEM_LIMIT
  pub memory_max : Option Str  -- /sys/fs/cgroup/memory.max
  pub limit_in_bytes : Option Str  -- /sys/fs/cgroup/memory/memory.limit_in_bytes

-- Go's `max` on int64.
abbrev pub max_word : ℕ → ℕ → ℕ
max_word a b = if slt a b then b else a

-- soft := max(limit-max(limit/5, 32<<20), 48<<20). The limit is positive here, so `/` is Go's.
unfoldable pub soft_limit : ℕ → ℕ
soft_limit limit = max_word (sub_word limit (max_word (limit / 5) (32 * mib))) (48 * mib)

-- `if n, err := ParseInt(...); err == nil && n > 0` of the override, 0 otherwise
override_limit : Str → ℕ
override_limit [] = 0
override_limit (c ∷ s) = elim (parse_int (c ∷ s)) [ none ↦ 0 | some n ↦ if slt 0 n then n else 0 ]

-- the cgroup v1 file, with its sentinel for "unlimited" ignored
cgroup_v1 : Option Str → ℕ
cgroup_v1 none = 0
cgroup_v1 (some text) = elim (parse_int (trim_space text)) [
  | none ↦ 0
  | some n ↦ if slt 0 n then if slt n (2 ^ 62) then n else 0 else 0
]

-- what the parse of cgroup v2's file gives, or else the v1 file
cgroup_v2 : Option ℕ → Option Str → ℕ
unfolding cgroup_v1
cgroup_v2 none v1 = cgroup_v1 v1
cgroup_v2 (some n) v1 = if slt 0 n then n else cgroup_v1 v1

cgroup_mem_limit : MemEnv → ℕ
unfolding cgroup_v2
cgroup_mem_limit e = elim e.memory_max [
  | none ↦ cgroup_v1 e.limit_in_bytes
  | some text ↦
      let s = trim_space text in
      if is_empty s
      then cgroup_v1 e.limit_in_bytes
      else if str_eq s (codes "max")
      then cgroup_v1 e.limit_in_bytes
      else cgroup_v2 (parse_int s) e.limit_in_bytes
]

-- The limit that the override or, failing that, the cgroup gives.
pub detected_limit : MemEnv → ℕ
unfolding override_limit cgroup_mem_limit
detected_limit e =
    let limit = override_limit (trim_space e.override) in
    if sle limit 0 then cgroup_mem_limit e else limit

-- The argument of debug.SetMemoryLimit, or `none` where it is not called.
pub apply_memory_limit : MemEnv → Option ℕ
unfolding detected_limit soft_limit
apply_memory_limit e =
    if is_empty e.gomemlimit
    then (let limit = detected_limit e in if sle limit 0 then none else some (soft_limit limit))
    else none
