-- ===== src/MemLimit/Tests.antt =====
-- Examples of the soft memory limit (memlimit.go).
use binfinity_addon_sdk.Prelude.{
  [], codes, is_empty, none, parse_int, refl, some, str_eq, trim_space, true, ◌*◌, ◌++◌, ◌<◌, ◌∷◌,
  ◌≡◌, ◌≤◌,
}
use binfinity_addon_sdk.MemLimit.{MemEnv, apply_memory_limit, detected_limit, mib, soft_limit}
use binfinity_addon_sdk.MemLimit.Bounds.{apply_memory_limit_sound}

-- A container with a cap of 256 MiB, under cgroup v2.
abbrev capped_256 : MemEnv
capped_256 = record {
  gomemlimit = [];
  override = [];
  memory_max = some (codes "268435456" ++ 10 ∷ []);
  limit_in_bytes = none;
}

capped_256_limit : apply_memory_limit capped_256 ≡ some 214748365
unfolding apply_memory_limit trim_space str_eq parse_int
capped_256_limit = refl

apply_memory_limit_sound_example :
    (is_empty capped_256.gomemlimit ≡ true)
    × (0 < detected_limit capped_256)
    × (214748365 ≡ soft_limit (detected_limit capped_256))
    × (48 * mib ≤ 214748365)
    × (48 * mib ≤ detected_limit capped_256 → 214748365 ≤ detected_limit capped_256)
apply_memory_limit_sound_example = apply_memory_limit_sound capped_256 214748365 capped_256_limit
