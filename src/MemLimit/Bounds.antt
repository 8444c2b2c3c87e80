-- ===== src/MemLimit/Bounds.antt =====
-- The soft limit against the cap (memlimit.go).
use binfinity_addon_sdk.Prelude.{
  NonNegative, Option, Option-cases, Str, [], arith, if◌then◌else◌, inl, inr, is_empty, leb, none,
  parse_int, parse_int-lt-word, some, trim_space, true, ℕ, ◌*◌, ◌-◌, ◌/◌, ◌<◌, ◌↔◌, ◌∷◌, ◌≡◌, ◌≤◌,
}
use binfinity_addon_sdk.MemLimit.{
  MemEnv, apply_memory_limit, cgroup_mem_limit, cgroup_v1, cgroup_v2, detected_limit, mib,
  override_limit, soft_limit,
}

-- For a positive int64 cap, the soft limit is 48 MiB up to a cap of 80 MiB, the cap less 32 MiB up
-- to a cap of 160 MiB, and above that the cap less a fifth of it, rounded down.
pub soft_limit_pieces :
    (limit : ℕ)
    → 0 < limit
    → NonNegative limit
    → soft_limit limit ≡ (
        if leb limit (80 * mib)
        then 48 * mib
        else if leb limit (160 * mib)
        then limit - 32 * mib
        else limit - limit / 5)
unfolding soft_limit
soft_limit_pieces limit pos h = ground arith

-- For a positive int64 cap, the soft limit is at most the cap exactly if the cap is at least 48
-- MiB.
pub soft_limit-le_iff :
    (limit : ℕ) → 0 < limit → NonNegative limit → (soft_limit limit ≤ limit) ↔ (48 * mib ≤ limit)
unfolding soft_limit
soft_limit-le_iff limit pos h = (λ k. ground arith, λ k. ground arith)

override_limit-NonNegative : (s : Str) → NonNegative (override_limit s)
unfolding override_limit
override_limit-NonNegative [] = omega arith
override_limit-NonNegative (c ∷ s) = elim (Option-cases (parse_int (c ∷ s))) [
  | inl e ↦ rw (e, override_limit) (omega arith)
  | inr (n, e) ↦ rw (e, override_limit) (ground (arith, parse_int-lt-word (c ∷ s) e))
]

cgroup_v1-NonNegative : (v1 : Option Str) → NonNegative (cgroup_v1 v1)
unfolding cgroup_v1
cgroup_v1-NonNegative none = omega arith
cgroup_v1-NonNegative (some text) = elim (Option-cases (parse_int (trim_space text))) [
  | inl e ↦ rw (e, cgroup_v1) (omega arith)
  | inr (n, e) ↦ rw (e, cgroup_v1) (ground (arith, parse_int-lt-word (trim_space text) e))
]

cgroup_v2-NonNegative : (s : Str) (v1 : Option Str) → NonNegative (cgroup_v2 (parse_int s) v1)
unfolding cgroup_v2
cgroup_v2-NonNegative s v1 = elim (Option-cases (parse_int s)) [
  | inl e ↦ rw (e, cgroup_v2) (cgroup_v1-NonNegative v1)
  | inr (n, e) ↦ rw (e, cgroup_v2) (ground (arith, parse_int-lt-word s e, cgroup_v1-NonNegative v1))
]

cgroup_mem_limit-NonNegative : (e : MemEnv) → NonNegative (cgroup_mem_limit e)
unfolding cgroup_mem_limit
cgroup_mem_limit-NonNegative e = elim (Option-cases e.memory_max) [
  | inl p ↦ rw p (cgroup_v1-NonNegative e.limit_in_bytes)
  | inr (text, p) ↦ rw p (
      ground (
        arith,
        cgroup_v1-NonNegative e.limit_in_bytes,
        cgroup_v2-NonNegative (trim_space text) e.limit_in_bytes,
      ))
]

detected_limit-NonNegative : (e : MemEnv) → NonNegative (detected_limit e)
unfolding detected_limit
detected_limit-NonNegative e =
    ground
      (arith, override_limit-NonNegative (trim_space e.override), cgroup_mem_limit-NonNegative e)

-- If a limit is set, GOMEMLIMIT is unset and a positive cap was detected, and the limit is that
-- cap's soft limit, at least 48 MiB, and at most the cap if the cap is at least 48 MiB.
pub apply_memory_limit_sound :
    (e : MemEnv) (soft : ℕ)
    → apply_memory_limit e ≡ some soft
    → (is_empty e.gomemlimit ≡ true)
      × (0 < detected_limit e)
      × (soft ≡ soft_limit (detected_limit e))
      × (48 * mib ≤ soft)
      × (48 * mib ≤ detected_limit e → soft ≤ detected_limit e)
unfolding apply_memory_limit soft_limit
apply_memory_limit_sound e soft h = ground (arith, detected_limit-NonNegative e)
