-- ===== src/Backoff.antt =====
-- The retry delay (outbox.go, backoff) and its per-system seed (sdk.go, seedFrom). Durations and
-- seeds are int64 bit patterns, with their wrap-around written out.
pub mod Bounds
mod Tests
use binfinity_addon_sdk.Prelude.{
  Str, [], bit_xor, false, half_word, if◌then◌else◌, sle, slt, sub_word, suc, true, word, wrap,
  zero, ℕ, ◌%◌, ◌*◌, ◌+◌, ◌-◌, ◌/◌, ◌^◌, ◌∷◌,
}

-- for i := 0; i < attempt && d < max; i++ { d *= 2 }, by the rounds left
double_up : ℕ → ℕ → ℕ → ℕ
double_up zero max d = d
double_up (suc rounds) max d = elim (slt d max) [
  | true ↦ double_up rounds max (wrap (d * 2))
  | false ↦ d
]

-- int64(d / 4), which rounds towards zero
abbrev quarter : ℕ → ℕ
quarter d = if slt d 0 then sub_word 0 ((word - d) / 4) else d / 4

-- (seed*2654435761 + attempt*40503) & 0x7fffffff
abbrev jitter : ℕ → ℕ → ℕ
jitter seed attempt = wrap (seed * 2654435761 + attempt * 40503) % 2 ^ 31

-- the delay with its jitter; `%` is Go's, since both operands are positive
abbrev add_jitter : ℕ → ℕ → ℕ → ℕ
add_jitter attempt d seed =
    let span = quarter d in if sle span 0 then d else wrap (d + jitter seed attempt % span)

unfoldable pub backoff : ℕ → ℕ → ℕ → ℕ → ℕ
unfolding double_up
backoff attempt base max seed =
    let d = double_up attempt max base in add_jitter attempt (if slt max d then max else d) seed

-- h ^= uint64(s[i]); h *= 1099511628211
hash_bytes : ℕ → Str → ℕ
hash_bytes h [] = h
hash_bytes h (c ∷ s) = hash_bytes (wrap (bit_xor h c * 1099511628211)) s

-- The mask 0x7fffffffffffffff keeps the value below 2 ^ 63.
unfoldable pub seed_from : Str → ℕ
unfolding hash_bytes
seed_from s = hash_bytes 1469598103934665603 s % half_word
