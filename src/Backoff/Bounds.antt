-- ===== src/Backoff/Bounds.antt =====
-- How the retry delay grows, and between which bounds it lies (outbox.go, backoff).
use native.Mathlib.Nat.{pow-suc, mul_right_comm}
use binfinity_addon_sdk.Prelude.{
  Bool-cases, NonNegative, Str, arith, inl, inr, min, slt, suc, true, wrap, zero, ℕ, ◌*◌, ◌+◌, ◌/◌,
  ◌<◌, ◌^◌, ◌≡◌, ◌≤◌,
}
use binfinity_addon_sdk.Backoff.{backoff, double_up, seed_from}

-- The delay before jitter: the base doubled `attempt` times, and at most `max`.
abbrev pub capped : ℕ → ℕ → ℕ → ℕ
capped attempt base max = min (base * 2 ^ attempt) max

-- Durations that one doubling, or one jitter, cannot push past int64.
abbrev pub IsDuration : ℕ → Type 0
IsDuration d = d ≤ 2 ^ 62

pow_pos : (k : ℕ) → 0 < 2 ^ k
pow_pos zero = omega arith
pow_pos (suc k) = rw pow-suc (omega (arith, pow_pos k))

pub le-mul-pow : (d k : ℕ) → d ≤ d * 2 ^ k
le-mul-pow d k = grind (arith, pow_pos k)

double-pow : (d rounds : ℕ) → d * 2 * 2 ^ rounds ≡ d * 2 ^ suc rounds
double-pow d rounds = rw pow-suc (grind arith)

wrap-double : (d max : ℕ) → IsDuration max → NonNegative d → slt d max ≡ true → wrap (d * 2) ≡ d * 2
wrap-double d max hm hd more = ground arith

double_up-capped :
    (rounds max d : ℕ)
    → IsDuration max
    → NonNegative d
    → NonNegative (double_up rounds max d)
      × (min (double_up rounds max d) max ≡ capped rounds d max)
unfolding double_up
double_up-capped zero max d hm hd = (hd, omega arith)
double_up-capped (suc rounds) max d hm hd = elim (Bool-cases (slt d max)) [
  | inl more ↦
      rw (more, double_up)
        (rw (wrap-double d max hm hd more)
          (rw double-pow at (double_up-capped rounds max (d * 2) hm (ground arith))))
  | inr done ↦ rw (done, double_up) (hd, ground (arith, le-mul-pow d (suc rounds)))
]

-- For a base and a cap of at most 2 ^ 62 ns, the delay is at least the base doubled `attempt`
-- times and capped, and at most that plus a quarter of it; it is less than that if the capped
-- delay is at least 4 ns.
pub backoff_jittered :
    (attempt base max seed : ℕ)
    → IsDuration base
    → IsDuration max
    → (capped attempt base max ≤ backoff attempt base max seed)
      × (backoff attempt base max seed ≤ capped attempt base max + capped attempt base max / 4)
      × (4 ≤ capped attempt base max
          → backoff attempt base max seed < capped attempt base max + capped attempt base max / 4)
unfolding backoff
backoff_jittered attempt base max seed hb hm =
    ground (arith, double_up-capped attempt max base hm (omega arith))

-- For a base and a cap of at most 2 ^ 62 ns, while another doubling stays within the cap, the next
-- delay is no shorter than this one.
pub backoff_mono :
    (attempt base max seed : ℕ)
    → IsDuration base
    → IsDuration max
    → base * 2 ^ suc attempt ≤ max
    → backoff attempt base max seed ≤ backoff (suc attempt) base max seed
backoff_mono attempt base max seed hb hm h = omega (
  arith,
  (backoff_jittered attempt base max seed hb hm).1,
  (backoff_jittered (suc attempt) base max seed hb hm).0,
  double-pow base attempt,
  mul_right_comm base 2 (2 ^ attempt),
)

-- A seed is never negative, so the jitter's remainder is not negative either.
pub seed_from-NonNegative : (s : Str) → NonNegative (seed_from s)
unfolding seed_from
seed_from-NonNegative s = omega arith
