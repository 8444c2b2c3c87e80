-- ===== src/Prelude/Bools.antt =====
-- Laws of the Boolean operators.
use mathlib.Core.Path.{◌≡◌, refl}
use mathlib.Core.Bool.{Bool, true, false, not, ◌&&◌, ◌||◌}
use native.Mathlib.Omega.{arith}

pub and_true : (b : Bool) → b ≡ (b && true)
and_true true = refl
and_true false = refl

pub or_true : (b : Bool) → true ≡ (b || true)
or_true b = ground arith

pub or_false : (b : Bool) → b ≡ (b || false)
or_false b = ground arith

pub not-not_last : (a b c : Bool) → (a && b && c) ≡ ((a && b) && not (not c))
not-not_last a b c = ground arith

pub and_swap : (a b c : Bool) → (a && (b && c)) ≡ (b && (a && c))
and_swap a b c = ground arith

pub and_both : (a b : Bool) → (a && b) ≡ true → (a ≡ true) × (b ≡ true)
and_both a b h = (ground arith, ground arith)

pub or_assoc : (a b c : Bool) → ((a || b) || c) ≡ (a || (b || c))
or_assoc a b c = ground arith

-- The second test counts only where the first one holds.
pub and_under : (a b c : Bool) → (a ≡ true → b ≡ c) → (a && b) ≡ (a && c)
and_under a b c h = ground arith

pub either_first : (p a b c : Bool) → (p || (a && b)) ≡ true → (p || (a && (b || c))) ≡ true
either_first p a b c h = ground arith

pub either_later :
    (q p a b c : Bool)
    → (q ≡ true → (p || (a && b)) ≡ true)
    → (q || (a && c)) ≡ true
    → (p || (a && (b || c))) ≡ true
either_later q p a b c h k = ground arith
