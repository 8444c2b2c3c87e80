-- ===== src/Prelude/Lists.antt =====
-- Lists measured by native numbers, and Boolean filters, under the library's names.
use Prim.Native.Nat.{ℕ, suc, ◌+◌}
use mathlib.Core.Path.{◌≡◌, refl, sym, subst}
use mathlib.Core.Bool.{Bool, true}
use mathlib.Core.Option.{Option, none, some}
use mathlib.Core.Logic.{◌⊎◌, inl, inr, ◌↔◌}
use mathlib.Core.List.{List, [], ◌∷◌, ◌++◌}
use native.Mathlib.Omega.{arith}
use binfinity_addon_sdk.Prelude.Tests.{Bool-cases, if◌then◌else◌}

module _ {ℓ} {A : Type ℓ} where
  abbrev pub length : List A → ℕ
  length [] = 0
  length (x ∷ xs) = suc (length xs)

  abbrev pub filter : (A → Bool) → List A → List A
  filter p [] = []
  filter p (x ∷ xs) = let rest = filter p xs in if p x then x ∷ rest else rest

  pub length-append : (xs ys : List A) → length (xs ++ ys) ≡ length xs + length ys
  length-append [] ys = omega arith
  length-append (x ∷ xs) ys = omega (arith, length-append xs ys)

  -- Every item of the list meets the predicate.
  abbrev pub All {κ} : (A → Type κ) → List A → Type κ
  All P [] = Unit
  All P (x ∷ xs) = P x × All P xs

-- The item stands in the list.
abbrev pub In : {A : Type 0} → A → List A → Type 0
In a [] = ⊥
In a (x ∷ xs) = (a ≡ x) ⊎ In a xs

pub All-of_In : {A : Type 0} {P : A → Type 0} (xs : List A) → ((a : A) → In a xs → P a) → All P xs
All-of_In [] h = tt
All-of_In (x ∷ xs) h = (h x (inl refl), All-of_In xs (λ a m. h a (inr m)))

pub In-filter :
    {A : Type 0} (a : A) (p : A → Bool) (xs : List A)
    → In a (filter p xs) ↔ (In a xs × (p a ≡ true))
In-filter a p [] = (λ h. absurd h, λ h. absurd h.0)
In-filter a p (x ∷ xs) = (
  λ h. elim (Bool-cases (p x)) [
    | inl e ↦ elim (let m : (a ≡ x) ⊎ In a (filter p xs) = rw e at h in m) [
      | inl q ↦ (inl q, rw q e)
      | inr m ↦ (inr ((In-filter a p xs).0 m).0, ((In-filter a p xs).0 m).1)
    ]
    | inr e ↦
        let m : In a (filter p xs) = rw e at h in
        (inr ((In-filter a p xs).0 m).0, ((In-filter a p xs).0 m).1)
  ],
  λ h. elim (h.0) [
    | inl q ↦ rw (← q) (rw h.1 (inl refl))
    | inr m ↦ elim (Bool-cases (p x)) [
      | inl e ↦ rw e (inr ((In-filter a p xs).1 (m, h.1)))
      | inr e ↦ rw e ((In-filter a p xs).1 (m, h.1))
    ]
  ],
)

pub nil_of_not_In : {A : Type 0} (xs : List A) → ((a : A) → In a xs → ⊥) → xs ≡ []
nil_of_not_In [] h = refl
nil_of_not_In (x ∷ xs) h = absurd (h x (inl refl))

pub nil_of_length : {A : Type 0} (xs : List A) → length xs ≡ 0 → xs ≡ []
nil_of_length [] e = refl
nil_of_length (x ∷ xs) e = absurd (omega arith)

pub In-All : {A : Type 0} (P : A → Type 0) (a : A) (xs : List A) → In a xs → All P xs → P a
In-All P a [] m h = absurd m
In-All P a (x ∷ xs) (inl e) h = subst P (sym e) h.0
In-All P a (x ∷ xs) (inr m) h = In-All P a xs m h.1

-- A step after one that may fail.
abbrev pub and_then {ℓ κ} : {A : Type ℓ} {B : Type κ} → Option A → (A → Option B) → Option B
and_then none f = none
and_then (some a) f = f a
