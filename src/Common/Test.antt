-- ===== src/Common/Test.antt =====
-- Boolean tests on the native numbers and on byte strings, and the conditional.
use Prim.Native.Nat.{ℕ, ◌≤◌, ◌<◌, compare, Ordering}
use mathlib.Core.Path.{◌≡◌, refl}
use mathlib.Core.Logic.{◌↔◌, ◌⊎◌, inl, inr}
use mathlib.Core.Bool.{Bool, true, false, ◌&&◌}
use mathlib.Core.Option.{Option, none, some}
use mathlib.Core.List.{List, [], ◌∷◌}
use native.Mathlib.Omega.{arith}

abbrev pub ltb : ℕ → ℕ → Bool
ltb a b = elim (compare a b) [ Ordering.lt ↦ true | _ ↦ false ]

abbrev pub leb : ℕ → ℕ → Bool
leb a b = elim (compare a b) [ Ordering.gt ↦ false | _ ↦ true ]

infix 50 ◌==◌
abbrev pub ◌==◌ : ℕ → ℕ → Bool
a == b = elim (compare a b) [ Ordering.eq ↦ true | _ ↦ false ]

infix 1 if◌then◌else◌
abbrev pub if◌then◌else◌ {ℓ} : {A : Type ℓ} → Bool → A → A → A
if true then x else y = x
if false then x else y = y

pub ltb→lt : (a b : ℕ) → ltb a b ≡ true → a < b
ltb→lt a b h = ground arith

pub lt→ltb : (a b : ℕ) → a < b → ltb a b ≡ true
lt→ltb a b h = ground arith

pub leb→le : (a b : ℕ) → leb a b ≡ true → a ≤ b
leb→le a b h = ground arith

pub ==_iff : (a b : ℕ) → ((a == b) ≡ true) ↔ (a ≡ b)
==_iff a b = ground arith

pub ruleset tests = (arith, ltb→lt, lt→ltb, leb→le)

pub Bool-cases : (b : Bool) → (b ≡ true) ⊎ (b ≡ false)
Bool-cases true = inl refl
Bool-cases false = inr refl

pub Option-cases {ℓ} : {A : Type ℓ} (o : Option A) → (o ≡ none) ⊎ ((a : A) × (o ≡ some a))
Option-cases none = inl refl
Option-cases (some a) = inr (a, refl)

-- `memcmp(a, b, n) == 0` on byte strings.
unfoldable pub mem_eq : List ℕ → List ℕ → Bool
mem_eq [] [] = true
mem_eq [] (y ∷ ys) = false
mem_eq (x ∷ xs) [] = false
mem_eq (x ∷ xs) (y ∷ ys) = x == y && mem_eq xs ys

pub mem_eq_refl : (xs : List ℕ) → mem_eq xs xs ≡ true
unfolding mem_eq
mem_eq_refl [] = refl
mem_eq_refl (x ∷ xs) = ground (arith, mem_eq_refl xs)

pub mem_eq→eq : (xs ys : List ℕ) → mem_eq xs ys ≡ true → xs ≡ ys
unfolding mem_eq
mem_eq→eq [] [] h = refl
mem_eq→eq [] (y ∷ ys) h = ground arith
mem_eq→eq (x ∷ xs) [] h = ground arith
mem_eq→eq (x ∷ xs) (y ∷ ys) h = ground (arith, mem_eq→eq xs ys)
