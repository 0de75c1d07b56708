-- ===== src/Common/Bits.antt =====
-- Laws of `bit_and`, `bit_or` and `bit_xor` at variables, from the digit recursion that the native
-- operations stand for.
use Prim.Native.Nat.{
  ℕ, zero, suc, ◌+◌, ◌-◌, ◌*◌, ◌/◌, ◌%◌, ◌≤◌, ◌<◌, ◌^◌, bit_and, bit_or, bit_xor, digits, bitwise,
  bit_or-bitwise, bit_xor-bitwise, bit_and-bitwise, min, max, differ,
}
use mathlib.Core.Path.{◌≡◌, refl, ap, ◌∙◌}
use mathlib.Core.Bool.{Bool, true, ◌&&◌}
use native.Mathlib.Nat.{pow-suc}
use native.Mathlib.Omega.{arith}

-- Induction that goes from a number to its half.
module _ (P : ℕ → Type 0) (base : P 0) (step : (a : ℕ) → 0 < a → P (a / 2) → P a) where
  below : (bound a : ℕ) → a ≤ bound → P a
  below bound zero small = base
  below zero (suc a) small = absurd (omega arith)
  below (suc bound) (suc a) small =
      step (suc a) (omega arith) (below bound (suc a / 2) (omega arith))

  by_halves : (a : ℕ) → P a
  by_halves a = below a a (omega arith)

-- The digit recursion runs on fuel; fuel that is at least the left operand can be any.
module _ (on_zero : ℕ → ℕ) (op : ℕ → ℕ → ℕ) where
  one_more :
      (fuel a b : ℕ) → a ≤ fuel → digits on_zero op (suc fuel) a b ≡ digits on_zero op fuel a b
  one_more zero zero b enough = refl
  one_more (suc fuel) zero b enough = refl
  one_more zero (suc a) b enough = absurd (omega arith)
  one_more (suc fuel) (suc a) b enough =
      ap (λ (rest : ℕ). rest * 2 + op (suc a % 2) (b % 2))
        (one_more fuel (suc a / 2) (b / 2) (omega arith))

  more_fuel :
      (spare fuel a b : ℕ)
      → a ≤ fuel
      → digits on_zero op (spare + fuel) a b ≡ digits on_zero op fuel a b
  more_fuel zero fuel a b enough =
      ap (λ n. digits on_zero op n a b) (let e : 0 + fuel ≡ fuel = omega arith in e)
  more_fuel (suc spare) fuel a b enough =
      ap (λ n. digits on_zero op n a b)
        (let e : suc spare + fuel ≡ suc (spare + fuel) = omega arith in e)
      ∙ one_more (spare + fuel) a b (omega arith)
      ∙ more_fuel spare fuel a b enough

  digit :
      (a b : ℕ)
      → bitwise on_zero op (suc a) b
        ≡ bitwise on_zero op (suc a / 2) (b / 2) * 2 + op (suc a % 2) (b % 2)
  digit a b =
      let spare = a - suc a / 2 in
      let sum : a ≡ spare + suc a / 2 = omega arith in
      ap (λ (rest : ℕ). rest * 2 + op (suc a % 2) (b % 2))
        (ap (λ n. digits on_zero op n (suc a / 2) (b / 2)) sum
          ∙ more_fuel spare (suc a / 2) (suc a / 2) (b / 2) (omega arith))

pub bit_or_halves : (a b : ℕ) → bit_or a b ≡ bit_or (a / 2) (b / 2) * 2 + max (a % 2) (b % 2)
bit_or_halves zero b = simp bit_or-bitwise (omega arith)
bit_or_halves (suc a) b = simp bit_or-bitwise (digit (λ y. y) max a b)

pub bit_and_halves : (a b : ℕ) → bit_and a b ≡ bit_and (a / 2) (b / 2) * 2 + min (a % 2) (b % 2)
bit_and_halves zero b = simp bit_and-bitwise (omega arith)
bit_and_halves (suc a) b = simp bit_and-bitwise (digit (λ y. 0) min a b)

differ-zero : (a : ℕ) → differ a 0 ≡ a
differ-zero zero = refl
differ-zero (suc a) = refl

differ-le-max : (a b : ℕ) → differ a b ≤ max a b
differ-le-max zero b = omega arith
differ-le-max (suc a) zero = omega arith
differ-le-max (suc a) (suc b) = omega (arith, differ-le-max a b)

differ_self : (a : ℕ) → differ a a ≡ 0
differ_self zero = refl
differ_self (suc a) = differ_self a

pub bit_xor_halves : (a b : ℕ) → bit_xor a b ≡ bit_xor (a / 2) (b / 2) * 2 + differ (a % 2) (b % 2)
bit_xor_halves zero b = simp bit_xor-bitwise (omega arith)
bit_xor_halves (suc a) b = simp bit_xor-bitwise (digit (λ y. y) differ a b)

pub bit_xor-zero : (a : ℕ) → bit_xor a 0 ≡ a
bit_xor-zero =
    by_halves (λ a. bit_xor a 0 ≡ a) refl
      λ a some_digit half. omega (arith, bit_xor_halves a 0, half, differ-zero (a % 2))

pub bit_and-zero : (a : ℕ) → bit_and a 0 ≡ 0
bit_and-zero =
    by_halves (λ a. bit_and a 0 ≡ 0) refl
      λ a some_digit half. omega (arith, bit_and_halves a 0, half)

pub bit_and-one : (a : ℕ) → bit_and a 1 ≡ a % 2
bit_and-one a = omega (bit_and_halves a 1, bit_and-zero (a / 2), arith)

zero-bit_or : (b : ℕ) → bit_or 0 b ≡ b
zero-bit_or b = bit_or-bitwise 0 b

-- A left operand below 2 ^ k and a right one shifted by k have no bit in common.
pub bit_or-shift : (k a b : ℕ) → a < 2 ^ k → bit_or a (b * 2 ^ k) ≡ a + b * 2 ^ k
bit_or-shift zero zero b h = omega (arith, zero-bit_or (b * 1))
bit_or-shift zero (suc a) b h = absurd (omega arith)
bit_or-shift (suc k) a b h =
    let p : b * 2 ^ suc k ≡ b * 2 ^ k * 2 = omega (arith, ap (λ (t : ℕ). b * t) (pow-suc 2 k)) in
    rw p (
      omega (
        arith,
        bit_or_halves a (b * 2 ^ k * 2),
        bit_or-shift k (a / 2) b (omega (arith, pow-suc 2 k)),
        half (b * 2 ^ k),
      ))
  where
    half : (t : ℕ) → bit_or (a / 2) (t * 2 / 2) ≡ bit_or (a / 2) t
    half t = let e : t * 2 / 2 ≡ t = omega arith in rw e

-- XOR by its own low bits clears them.
pub bit_xor_clears : (k q b : ℕ) → b < 2 ^ k → bit_xor (q * 2 ^ k + b) b ≡ q * 2 ^ k
bit_xor_clears zero q zero h = bit_xor-zero (q * 1 + 0) ∙ (omega arith)
bit_xor_clears zero q (suc b) h = absurd (omega arith)
bit_xor_clears (suc k) q b h =
    let p : q * 2 ^ suc k ≡ q * 2 ^ k * 2 = omega (arith, ap (λ (t : ℕ). q * t) (pow-suc 2 k)) in
    rw p (
      omega (
        arith,
        bit_xor_halves (q * 2 ^ k * 2 + b) b,
        bit_xor_clears k q (b / 2) (omega (arith, pow-suc 2 k)),
        half (q * 2 ^ k),
        low (q * 2 ^ k),
      ))
  where
    half : (t : ℕ) → bit_xor ((t * 2 + b) / 2) (b / 2) ≡ bit_xor (t + b / 2) (b / 2)
    half t = let e : (t * 2 + b) / 2 ≡ t + b / 2 = omega arith in rw e

    low : (t : ℕ) → differ ((t * 2 + b) % 2) (b % 2) ≡ 0
    low t = let e : (t * 2 + b) % 2 ≡ b % 2 = omega arith in rw e (differ_self (b % 2))

pub bit_xor-lt : (k a b : ℕ) → a < 2 ^ k → b < 2 ^ k → bit_xor a b < 2 ^ k
bit_xor-lt zero zero zero h g = omega arith
bit_xor-lt zero zero (suc b) h g = absurd (omega arith)
bit_xor-lt zero (suc a) b h g = absurd (omega arith)
bit_xor-lt (suc k) a b h g = omega (
  arith,
  bit_xor_halves a b,
  differ-le-max (a % 2) (b % 2),
  bit_xor-lt k (a / 2) (b / 2) (omega (arith, pow-suc 2 k)) (omega (arith, pow-suc 2 k)),
  pow-suc 2 k,
)

pub bit_and-le : (n a b : ℕ) → b ≤ n → bit_and a b ≤ b
bit_and-le n a zero h = omega (arith, bit_and-zero a)
bit_and-le zero a (suc b) h = absurd (omega arith)
bit_and-le (suc n) a (suc b) h =
    omega (arith, bit_and_halves a (suc b), bit_and-le n (a / 2) (suc b / 2) (omega arith))

-- A test that holds of every number below a bound, by running it on each of them.
unfoldable pub holds_below : (ℕ → Bool) → ℕ → Bool
holds_below test zero = true
holds_below test (suc bound) = holds_below test bound && test bound

pub holds_below_lem :
    (test : ℕ → Bool) (bound : ℕ)
    → holds_below test bound ≡ true
    → (x : ℕ) → x < bound
    → test x ≡ true
unfolding holds_below
holds_below_lem test zero run x small = absurd (omega arith)
holds_below_lem test (suc bound) run x small = grind (arith, holds_below_lem test bound)
