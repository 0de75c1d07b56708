-- ===== src/Desfire/Crypto/Shift.antt =====
-- components/desfire/desfire_crypto.c: `left_shift_one` against the number that the bytes stand for.
use osdp_reader_test_project.Common.{
  ℕ, zero, suc, ◌+◌, ◌*◌, ◌/◌, ◌%◌, ◌^◌, ◌<◌, ◌≡◌, refl, ap, true, List, [], ◌∷◌, length, arith,
  bit_and, bit_or, ◌==◌, if◌then◌else◌, ◌&&◌,
}
use native.Mathlib.Nat.{pow-suc}
use osdp_reader_test_project.Common.Bits.{holds_below, holds_below_lem}
use osdp_reader_test_project.Common.Bytes.{u8, IsByte, IsBytes}
use osdp_reader_test_project.Desfire.Crypto.{shift_loop, left_shift_one}

-- The number that big-endian bytes stand for.
pub big_endian : List ℕ → ℕ
big_endian [] = 0
big_endian (x ∷ xs) = x * 256 ^ length xs + big_endian xs

shift_byte_table :
    holds_below
      (λ x.
        (u8 (bit_or (x * 2) 0) == (x * 2) % 256)
        && ((u8 (bit_or (x * 2) 1) == (x * 2) % 256 + 1)
            && ((if bit_and x 0x80 == 0 then 0 else 1) == x / 128)))
      256
    ≡ true
unfolding holds_below
shift_byte_table = refl

shift_byte :
    (x c : ℕ)
    → IsByte x
    → c < 2
    → (u8 (bit_or (x * 2) c) ≡ (x * 2) % 256 + c)
      × ((if bit_and x 0x80 == 0 then 0 else 1) ≡ x / 128)
shift_byte x zero h l = ground (arith, holds_below_lem _ 256 shift_byte_table x h)
shift_byte x (suc zero) h l = ground (arith, holds_below_lem _ 256 shift_byte_table x h)
shift_byte x (suc (suc c)) h l = absurd (omega arith)

regroup :
    (t u c n y z x : ℕ)
    → t * 256 + u ≡ 2 * x
    → c * n + y ≡ 2 * z
    → t * (n * 256) + ((u + c) * n + y) ≡ 2 * (x * n + z)
regroup t u c n y z x e f = omega (arith, ap (λ (k : ℕ). k * n) e)

record Doubled (xs : List ℕ) (out : List ℕ × ℕ) : Type 0 where
  same_length : length out.0 ≡ length xs
  bit : out.1 < 2
  value : out.1 * 256 ^ length xs + big_endian out.0 ≡ 2 * big_endian xs

-- The bytes and the carry of the loop hold twice the number.
shift_loop-Doubled : (xs : List ℕ) → IsBytes xs → Doubled xs (shift_loop xs)
unfolding shift_loop big_endian
shift_loop-Doubled [] h = omega arith
shift_loop-Doubled (x ∷ xs) h =
    let d = shift_loop-Doubled xs h.1 in
    let b = shift_byte x (shift_loop xs).1 h.0 d.bit in
    record {
      same_length = ap suc d.same_length;
      bit = rw b.1 (omega arith);
      value = rw b.1 (
          rw b.0 (
            rw d.same_length (
              rw (pow-suc 256 (length xs)) (
                regroup (x / 128) (x * 2 % 256) (shift_loop xs).1 (256 ^ length xs)
                  (big_endian (shift_loop xs).0) (big_endian xs) x (omega arith) d.value))));
    }

big_endian-lt : (xs : List ℕ) → IsBytes xs → big_endian xs < 256 ^ length xs
unfolding big_endian
big_endian-lt [] h = omega arith
big_endian-lt (x ∷ xs) h =
    rw (pow-suc 256 (length xs))
      (bound (256 ^ length xs) x (big_endian xs) h.0 (big_endian-lt xs h.1))
  where
    bound : (n x b : ℕ) → x < 256 → b < n → x * n + b < n * 256
    bound n x b p q = grind arith

-- The shifted bytes are bytes again.
shift_loop-IsBytes : (xs : List ℕ) → IsBytes (shift_loop xs).0
unfolding shift_loop
shift_loop-IsBytes [] = tt
shift_loop-IsBytes (x ∷ xs) = (omega arith, shift_loop-IsBytes xs)

-- `left_shift_one` keeps the number of bytes, and doubles the big-endian number that they stand
-- for, modulo 2 ^ (8 * length).
pub left_shift_one_doubles :
    (xs : List ℕ)
    → IsBytes xs
    → (length (left_shift_one xs) ≡ length xs)
      × (big_endian (left_shift_one xs) ≡ 2 * big_endian xs % 256 ^ length xs)
unfolding left_shift_one
left_shift_one_doubles xs h =
    let d = shift_loop-Doubled xs h in
    let small = big_endian-lt (shift_loop xs).0 (shift_loop-IsBytes xs) in
    (
      d.same_length,
      wrap (shift_loop xs).1 (256 ^ length xs) (big_endian (shift_loop xs).0) (big_endian xs)
          (rw d.same_length at small) d.bit d.value,
    )
  where
    wrap : (c n y z : ℕ) → y < n → c < 2 → c * n + y ≡ 2 * z → y ≡ 2 * z % n
    wrap c n y z l b e = grind arith
