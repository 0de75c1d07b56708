-- ===== src/Desfire/Crypto/Crc.antt =====
-- components/desfire/desfire_crypto.c: the residue of `desfire_crc32`.
use osdp_reader_test_project.Common.{
  ℕ, zero, suc, ◌+◌, ◌-◌, ◌*◌, ◌/◌, ◌%◌, ◌^◌, ◌<◌, ◌≡◌, refl, ap, ◌∙◌, List, [], ◌∷◌, ◌++◌, arith,
  bit_and, bit_xor,
}
use native.Mathlib.Nat.{pow-suc}
use osdp_reader_test_project.Common.Bits.{
  bit_and-one, bit_and-zero, bit_and-le, bit_xor-zero, bit_xor_clears, bit_xor-lt,
}
use osdp_reader_test_project.Common.Bytes.{u8, le32, IsBytes}
use osdp_reader_test_project.Desfire.Crypto.{crc_bit, crc_rounds, crc_byte, crc_loop, desfire_crc32}

crc_bit_even : (q : ℕ) → crc_bit (q * 2) ≡ q
unfolding crc_bit
crc_bit_even q =
    let low : bit_and (q * 2) 1 ≡ 0 = omega (arith, bit_and-one (q * 2)) in
    let half : q * 2 / 2 ≡ q = omega arith in
    rw low (rw half (rw (bit_and-zero 0xEDB88320) (bit_xor-zero q)))

crc_rounds_shift : (k q : ℕ) → crc_rounds k (q * 2 ^ k) ≡ q
unfolding crc_rounds
crc_rounds_shift zero q = omega arith
crc_rounds_shift (suc k) q =
    let e : q * 2 ^ suc k ≡ q * 2 ^ k * 2 = omega (arith, ap (λ (t : ℕ). q * t) (pow-suc 2 k)) in
    rw e (rw (crc_bit_even (q * 2 ^ k)) (crc_rounds_shift k q))

-- A byte equal to the low byte of the register shifts the register down by a byte.
crc_byte_low : (c : ℕ) → crc_byte c (u8 c) ≡ c / 256
unfolding crc_byte
crc_byte_low c =
    let e : c ≡ c / 256 * 2 ^ 8 + c % 256 = omega arith in
    let clears : bit_xor c (c % 256) ≡ c / 256 * 2 ^ 8 =
      start e ∙ bit_xor_clears 8 (c / 256) (c % 256) (omega arith) in
    rw clears (crc_rounds_shift 8 (c / 256))
  where
    start :
        c ≡ c / 256 * 2 ^ 8 + c % 256
        → bit_xor c (c % 256) ≡ bit_xor (c / 256 * 2 ^ 8 + c % 256) (c % 256)
    start e = ap (λ t. bit_xor t (c % 256)) e

crc_loop_step : (c d x : ℕ) (xs : List ℕ) → crc_byte c x ≡ d → crc_loop c (x ∷ xs) ≡ crc_loop d xs
unfolding crc_loop
crc_loop_step c d x xs e = ap (λ t. crc_loop t xs) e

crc_own_bytes : (c : ℕ) → c < 2 ^ 32 → crc_loop c (le32 c) ≡ 0
crc_own_bytes c h =
    crc_loop_step c (c / 2 ^ 8) _ _ (crc_byte_low c)
    ∙ crc_loop_step (c / 2 ^ 8) (c / 2 ^ 16) _ _ (crc_byte_low (c / 2 ^ 8) ∙ omega arith)
    ∙ crc_loop_step (c / 2 ^ 16) (c / 2 ^ 24) _ _ (crc_byte_low (c / 2 ^ 16) ∙ omega arith)
    ∙ crc_loop_step (c / 2 ^ 24) 0 _ _ (crc_byte_low (c / 2 ^ 24) ∙ omega arith)
    ∙ done
  where
    done : crc_loop 0 [] ≡ 0
    done = unfold crc_loop in refl

crc_loop-append : (c : ℕ) (xs ys : List ℕ) → crc_loop c (xs ++ ys) ≡ crc_loop (crc_loop c xs) ys
unfolding crc_loop
crc_loop-append c [] ys = refl
crc_loop-append c (x ∷ xs) ys = crc_loop-append (crc_byte c x) xs ys

crc_bit-lt : (c : ℕ) → c < 2 ^ 32 → crc_bit c < 2 ^ 32
unfolding crc_bit
crc_bit-lt c h =
    let m = (2 ^ 32 - bit_and c 1) % 2 ^ 32 in
    bit_xor-lt 32 (c / 2) (bit_and 0xEDB88320 m) (omega arith)
      (omega (arith, bit_and-le m 0xEDB88320 m))

crc_rounds-lt : (k c : ℕ) → c < 2 ^ 32 → crc_rounds k c < 2 ^ 32
unfolding crc_rounds
crc_rounds-lt zero c h = h
crc_rounds-lt (suc k) c h = crc_rounds-lt k (crc_bit c) (crc_bit-lt c h)

crc_loop-lt : (c : ℕ) (xs : List ℕ) → c < 2 ^ 32 → IsBytes xs → crc_loop c xs < 2 ^ 32
unfolding crc_loop crc_byte
crc_loop-lt c [] h b = h
crc_loop-lt c (x ∷ xs) h b =
    crc_loop-lt (crc_rounds 8 (bit_xor c x)) xs
      (crc_rounds-lt 8 (bit_xor c x) (bit_xor-lt 32 c x h (omega arith))) b.1

-- The checksum of bytes is a `uint32_t`, and the checksum of the bytes followed by their own
-- checksum, lowest byte first, is 0.
pub crc32_residue :
    (xs : List ℕ)
    → IsBytes xs
    → (desfire_crc32 xs < 2 ^ 32) × (desfire_crc32 (xs ++ le32 (desfire_crc32 xs)) ≡ 0)
unfolding desfire_crc32
crc32_residue xs b =
    let small = crc_loop-lt 0xFFFFFFFF xs (omega arith) b in
    (
      small,
      crc_loop-append 0xFFFFFFFF xs (le32 (crc_loop 0xFFFFFFFF xs))
          ∙ crc_own_bytes (crc_loop 0xFFFFFFFF xs) small,
    )
