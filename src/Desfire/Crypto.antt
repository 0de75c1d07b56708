-- ===== src/Desfire/Crypto.antt =====
-- components/desfire/desfire_crypto.c: AES-CMAC and CRC-32.
pub mod Shift
pub mod Crc
pub mod Blocks
use osdp_reader_test_project.Common.{
  ℕ, zero, suc, ◌+◌, ◌-◌, ◌*◌, ◌/◌, ◌%◌, ◌^◌, bit_and, bit_or, bit_xor, Bool, true, false, not,
  ◌&&◌, List, [], ◌∷◌, ◌++◌, length, take, drop, slice, get_or, replicate, ◌==◌, if◌then◌else◌,
}
use osdp_reader_test_project.Common.Bytes.{u8, xor_bytes}
use osdp_reader_test_project.Desfire.State.{Platform, Host}

-- The loop of `left_shift_one`, which runs from the last byte to the first: the bytes after the
-- loop, and the carry out of the first one.
pub shift_loop : List ℕ → List ℕ × ℕ
shift_loop [] = ([], 0)
shift_loop (x ∷ xs) =
    let (ys, carry) = shift_loop xs in
    (u8 (bit_or (x * 2) carry) ∷ ys, if bit_and x 0x80 == 0 then 0 else 1)

pub left_shift_one : List ℕ → List ℕ
left_shift_one xs = (shift_loop xs).0

-- `if (b[0] & 0x80) out[15] ^= Rb;`
pub fold_carry : List ℕ → List ℕ → List ℕ
fold_carry b out =
    if bit_and (get_or b 0 0) 0x80 == 0
    then out
    else take 15 out ++ (bit_xor (get_or out 15 0) 0x87 ∷ [])

-- The number of blocks `n`.
pub block_count : List ℕ → ℕ
block_count msg = if length msg == 0 then 1 else (length msg + 15) / 16

module _ {W : Type 0} (p : Platform W) where
  -- `k1` and `k2`.
  pub cmac_subkeys : List ℕ → List ℕ × List ℕ
  cmac_subkeys key =
      let l = p.aes_ecb key (replicate 16 0) in
      let k1 = fold_carry l (left_shift_one l) in (k1, fold_carry k1 (left_shift_one k1))

  -- `for (i = …; i < n - 1; i++)`: the rounds left, `i`, and `X`.
  pub block_loop : List ℕ → List ℕ → ℕ → ℕ → List ℕ → List ℕ
  block_loop key msg zero i x = x
  block_loop key msg (suc left) i x =
      block_loop key msg left (i + 1) (p.aes_ecb key (xor_bytes x (slice (i * 16) 16 msg)))

  -- `M_last`.
  pub last_block : List ℕ → List ℕ → List ℕ
  last_block key msg =
      let (k1, k2) = cmac_subkeys key in
      let n = block_count msg in
      let rem = length msg - (n - 1) * 16 in
      if not (length msg == 0) && (length msg % 16 == 0)
      then xor_bytes (slice ((n - 1) * 16) 16 msg) k1
      else xor_bytes (slice ((n - 1) * 16) rem msg ++ (0x80 ∷ replicate (15 - rem) 0)) k2

  -- `desfire_cmac` under a given key.
  pub cmac : List ℕ → List ℕ → List ℕ
  cmac key msg =
      let x = block_loop key msg (block_count msg - 1) 0 (replicate 16 0) in
      p.aes_ecb key (xor_bytes x (last_block key msg))

  -- The key is the global `g_session_mac_key_full`.
  unfoldable pub desfire_cmac : Host W → List ℕ → List ℕ
  desfire_cmac h msg = cmac h.mac_key msg

-- One round of the inner loop of `desfire_crc32`; `-(int32_t)(crc & 1)` is 0 or 2 ^ 32 - 1.
pub crc_bit : ℕ → ℕ
crc_bit crc = bit_xor (crc / 2) (bit_and 0xEDB88320 ((2 ^ 32 - bit_and crc 1) % 2 ^ 32))

pub crc_rounds : ℕ → ℕ → ℕ
crc_rounds zero crc = crc
crc_rounds (suc b) crc = crc_rounds b (crc_bit crc)

pub crc_byte : ℕ → ℕ → ℕ
crc_byte crc x = crc_rounds 8 (bit_xor crc x)

pub crc_loop : ℕ → List ℕ → ℕ
crc_loop crc [] = crc
crc_loop crc (x ∷ xs) = crc_loop (crc_byte crc x) xs

pub desfire_crc32 : List ℕ → ℕ
desfire_crc32 xs = crc_loop 0xFFFFFFFF xs
