-- ===== src/Desfire/Crypto/Blocks.antt =====
-- components/desfire/desfire_crypto.c: `desfire_cmac` against CMAC over a list of blocks.
use osdp_reader_test_project.Common.{
  ℕ, ◌+◌, ◌-◌, ◌*◌, ◌%◌, ◌≤◌, ◌≡◌, refl, sym, ap, ap₂, ◌∙◌, ◌⊎◌, inl, inr, List, [], ◌∷◌, ◌++◌,
  length, length-append, take, drop, slice, replicate, take-append_left, drop-append_left,
  drop-drop, append_assoc, arith, ◌==◌, if◌then◌else◌, take_all, not, ◌&&◌,
}
use osdp_reader_test_project.Common.Bytes.{All, xor_bytes}
use osdp_reader_test_project.Desfire.State.{Platform}
use osdp_reader_test_project.Desfire.Crypto.{
  cmac_subkeys, block_loop, block_count, last_block, cmac,
}

abbrev pub IsBlock : List ℕ → Type 0
IsBlock b = length b ≡ 16

pub join : List (List ℕ) → List ℕ
join [] = []
join (b ∷ bs) = b ++ join bs

-- A last block of 1 to 16 bytes; the empty one ends the empty message only.
abbrev pub IsLast : List (List ℕ) → List ℕ → Type 0
IsLast bs rest = (length rest ≤ 16) × ((1 ≤ length rest) ⊎ (bs ≡ []))

length-join : (bs : List (List ℕ)) → All IsBlock bs → length (join bs) ≡ length bs * 16
unfolding join
length-join [] h = omega arith
length-join (b ∷ bs) h = omega (arith, length-append b (join bs), length-join bs h.1)

length-message :
    (bs : List (List ℕ)) (rest : List ℕ)
    → All IsBlock bs
    → length (join bs ++ rest) ≡ length bs * 16 + length rest
length-message bs rest h = omega (arith, length-append (join bs) rest, length-join bs h)

no_blocks : (bs : List (List ℕ)) → bs ≡ [] → length bs ≡ 0
no_blocks bs e = rw e

block_count_lem :
    (bs : List (List ℕ)) (rest : List ℕ)
    → All IsBlock bs
    → IsLast bs rest
    → block_count (join bs ++ rest) - 1 ≡ length bs
unfolding block_count
block_count_lem bs rest h (small, inl some_byte) = rw (length-message bs rest h) (ground arith)
block_count_lem bs rest h (small, inr none_left) =
    rw (length-message bs rest h) (ground (arith, no_blocks bs none_left))

blocks_or :
    (bs : List (List ℕ)) (rest : List ℕ) → IsLast bs rest → (1 ≤ length rest) ⊎ (length bs ≡ 0)
blocks_or bs rest (small, inl some_byte) = inl some_byte
blocks_or bs rest (small, inr none_left) = inr (no_blocks bs none_left)

complete_iff :
    (n r : ℕ)
    → r ≤ 16
    → (1 ≤ r) ⊎ (n ≡ 0)
    → (not (n * 16 + r == 0) && ((n * 16 + r) % 16 == 0)) ≡ (r == 16)
complete_iff n r h l = ground arith

module _ {W : Type 0} (p : Platform W) where
  -- NIST SP 800-38B over given blocks: C_i = E(C_{i-1} xor M_i), and the last block is mixed with
  -- the first subkey if it is complete, and padded by 1000… and mixed with the second if not.
  pub chain : List ℕ → List ℕ → List (List ℕ) → List ℕ
  chain key x [] = x
  chain key x (b ∷ bs) = chain key (p.aes_ecb key (xor_bytes x b)) bs

  pub mixed_last : List ℕ → List ℕ → List ℕ
  mixed_last key rest =
      if length rest == 16
      then xor_bytes rest (cmac_subkeys p key).0
      else xor_bytes (rest ++ (0x80 ∷ replicate (15 - length rest) 0)) (cmac_subkeys p key).1

  pub cmac_of_blocks : List ℕ → List (List ℕ) → List ℕ → List ℕ
  cmac_of_blocks key bs rest =
      p.aes_ecb key (xor_bytes (chain key (replicate 16 0) bs) (mixed_last key rest))

  block_loop-chain :
      (key msg : List ℕ) (bs : List (List ℕ)) (rest : List ℕ) (i : ℕ) (x : List ℕ)
      → All IsBlock bs
      → drop (i * 16) msg ≡ join bs ++ rest
      → block_loop p key msg (length bs) i x ≡ chain key x bs
  unfolding block_loop chain join
  block_loop-chain key msg [] rest i x h e = refl
  block_loop-chain key msg (b ∷ bs) rest i x h e =
      let split : drop (i * 16) msg ≡ b ++ (join bs ++ rest) = e ∙ append_assoc b (join bs) rest in
      let first : slice (i * 16) 16 msg ≡ b =
        ap (λ t. take 16 t) split ∙ take-append_left 16 b (join bs ++ rest) h.0 in
      let later : drop ((i + 1) * 16) msg ≡ join bs ++ rest =
        ap (λ k. drop k msg) (let q : (i + 1) * 16 ≡ i * 16 + 16 = omega arith in q)
        ∙ sym (drop-drop 16 (i * 16) msg)
        ∙ ap (λ t. drop 16 t) split
        ∙ drop-append_left 16 b (join bs ++ rest) h.0 in
      ap (λ t. block_loop p key msg (length bs) (i + 1) (p.aes_ecb key (xor_bytes x t))) first
      ∙ block_loop-chain key msg bs rest (i + 1) (p.aes_ecb key (xor_bytes x b)) h.1 later

  last_block_lem :
      (key : List ℕ) (bs : List (List ℕ)) (rest : List ℕ)
      → All IsBlock bs
      → IsLast bs rest
      → last_block p key (join bs ++ rest) ≡ mixed_last key rest
  unfolding last_block mixed_last
  last_block_lem key bs rest h l =
      let off = block_count (join bs ++ rest) - 1 in
      let count = block_count_lem bs rest h l in
      let size = length-message bs rest h in
      let tail_of : drop (length bs * 16) (join bs ++ rest) ≡ rest =
        drop-append_left (length bs * 16) (join bs) rest (length-join bs h) in
      let rem : length bs * 16 + length rest - length bs * 16 ≡ length rest = omega arith in
      rw count (
        rw tail_of (
          rw size (
            rw rem (
              rw (take_all 16 rest l.0) (
                rw (take_all (length rest) rest (omega arith))
                  (rw (complete_iff (length bs) (length rest) l.0 (blocks_or bs rest l)) refl))))))

  -- For every message, given as complete blocks and a last one of 1 to 16 bytes (or no byte, for
  -- the empty message), the indexed loop computes CMAC of those blocks.
  pub cmac-eq-cmac_of_blocks :
      (key : List ℕ) (bs : List (List ℕ)) (rest : List ℕ)
      → All IsBlock bs
      → IsLast bs rest
      → cmac p key (join bs ++ rest) ≡ cmac_of_blocks key bs rest
  unfolding cmac cmac_of_blocks
  cmac-eq-cmac_of_blocks key bs rest h l =
      ap₂ (λ x y. p.aes_ecb key (xor_bytes x y))
        (ap (λ n. block_loop p key (join bs ++ rest) n 0 (replicate 16 0))
            (block_count_lem bs rest h l)
          ∙ block_loop-chain key (join bs ++ rest) bs rest 0 (replicate 16 0) h refl)
        (last_block_lem key bs rest h l)
