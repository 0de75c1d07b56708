-- ===== src/Desfire/Secure/Padding.antt =====
-- components/desfire/desfire_enc.c: `pad_to_block` and the plaintext of ChangeKey.
use osdp_reader_test_project.Common.{
  ℕ, ◌+◌, ◌-◌, ◌%◌, ◌≤◌, ◌<◌, ◌≡◌, refl, Bool, true, false, List, [], ◌∷◌, ◌++◌, length, take,
  replicate, length-append, length-replicate, take_all, take-append_left, ltb, ltb→lt, ◌==◌, ==_iff,
  arith, if◌then◌else◌,
}
use osdp_reader_test_project.Common.Bytes.{length-xor_bytes, le32, xor_bytes}
use osdp_reader_test_project.Desfire.Post.{if_cases}
use osdp_reader_test_project.Desfire.Crypto.{desfire_crc32}
use osdp_reader_test_project.Desfire.Secure.{pad_to_block, change_key_plain, cmd_change_key}

abbrev IsPadded : List ℕ → List ℕ → Type 0
IsPadded xs ys = (length ys % 16 ≡ 0) × (take (length xs) ys ≡ xs) × (length ys < length xs + 16)

uneven : (x : ℕ) → (x == 0) ≡ false → 0 < x
uneven x e = ground arith

length-padding :
    (xs : List ℕ) (k : ℕ) → 0 < k → length (xs ++ (0x80 ∷ replicate (k - 1) 0)) ≡ length xs + k
length-padding xs k p =
    let r : length {A = ℕ} (replicate (k - 1) 0) ≡ k - 1 = length-replicate (k - 1) 0x00 in
    omega (arith, length-append xs (0x80 ∷ replicate (k - 1) 0), r, p)

-- With room for the padding, the padded plaintext is whole blocks of 16 bytes, starts with the
-- plaintext, and is less than one block longer.
pub pad_to_block-IsPadded :
    (xs : List ℕ) (n : ℕ)
    → length xs + 15 ≤ n
    → (length (pad_to_block xs n) % 16 ≡ 0)
      × (take (length xs) (pad_to_block xs n) ≡ xs)
      × (length (pad_to_block xs n) < length xs + 16)
unfolding pad_to_block
pad_to_block-IsPadded xs n room =
    if_cases (IsPadded xs) (length xs % 16 == 0)
      (λ q.
        let e = (==_iff (length xs % 16) 0).0 q in
        (e, take_all (length xs) xs (omega arith), omega arith))
      λ e.
        if_cases (IsPadded xs) (ltb n (length xs + (16 - length xs % 16)))
          (λ b. absurd (omega (arith, ltb→lt _ _ b, room, uneven _ e)))
          λ _.
            let size = length-padding xs (16 - length xs % 16) (omega arith) in
            (
              omega (arith, size, uneven _ e),
              take-append_left (length xs) xs _ refl,
              omega (arith, size, uneven _ e),
            )

length-padded :
    (aligned full : Bool) (xs ys : List ℕ)
    → (aligned ≡ true → length xs ≡ 32)
    → (aligned ≡ false → full ≡ false)
    → (aligned ≡ false → length ys ≡ 32)
    → length (if aligned then xs else if full then [] else ys) ≡ 32
length-padded true full xs ys a b c = a refl
length-padded false full xs ys a b c = rw (b refl) (c refl)

two_blocks : (xs : List ℕ) → 16 < length xs → length xs ≤ 32 → length (pad_to_block xs 32) ≡ 32
unfolding pad_to_block
two_blocks xs lo hi =
    let pad = 16 - length xs % 16 in
    let cut : 0 < length xs % 16 → ltb 32 (length xs + pad) ≡ false =
      λ z. ground (arith, z, lo, hi) in
    let whole : length xs % 16 ≡ 0 → length xs ≡ 32 = λ z. omega (arith, z, lo, hi) in
    let long : 0 < length xs % 16 → length (xs ++ (0x80 ∷ replicate (pad - 1) 0)) ≡ 32 =
      λ z. omega (arith, length-padding xs pad (omega arith), z, lo, hi) in
    length-padded (length xs % 16 == 0) (ltb 32 (length xs + pad)) xs
      (xs ++ (0x80 ∷ replicate (pad - 1) 0)) (λ q. whole ((==_iff (length xs % 16) 0).0 q))
      (λ q. cut (uneven _ q)) (λ q. long (uneven _ q))

-- For keys of 16 bytes the padded plaintext of ChangeKey is two blocks, whichever key is changed:
-- the buffer of 32 bytes is enough, and the size check of `desfire_change_key` never fails.
pub length-change_key_plain :
    (same_key : Bool) (key_no version : ℕ) (old_key new_key : List ℕ)
    → length old_key ≡ 16
    → length new_key ≡ 16
    → length (pad_to_block (change_key_plain same_key key_no old_key new_key version) 32) ≡ 32
unfolding change_key_plain
length-change_key_plain true key_no version old_key new_key o n =
    let tail =
      version ∷ le32 (desfire_crc32 (cmd_change_key ∷ key_no ∷ (new_key ++ (version ∷ [])))) in
    let size = length-append new_key tail in
    two_blocks (new_key ++ tail) (omega (arith, size, n)) (omega (arith, size, n))
length-change_key_plain false key_no version old_key new_key o n =
    let mixed = xor_bytes new_key old_key in
    let crcs =
      le32 (desfire_crc32 (cmd_change_key ∷ key_no ∷ (mixed ++ (version ∷ []))))
      ++ le32 (desfire_crc32 new_key) in
    let size = length-append mixed (version ∷ crcs) in
    let both = length-xor_bytes new_key old_key in
    two_blocks (mixed ++ (version ∷ crcs)) (omega (arith, size, both, n, o))
      (omega (arith, size, both, n, o))
