-- ===== src/Desfire/Secure/Payload.antt =====
-- components/desfire/desfire_enc.c: the checks on a decrypted response.
use osdp_reader_test_project.Common.{
  ℕ, ◌+◌, ◌/◌, ◌^◌, ◌≤◌, ◌<◌, ◌≡◌, refl, ap, sym, ◌∙◌, List, ◌∷◌, ◌++◌, length, take, get_or,
  take-append_left, arith,
}
use osdp_reader_test_project.Common.Bytes.{u8, le32, from_le32, from_le32_lem, IsBytes}
use osdp_reader_test_project.Esp.{ok}
use osdp_reader_test_project.Desfire.Crypto.{desfire_crc32}
use osdp_reader_test_project.Desfire.Crypto.Crc.{crc32_residue}
use osdp_reader_test_project.Desfire.Transport.Exchange.{get_or-append}
use osdp_reader_test_project.Desfire.Secure.{open_payload}

u32_back :
    (x : ℕ) → x < 2 ^ 32 → from_le32 (u8 x) (u8 (x / 2 ^ 8)) (u8 (x / 2 ^ 16)) (u8 (x / 2 ^ 24)) ≡ x
u32_back x h = omega (
  arith,
  from_le32_lem (u8 x) (u8 (x / 2 ^ 8)) (u8 (x / 2 ^ 16)) (u8 (x / 2 ^ 24)) (omega arith)
      (omega arith) (omega arith),
)

byte_at : (xs ys : List ℕ) (i v : ℕ) → get_or ys i 0 ≡ v → get_or (xs ++ ys) (length xs + i) 0 ≡ v
byte_at xs ys i v e = get_or-append xs ys i 0 ∙ e

-- What the card sends for a payload, the payload, its checksum over the status 0, and any
-- padding, is opened to that payload, with the status 0.
pub open_payload-sealed :
    (payload padding : List ℕ) (cipher_len : ℕ)
    → IsBytes payload
    → length payload ≤ 256
    → length payload + 4 ≤ cipher_len
    → open_payload
        (length payload)
        cipher_len
        (payload ++ (le32 (desfire_crc32 (0x00 ∷ payload)) ++ padding))
      ≡ ok (0, payload)
unfolding open_payload
open_payload-sealed payload padding cipher_len b l m =
    let c = desfire_crc32 (0x00 ∷ payload) in
    let rest = le32 c ++ padding in
    let back = u32_back c (crc32_residue (0x00 ∷ payload) (omega arith, b)).0 in
    let zero_off : length payload + 0 ≡ length payload = omega arith in
    let b0 : get_or (payload ++ rest) (length payload) 0 ≡ u8 c =
      ap (λ i. get_or (payload ++ rest) i 0) (sym zero_off) ∙ byte_at payload rest 0 (u8 c) refl in
    let b1 = byte_at payload rest 1 (u8 (c / 2 ^ 8)) refl in
    let b2 = byte_at payload rest 2 (u8 (c / 2 ^ 16)) refl in
    let b3 = byte_at payload rest 3 (u8 (c / 2 ^ 24)) refl in
    let front : take (length payload) (payload ++ rest) ≡ payload =
      take-append_left (length payload) payload rest refl in
    rw (front, b0, b1, b2, b3, back) (ground (arith, l, m))
