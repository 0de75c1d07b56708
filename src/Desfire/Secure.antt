-- ===== src/Desfire/Secure.antt =====
-- components/desfire/desfire_enc.c: encrypted commands and ChangeKey. A return of -1 is the error;
-- otherwise the status of the card, with the data that was copied out.
pub mod Padding
pub mod Payload
pub mod Laws
use osdp_reader_test_project.Common.{
  ℕ, ◌+◌, ◌-◌, ◌/◌, ◌%◌, ◌^◌, Bool, true, false, not, ◌&&◌, ◌||◌, Option, none, some, List, [], ◌∷◌,
  ◌++◌, length, take, drop, slice, get_or, replicate, ltb, leb, ◌==◌, if◌then◌else◌, mem_eq,
}
use osdp_reader_test_project.Common.Bytes.{u8, le32, from_le32, xor_bytes}
use osdp_reader_test_project.Esp.{
  Outcome, ok, err, fault, esp_fail, invalid_size, invalid_crc, invalid_state,
}
use osdp_reader_test_project.Desfire.State.{Session, Platform, Host, Action, ◌>>=◌}
use osdp_reader_test_project.Desfire.Crypto.{desfire_crc32}
use osdp_reader_test_project.Desfire.Transport.{desfire_xfer, operation_ok, session_mac, bump_ctr}

abbrev pub cmd_change_key : ℕ
cmd_change_key = 0xC4

-- `pad_to_block` on the bytes in `buf`; the result of 0 is the empty string.
pub pad_to_block : List ℕ → ℕ → List ℕ
pad_to_block xs buf_size =
    let pad = 16 - length xs % 16 in
    if length xs % 16 == 0
    then xs
    else if ltb buf_size (length xs + pad)
    then []
    else xs ++ (0x80 ∷ replicate (pad - 1) 0)

-- The plaintext of ChangeKey before padding, for the key that is authenticated and for another.
pub change_key_plain : Bool → ℕ → List ℕ → List ℕ → ℕ → List ℕ
change_key_plain same_key key_no old_key new_key version =
    let mixed = xor_bytes new_key old_key in
    if same_key
    then new_key
      ++ (version ∷ le32 (desfire_crc32 (cmd_change_key ∷ key_no ∷ (new_key ++ (version ∷ [])))))
    else mixed
      ++ (version
          ∷ (le32 (desfire_crc32 (cmd_change_key ∷ key_no ∷ (mixed ++ (version ∷ []))))
              ++ le32 (desfire_crc32 new_key)))

-- The inner checks of `desfire_enc_recv` on a response that decrypts to `plain`.
pub open_payload : ℕ → ℕ → List ℕ → Outcome (ℕ × List ℕ)
open_payload payload_len cipher_len plain =
    if ltb cipher_len (payload_len + 4)
    then err esp_fail
    else if ltb 257 (1 + payload_len)
    then err esp_fail
    else if desfire_crc32 (0x00 ∷ take payload_len plain)
        == from_le32 (get_or plain payload_len 0) (get_or plain (payload_len + 1) 0)
            (get_or plain (payload_len + 2) 0) (get_or plain (payload_len + 3) 0)
    then ok (operation_ok, take payload_len plain)
    else err esp_fail

module _ {W : Type 0} (p : Platform W) where
  pub desfire_enc_iv : Host W → ℕ → ℕ → List ℕ
  desfire_enc_iv h magic_hi magic_lo =
      let s = h.session in
      p.cbc_encrypt s.k_ses_auth_enc (replicate 16 0) (
        magic_hi
        ∷ magic_lo
        ∷ (take 4 s.ti ++ (u8 s.cmd_ctr ∷ u8 (s.cmd_ctr / 2 ^ 8) ∷ replicate 8 0)))

  -- The ciphertext of a padded plaintext, host to card.
  pub encrypt_command : Host W → List ℕ → List ℕ
  encrypt_command h plain =
      p.cbc_encrypt h.session.k_ses_auth_enc (desfire_enc_iv h 0xA5 0x5A) plain

  -- What follows the exchange in `desfire_enc_send`; `out` is the capacity of `resp`, `none` for
  -- NULL. The copy into `resp` is not checked against that capacity.
  pub enc_send_finish : Option ℕ → ℕ × List ℕ → Action W (ℕ × List ℕ)
  enc_send_finish out (st, rx) h =
      let h' = bump_ctr h in
      let rd = length rx - 8 in
      if not (st == operation_ok)
      then (ok (st, []), h)
      else if ltb (length rx) 8
      then (ok (operation_ok, []), h')
      else if ltb 263 (7 + rd)
      then (err esp_fail, h')
      else if not (mem_eq (drop rd rx) (session_mac p h' st (take rd rx)))
      then (err esp_fail, h')
      else elim out [
        | none ↦ (ok (operation_ok, []), h')
        | some n ↦ if ltb n rd then (fault, h') else (ok (operation_ok, take rd rx), h')
      ]

  pub desfire_enc_send : ℕ → List ℕ → List ℕ → Option ℕ → Action W (ℕ × List ℕ)
  desfire_enc_send cmd header payload out h =
      let crc = desfire_crc32 (cmd ∷ (header ++ payload)) in
      let padded = pad_to_block (payload ++ le32 crc) 256 in
      let cipher = encrypt_command h padded in
      let body = header ++ cipher in
      if not h.session.authenticated
      then (err esp_fail, h)
      else if ltb 257 (1 + length header + length payload)
      then (err esp_fail, h)
      else if ltb 256 (length payload + 4)
      then (err esp_fail, h)
      else if length padded == 0
      then (err esp_fail, h)
      else if ltb 263 (7 + length header + length padded)
      then (err esp_fail, h)
      else if ltb 256 (length header + length padded + 8)
      then (err esp_fail, h)
      else (desfire_xfer p cmd (body ++ session_mac p h cmd body) 64 >>= enc_send_finish out) h

  -- What follows the exchange in `desfire_enc_recv`.
  pub enc_recv_finish : ℕ → ℕ × List ℕ → Action W (ℕ × List ℕ)
  enc_recv_finish payload_len (st, rx) h =
      let h' = bump_ctr h in
      let n = length rx - 8 in
      let cipher = take n rx in
      let plain = p.cbc_decrypt h'.session.k_ses_auth_enc (desfire_enc_iv h' 0x5A 0xA5) cipher in
      if not (st == operation_ok)
      then (ok (st, []), h)
      else if ltb (length rx) 8
      then (err esp_fail, h)
      else if ltb 287 (7 + n)
      then (err esp_fail, h')
      else if not (mem_eq (drop n rx) (session_mac p h' st cipher))
      then (err esp_fail, h')
      else if not (n % 16 == 0)
      then (err esp_fail, h')
      else if ltb 280 n
      then (err esp_fail, h')
      else (open_payload payload_len n plain, h')

  pub desfire_enc_recv : ℕ → List ℕ → ℕ → ℕ → Action W (ℕ × List ℕ)
  desfire_enc_recv cmd header payload_len resp_buf h =
      if not h.session.authenticated
      then (err esp_fail, h)
      else if ltb resp_buf payload_len
      then (err esp_fail, h)
      else if ltb 71 (7 + length header)
      then (err esp_fail, h)
      else if ltb 72 (length header + 8)
      then (err esp_fail, h)
      else (desfire_xfer p cmd (header ++ session_mac p h cmd header) 280
            >>= enc_recv_finish payload_len)
          h

  -- What follows the exchange in `desfire_change_key`.
  pub change_key_finish : Bool → ℕ × List ℕ → Action W (Unit {0})
  change_key_finish same_key (st, rx) h =
      let s = h.session in
      let h' = bump_ctr h in
      let rd = length rx - 8 in
      if not (st == operation_ok)
      then (err esp_fail, h)
      else if same_key
      then (ok tt, record h { session = record s { authenticated = false } })
      else if ltb (length rx) 8
      then (ok tt, h')
      else if mem_eq (drop rd rx) (session_mac p h' st (take rd rx))
      then (ok tt, h')
      else (err invalid_crc, h')

  unfoldable pub desfire_change_key : ℕ → List ℕ → List ℕ → ℕ → Action W (Unit {0})
  desfire_change_key key_no old_key new_key version h =
      let same_key = key_no == h.session.key_no in
      let padded = pad_to_block (change_key_plain same_key key_no old_key new_key version) 32 in
      let body = key_no ∷ encrypt_command h padded in
      if not h.session.authenticated
      then (err invalid_state, h)
      else if length padded == 0
      then (err invalid_size, h)
      else (desfire_xfer p cmd_change_key (body ++ session_mac p h cmd_change_key body) 16
            >>= change_key_finish same_key)
          h
