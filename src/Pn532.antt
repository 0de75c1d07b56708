-- ===== src/Pn532.antt =====
-- components/pn532/pn532.c: frames on the SPI bus and the commands of the chip.
pub mod Checksum
pub mod Lengths
pub mod Chip
pub mod Exchanges
pub mod Tests
use osdp_reader_test_project.Common.{
  ℕ, zero, suc, ◌+◌, ◌-◌, ◌%◌, Bool, true, false, not, ◌&&◌, ◌||◌, List, [], ◌∷◌, ◌++◌, length,
  take, drop, slice, get_or, ltb, ◌==◌, if◌then◌else◌, mem_eq, bit_and,
}
use osdp_reader_test_project.Common.Bytes.{u8}
use osdp_reader_test_project.Io.{Io, ◌then_with◌}
use osdp_reader_test_project.Esp.{
  Outcome, ok, err, fault, esp_fail, invalid_size, invalid_response, invalid_crc, not_found,
  timeout,
}

-- What the driver uses of ESP-IDF. `S` is the state of the bus, the pins and the timer: the level
-- of the chip select, the exchange of a byte, the transmission of a buffer, the bring-up of the
-- pins and the bus, and how many rounds of a polling loop fit before a deadline in milliseconds.
pub record Spi (S : Type 0) : Type 0 where
  pub set_cs : Bool → S → S
  pub xfer_byte : ℕ → S → ℕ × S
  pub transmit : List ℕ → S → Outcome (Unit {0}) × S
  pub bring_up : S → S
  pub rounds : ℕ → S → ℕ

-- `dcs += body[k]` on a `uint8_t`.
pub sum_loop : ℕ → List ℕ → ℕ
sum_loop dcs [] = dcs
sum_loop dcs (x ∷ xs) = sum_loop (u8 (dcs + x)) xs

-- The buffer of `send_frame`, with the direction byte of the SPI bus in front.
pub frame_of : List ℕ → List ℕ
frame_of body =
    0x01
    ∷ 0x00
    ∷ 0x00
    ∷ 0xFF
    ∷ u8 (length body)
    ∷ u8 (0x100 - length body)
    ∷ (body ++ (u8 (0x100 - sum_loop 0 body) ∷ 0x00 ∷ []))

-- The last check of `read_response`.
pub body_checks : List ℕ → ℕ → Bool
body_checks body dcs = u8 (sum_loop 0 body + dcs) == 0

-- The checks of `cmd` on the body of a response.
pub accept_body : ℕ → ℕ → List ℕ → Outcome (List ℕ)
accept_body cmd_code resp_buf_len r =
    if ltb (length r) 2 || (not (get_or r 0 0 == 0xD5) || not (get_or r 1 0 == cmd_code + 1))
    then err invalid_response
    else if ltb resp_buf_len (length r - 2)
    then err invalid_size
    else ok (drop 2 r)

-- The checks of `pn532_find_target`: the UID and the SAK.
pub target_of : ℕ → List ℕ → Outcome (List ℕ × ℕ)
target_of uid_buf_len r =
    let nfcid_len = get_or r 5 0 in
    if ltb (length r) 1 || (get_or r 0 0 == 0)
    then err not_found
    else if ltb (length r) 6
    then err invalid_response
    else if ltb uid_buf_len nfcid_len || ltb (length r) (6 + nfcid_len)
    then err invalid_size
    else ok (slice 6 nfcid_len r, get_or r 4 0)

-- The checks of `pn532_apdu_exchange`.
pub data_of : ℕ → List ℕ → Outcome (List ℕ)
data_of rx_buf_len r =
    if ltb (length r) 1
    then err invalid_response
    else if not (bit_and (get_or r 0 0) 0x3F == 0)
    then err esp_fail
    else if ltb rx_buf_len (length r - 1)
    then err invalid_size
    else ok (drop 1 r)

module _ {S : Type 0} (spi : Spi S) where
  pub read_bytes : ℕ → S → List ℕ × S
  read_bytes zero s = ([], s)
  read_bytes (suc n) s =
      let (x, s₁) = spi.xfer_byte 0x00 s in let (xs, s₂) = read_bytes n s₁ in (x ∷ xs, s₂)

  -- One round of `wait_ready`: the status byte.
  pub read_status : S → ℕ × S
  read_status s =
      let (_, s₁) = spi.xfer_byte 0x02 (spi.set_cs false s) in
      let (st, s₂) = spi.xfer_byte 0x00 s₁ in (st, spi.set_cs true s₂)

  pub wait_loop : ℕ → Io S (Unit {0})
  wait_loop zero s = (err timeout, s)
  wait_loop (suc left) s =
      let (st, s') = read_status s in
      let later = wait_loop left s' in if bit_and st 0x01 == 0 then later else (ok tt, s')

  pub wait_ready : ℕ → Io S (Unit {0})
  wait_ready timeout_ms s = wait_loop (spi.rounds timeout_ms s) s

  pub send_frame : List ℕ → Io S (Unit {0})
  send_frame body s =
      if ltb 254 (length body)
      then (err invalid_size, s)
      else let (e, s') = spi.transmit (frame_of body) (spi.set_cs false s) in
        (e, spi.set_cs true s')

  pub take_ack : Io S (Unit {0})
  take_ack s =
      let (_, s₁) = spi.xfer_byte 0x03 (spi.set_cs false s) in
      let (got, s₂) = read_bytes 6 s₁ in
      (
        if mem_eq got (0x00 ∷ 0x00 ∷ 0xFF ∷ 0x00 ∷ 0xFF ∷ 0x00 ∷ [])
            then ok tt
            else err invalid_response,
        spi.set_cs true s₂,
      )

  pub read_ack : Io S (Unit {0})
  read_ack = wait_ready 50 then_with λ _. take_ack

  -- What follows the header `00 00 FF LEN LCS`.
  pub take_body : ℕ → List ℕ → Io S (List ℕ)
  take_body buf_len hdr s =
      let len = get_or hdr 3 0 in
      let (body, s₁) = read_bytes len s in
      let (dcs, s₂) = spi.xfer_byte 0x00 s₁ in
      let (_, s₃) = spi.xfer_byte 0x00 s₂ in
      if not (get_or hdr 0 0 == 0x00)
        || (not (get_or hdr 1 0 == 0x00) || not (get_or hdr 2 0 == 0xFF))
      then (err invalid_response, spi.set_cs true s)
      else if not (u8 (len + get_or hdr 4 0) == 0)
      then (err invalid_crc, spi.set_cs true s)
      else if ltb buf_len len
      then (err invalid_size, spi.set_cs true s)
      else (if body_checks body dcs then ok body else err invalid_crc, spi.set_cs true s₃)

  pub take_response : ℕ → Io S (List ℕ)
  take_response buf_len s =
      let (_, s₁) = spi.xfer_byte 0x03 (spi.set_cs false s) in
      let (hdr, s₂) = read_bytes 5 s₁ in take_body buf_len hdr s₂

  pub read_response : ℕ → ℕ → Io S (List ℕ)
  read_response buf_len timeout_ms = wait_ready timeout_ms then_with λ _. take_response buf_len

  -- `body` has 256 bytes. A failed wait is ESP_ERR_TIMEOUT, which is what it returns.
  pub cmd : ℕ → List ℕ → ℕ → Io S (List ℕ)
  cmd cmd_code params resp_buf_len s =
      if ltb 254 (length params)
      then (fault, s)
      else (send_frame (0xD4 ∷ cmd_code ∷ params) then_with λ _. read_ack then_with λ _.
            read_response 270 1000 then_with λ r s'. (accept_body cmd_code resp_buf_len r, s'))
          s

  pub pn532_wake : Io S (List ℕ)
  pn532_wake s =
      let (_, s') = spi.xfer_byte 0x00 (spi.set_cs false s) in cmd 0x02 [] 16 (spi.set_cs true s')

  pub pn532_init : Io S (List ℕ)
  pn532_init s = pn532_wake (spi.bring_up s)

  pub pn532_sam_config_normal : Io S (List ℕ)
  pn532_sam_config_normal = cmd 0x14 (0x01 ∷ 0x14 ∷ 0x00 ∷ []) 0

  pub pn532_find_target : ℕ → Io S (List ℕ × ℕ)
  pn532_find_target uid_buf_len =
      cmd 0x4A (0x01 ∷ 0x00 ∷ []) 64 then_with λ r s. (target_of uid_buf_len r, s)

  pub pn532_apdu_exchange : List ℕ → ℕ → Io S (List ℕ)
  pn532_apdu_exchange tx rx_buf_len s =
      if ltb 252 (length tx)
      then (err invalid_size, s)
      else (cmd 0x40 (0x01 ∷ tx) 264 then_with λ r s'. (data_of rx_buf_len r, s')) s

  pub pn532_release : Io S (List ℕ)
  pn532_release = cmd 0x52 (0x01 ∷ []) 0

  pub pn532_init_full : Io S (List ℕ)
  pn532_init_full = pn532_init then_with λ _. pn532_sam_config_normal
