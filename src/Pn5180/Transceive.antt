-- ===== src/Pn5180/Transceive.antt =====
-- components/pn5180/pn5180_transceive.c: the field, and frames to and from the card.
pub mod Limits
use osdp_reader_test_project.Common.{
  ℕ, zero, suc, ◌+◌, Bool, true, false, not, List, [], ◌∷◌, ◌++◌, length, ltb, ◌==◌, bit_and,
  if◌then◌else◌,
}
use osdp_reader_test_project.Esp.{
  Outcome, ok, err, fault, esp_fail, timeout, invalid_size, invalid_state, invalid_crc,
}
use osdp_reader_test_project.Io.{Io, ◌then_with◌, or_else}
use osdp_reader_test_project.Pn5180.Spi.{
  Pins, pn5180_send_command, pn5180_write_register, pn5180_write_register_or_mask,
  pn5180_write_register_and_mask, pn5180_read_register,
}

-- What the protocol layer asks of the chip. `crc` switches both CRC registers, whose results the
-- driver does not look at.
pub record Link (S : Type 0) : Type 0 where
  pub load_rf_config : ℕ → ℕ → Io S (List ℕ)
  pub rf_on : Io S (Unit {0})
  pub rf_off : Io S (Unit {0})
  pub send_data : List ℕ → ℕ → Io S (Unit {0})
  pub read_data : ℕ → Io S (List ℕ)
  pub crc : Bool → S → S

module _ {S : Type 0} (pins : Pins S) where
  pub pn5180_load_rf_config : ℕ → ℕ → Io S (List ℕ)
  pn5180_load_rf_config tx_idx rx_idx = pn5180_send_command pins (0x11 ∷ tx_idx ∷ rx_idx ∷ []) 0

  -- One round of `pn5180_wait_irq`: whether a bit of the mask was up, and was cleared.
  pub poll_irq : ℕ → Io S Bool
  poll_irq mask = or_else esp_fail (pn5180_read_register pins 0x02) then_with λ status s.
      if bit_and status mask == 0
      then (ok false, s)
      else (ok true, (pn5180_write_register pins 0x03 (bit_and status mask) s).1)

  pub irq_loop : ℕ → ℕ → Io S (Unit {0})
  irq_loop mask zero = poll_irq mask then_with λ hit s. (if hit then ok tt else err timeout, s)
  irq_loop mask (suc left) = poll_irq mask then_with λ hit s.
      let rest = irq_loop mask left s in if hit then (ok tt, s) else rest

  pub pn5180_wait_irq : ℕ → ℕ → Io S (Unit {0})
  pn5180_wait_irq mask timeout_ms s = irq_loop mask (pins.rounds timeout_ms s) s

  pub pn5180_rf_on : Io S (Unit {0})
  pn5180_rf_on =
      pn5180_send_command pins (0x16 ∷ 0x01 ∷ []) 0 then_with λ _. pn5180_wait_irq 0x80 100

  pub pn5180_rf_off : Io S (Unit {0})
  pn5180_rf_off =
      pn5180_send_command pins (0x17 ∷ 0x00 ∷ []) 0 then_with λ _. pn5180_wait_irq 0x40 100

  pub pn5180_send_data : List ℕ → ℕ → Io S (Unit {0})
  pn5180_send_data payload valid_bits s =
      if ltb 260 (length payload)
      then (err invalid_size, s)
      else (pn5180_send_command pins (0x09 ∷ bit_and valid_bits 0x07 ∷ payload) 0 then_with λ _.
            pn5180_wait_irq 0x02 50)
          (pn5180_write_register pins 0x03 0x03 s).1

  -- What RX_STATUS leads to: an error, or as many bytes as it says.
  pub fetch : ℕ → ℕ → Io S (List ℕ)
  fetch buf_len rx_status s =
      let avail = bit_and rx_status 0x1FF in
      if not (bit_and rx_status 0x60000 == 0)
      then (if bit_and rx_status 0x20000 == 0 then err invalid_crc else err invalid_state, s)
      else if ltb buf_len avail
      then (err invalid_size, s)
      else pn5180_send_command pins (0x0A ∷ 0x00 ∷ []) avail s

  pub pn5180_read_data : ℕ → Io S (List ℕ)
  pn5180_read_data buf_len = pn5180_wait_irq 0x01 50 then_with λ _.
      pn5180_read_register pins 0x13 then_with λ rx_status. fetch buf_len rx_status

  pub set_crc : Bool → S → S
  set_crc true s =
      let s' = (pn5180_write_register_or_mask pins 0x19 0x01 s).1 in
      (pn5180_write_register_or_mask pins 0x1B 0x01 s').1
  set_crc false s =
      let s' = (pn5180_write_register_and_mask pins 0x19 0xFFFFFFFE s).1 in
      (pn5180_write_register_and_mask pins 0x1B 0xFFFFFFFE s').1

  pub chip_link : Link S
  chip_link = record {
    load_rf_config = pn5180_load_rf_config;
    rf_on = pn5180_rf_on;
    rf_off = pn5180_rf_off;
    send_data = pn5180_send_data;
    read_data = pn5180_read_data;
    crc = set_crc;
  }
