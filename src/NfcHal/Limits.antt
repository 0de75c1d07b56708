-- ===== src/NfcHal/Limits.antt =====
-- components/desfire/desfire.c over components/pn532/pn532.c: how long a command can be.
use osdp_reader_test_project.Common.{
  ℕ, ◌+◌, ◌≤◌, ◌≡◌, ap, false, Option, List, [], ◌∷◌, length, length-append, ltb, arith,
}
use osdp_reader_test_project.Esp.{Outcome, err, esp_fail}
use osdp_reader_test_project.Desfire.State.{Platform, Host}
use osdp_reader_test_project.Desfire.Transport.{desfire_xfer, xfer_received, apdu_of}
use osdp_reader_test_project.Pn532.{Spi}
use osdp_reader_test_project.Pn532.Lengths.{length-apdu_exchange}
use osdp_reader_test_project.NfcHal.{
  Driver, nfc_register_driver, nfc_apdu_exchange, pn532_driver, pn532_driver_register, over_pn532,
}

module _ {S : Type 0} (spi : Spi S) where
  length-apdu_of : (cmd : ℕ) (params : List ℕ) → length (apdu_of cmd params) ≡ length params + 6
  unfolding apdu_of
  length-apdu_of cmd params = omega (arith, length-append params (0x00 ∷ []))

  -- Over the PN532, whatever was registered before, a command with 246 to 255 bytes of parameters,
  -- which `desfire_xfer` admits, is not sent: it fails, and only the last status changes.
  pub xfer_too_long :
      (s_drv : Option (Driver S)) (p : Platform S) (cmd : ℕ) (params : List ℕ) (n : ℕ) (h : Host S)
      → 246 ≤ length params
      → length params ≤ 255
      → desfire_xfer (over_pn532 spi s_drv p) cmd params n h
        ≡ (err esp_fail, record h { last_status = 0xFF })
  unfolding desfire_xfer over_pn532 nfc_apdu_exchange pn532_driver_register nfc_register_driver
      pn532_driver xfer_received
  xfer_too_long s_drv p cmd params n h lo hi =
      let fits : ltb 255 (length params) ≡ false = ground (arith, hi) in
      let refused =
        (length-apdu_exchange spi (apdu_of cmd params) 280 h.world).1
          (omega (arith, length-apdu_of cmd params, lo)) in
      rw fits
        (ap (λ (r : Outcome (List ℕ) × S). xfer_received n r.0 (record h { world = r.1 })) refused)
