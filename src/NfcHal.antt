-- ===== src/NfcHal.antt =====
-- components/nfc_hal: the dispatch to the registered driver, and the registration of the PN532.
pub mod Limits
pub mod Tests
use osdp_reader_test_project.Common.{ℕ, Bool, true, false, Option, none, some, List}
use osdp_reader_test_project.Esp.{Outcome, ok, err, fault, invalid_state}
use osdp_reader_test_project.Desfire.State.{Platform}
use osdp_reader_test_project.Io.{Io, ◌then_with◌}
use osdp_reader_test_project.Pn532.{
  Spi, pn532_init_full, pn532_find_target, pn532_apdu_exchange, pn532_release,
}

-- `nfc_driver_t`; a function that is NULL is `none`.
pub record Driver (S : Type 0) : Type 0 where
  pub init : Option (Io S (Unit {0}))
  pub find_target : Option (ℕ → Io S (List ℕ × ℕ))
  pub apdu_exchange : Option (List ℕ → ℕ → Io S (List ℕ))
  pub release : Option (Io S (Unit {0}))

-- The data of a call that only its status is wanted of.
pub status_of : {S A : Type 0} → Io S A → Io S (Unit {0})
status_of m = m then_with λ _ s. (ok tt, s)

module _ {S : Type 0} where
  -- `s_drv` after the registration: the last driver replaces the one before it.
  pub nfc_register_driver : Option (Driver S) → Option (Driver S) → Option (Driver S)
  nfc_register_driver drv s_drv = drv

  pub nfc_init : Option (Driver S) → Io S (Unit {0})
  nfc_init none s = (err invalid_state, s)
  nfc_init (some drv) s = elim drv.init [ none ↦ (ok tt, s) | some f ↦ f s ]

  pub nfc_find_target : Option (Driver S) → ℕ → Io S (List ℕ × ℕ)
  nfc_find_target none n s = (err invalid_state, s)
  nfc_find_target (some drv) n s = elim drv.find_target [
    | none ↦ (err invalid_state, s)
    | some f ↦ f n s
  ]

  unfoldable pub nfc_apdu_exchange : Option (Driver S) → List ℕ → ℕ → Io S (List ℕ)
  nfc_apdu_exchange none tx n s = (err invalid_state, s)
  nfc_apdu_exchange (some drv) tx n s = elim drv.apdu_exchange [
    | none ↦ (err invalid_state, s)
    | some f ↦ f tx n s
  ]

  pub nfc_release : Option (Driver S) → Io S (Unit {0})
  nfc_release none s = (ok tt, s)
  nfc_release (some drv) s = elim drv.release [ none ↦ (ok tt, s) | some f ↦ f s ]

  pub nfc_is_ready : Option (Driver S) → Bool
  nfc_is_ready none = false
  nfc_is_ready (some drv) = true

module _ {S : Type 0} (spi : Spi S) where
  pub pn532_driver : Driver S
  pn532_driver = record {
    init = some (status_of (pn532_init_full spi));
    find_target = some (pn532_find_target spi);
    apdu_exchange = some (pn532_apdu_exchange spi);
    release = some (status_of (pn532_release spi));
  }

  pub pn532_driver_register : Option (Driver S) → Option (Driver S)
  pn532_driver_register s_drv = nfc_register_driver (some pn532_driver) s_drv

  -- The platform of components/desfire where the PN532 is the front end.
  pub over_pn532 : Option (Driver S) → Platform S → Platform S
  over_pn532 s_drv p = record p { apdu_exchange = nfc_apdu_exchange (pn532_driver_register s_drv) }
