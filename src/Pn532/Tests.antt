-- ===== src/Pn532/Tests.antt =====
-- The theorems on components/pn532 at concrete data.
use osdp_reader_test_project.Pn532.Chip.{Chip, closed, chip, select, clock, receive, IsPn532}
use osdp_reader_test_project.Pn532.Exchanges.{one_target, pn532_apdu_exchange-answered}
use osdp_reader_test_project.Common.{
  ℕ, List, refl, get_or, drop, ◌==◌, if◌then◌else◌, bit_and, ℕ, ◌+◌, ◌-◌, ◌≡◌, true, [], ◌∷◌,
  length, arith,
}
use osdp_reader_test_project.Common.Bytes.{u8}
use osdp_reader_test_project.Esp.{esp_fail, ok, err}
use osdp_reader_test_project.Pn532.{Spi, sum_loop, body_checks, pn532_apdu_exchange}
use osdp_reader_test_project.Pn532.Checksum.{body_checks_single}

-- A bus on which every byte is ready and zero; its state counts the bytes.
abbrev pub spi : Spi ℕ
spi = record {
  set_cs = λ level s. s;
  xfer_byte = λ out s. (0, s + 1);
  transmit = λ buf s. (ok tt, s + length buf);
  bring_up = λ s. s;
  rounds = λ ms s. 25;
}

abbrev received : ℕ
received = 0x43

body_checks_single_example :
    (body_checks (0xD5 ∷ 0x41 ∷ 0x00 ∷ []) (u8 (0x100 - sum_loop 0 (0xD5 ∷ 0x41 ∷ 0x00 ∷ [])))
      ≡ true)
    × (body_checks (0xD5 ∷ received ∷ 0x00 ∷ []) (u8 (0x100 - sum_loop 0 (0xD5 ∷ 0x41 ∷ 0x00 ∷ [])))
          ≡ true
        → received ≡ 0x41)
body_checks_single_example =
    body_checks_single (0xD5 ∷ []) (0x00 ∷ []) 0x41 received (omega arith) (omega arith)

-- A chip that returns the data of an exchange, and has found one card.
abbrev uid : List ℕ
uid = 0x04 ∷ 0x11 ∷ 0x22 ∷ 0x33 ∷ 0x44 ∷ 0x55 ∷ 0x66 ∷ []

abbrev respond : List ℕ → List ℕ
respond body =
    if get_or body 1 0 == 0x40
    then 0xD5 ∷ 0x41 ∷ 0x00 ∷ drop 3 body
    else 0xD5 ∷ 0x4B ∷ one_target 0x03 0x44 0x20 uid (0x75 ∷ [])

abbrev chip_spi : Spi Chip
chip_spi = record {
  set_cs = select;
  xfer_byte = clock 2 respond;
  transmit = λ buf c. (ok tt, receive 2 respond buf c);
  bring_up = λ c. c;
  rounds = λ ms c. 25;
}

chip_spi-IsPn532 : IsPn532 2 respond chip_spi (λ c. c)
chip_spi-IsPn532 = record {
  selects = λ level c. refl;
  answers = λ x c. refl;
  clocks = λ x c. refl;
  transmits = λ buf c. (receive 2 respond buf c, refl, refl);
  has_time = λ ms c long. omega arith;
}

pn532_apdu_exchange-answered_example :
    (pn532_apdu_exchange chip_spi (0x60 ∷ 0x00 ∷ []) 16 (chip closed [] 0)).0
    ≡ (if bit_and 0x00 0x3F == 0 then ok (0x60 ∷ 0x00 ∷ []) else err esp_fail)
pn532_apdu_exchange-answered_example =
    pn532_apdu_exchange-answered chip_spi-IsPn532 (0x60 ∷ 0x00 ∷ []) (0x60 ∷ 0x00 ∷ []) 0x00 16
      (chip closed [] 0) (omega arith) (omega arith) (omega arith) refl
