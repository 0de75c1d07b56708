-- ===== src/Pn5180/Tests.antt =====
-- The theorems on components/pn5180 at concrete data.
use osdp_reader_test_project.Common.{
  ℕ, ◌+◌, ◌≤◌, ◌≡◌, ◌⊎◌, refl, true, false, none, List, [], ◌∷◌, ◌++◌, take, arith,
}
use osdp_reader_test_project.Esp.{ok, fault}
use osdp_reader_test_project.Pn5180.Transceive.{Link}
use osdp_reader_test_project.Pn5180.Activate.{Device, no_card, pn5180_iso14443_activate}
use osdp_reader_test_project.Pn5180.Activate.Tag.{
  Chunk, Tag, last_level, more_levels, listen, powered, IsTag,
}
use osdp_reader_test_project.Pn5180.Activate.Selected.{activated, pn5180_iso14443_activate-Levels}
use osdp_reader_test_project.Pn5180.Activate.Overflow.{pn5180_iso14443_activate-overflow}
use osdp_reader_test_project.Pn5180.Activate.FrameSize.{pn5180_iso14443_activate-Ready}
use osdp_reader_test_project.Pn5180.Apdu.{pn5180_iso14443_apdu, is_wtx}
use osdp_reader_test_project.Pn5180.Apdu.Picc.{Picc, receive, IsPicc}
use osdp_reader_test_project.Pn5180.Apdu.Waiting.{AlwaysWaits, pn5180_iso14443_apdu-AlwaysWaits}

-- A card that appends the status bytes 90 00 to what it gets, in blocks of three bytes.
abbrev respond : List ℕ → List ℕ
respond tx = tx ++ (0x90 ∷ 0x00 ∷ [])

abbrev echo_link : Link Picc
echo_link = record {
  load_rf_config = λ tx_idx rx_idx p. (ok [], p);
  rf_on = λ p. (ok tt, p);
  rf_off = λ p. (ok tt, p);
  send_data = λ frame bits p. (ok tt, receive 3 respond frame p);
  read_data = λ n p. (ok p.pending, p);
  crc = λ on p. p;
}

abbrev echo_view : Picc → Picc
echo_view p = p

abbrev echo_IsPicc : IsPicc 3 respond echo_link echo_view
echo_IsPicc = record {
  sends = λ frame s short. (receive 3 respond frame s, refl, refl);
  reads = λ n s fits. (s, refl, refl);
  keeps = λ on s. refl;
}

abbrev command : List ℕ
command = 0x90 ∷ 0x5A ∷ 0x00 ∷ 0x00 ∷ 0x03 ∷ 0x01 ∷ 0x02 ∷ 0x03 ∷ 0x00 ∷ []

-- A card whose frames have five bytes at most.
abbrev echo : Device Picc
echo = record {
  chip = record { number = 1; received = []; to_send = []; pending = [] };
  card = record no_card { iso14443_4_active = true; fsc_max = 5 };
}

-- A card that only asks for more time.
abbrev slow_link : Link ℕ
slow_link = record {
  load_rf_config = λ tx_idx rx_idx s. (ok [], s);
  rf_on = λ s. (ok tt, s);
  rf_off = λ s. (ok tt, s);
  send_data = λ frame bits s. (ok tt, s + 1);
  read_data = λ n s. (ok (0xF2 ∷ 0x01 ∷ []), s);
  crc = λ on s. s;
}

abbrev slow_AlwaysWaits : AlwaysWaits slow_link
unfolding is_wtx
slow_AlwaysWaits = record {
  takes = λ frame s. (s + 1, refl);
  asks = λ s. (0xF2 ∷ 0x01 ∷ [], s, refl, omega arith, refl);
}

abbrev waiting : Device ℕ
waiting = record { chip = 0; card = record no_card { iso14443_4_active = true; fsc_max = 64 } }

pn5180_iso14443_apdu-AlwaysWaits_example :
    (pn5180_iso14443_apdu slow_link 1000 command 32 waiting).0 ≡ none
pn5180_iso14443_apdu-AlwaysWaits_example =
    pn5180_iso14443_apdu-AlwaysWaits slow_AlwaysWaits 1000 command 32 waiting refl (omega arith)

-- The ATS of a card that takes frames of 64 bytes.
abbrev ats : List ℕ
ats = 0x06 ∷ 0x75 ∷ 0x77 ∷ 0x81 ∷ 0x02 ∷ 0x80 ∷ []

-- A field with a card of these chunks.
abbrev tag_link : List Chunk → Link Tag
tag_link whole = record {
  load_rf_config = λ tx_idx rx_idx t. (ok [], t);
  rf_on = λ t. (ok tt, powered whole 0x44 0x03 0x20 ats);
  rf_off = λ t. (ok tt, t);
  send_data = λ frame bits t. (ok tt, listen whole 0x44 0x03 0x20 ats t.chunks frame t);
  read_data = λ n t. (ok t.pending, t);
  crc = λ on t. t;
}

abbrev tag_view : Tag → Tag
tag_view t = t

abbrev tag_IsTag : (whole : List Chunk) → IsTag whole 0x44 0x03 0x20 ats (tag_link whole) tag_view
tag_IsTag whole = record {
  starts = λ s. ([], s, refl);
  powers = λ s. (powered whole 0x44 0x03 0x20 ats, refl, refl);
  sends = λ frame bits s short. (listen whole 0x44 0x03 0x20 ats s.chunks frame s, refl, refl);
  reads = λ n s fits. (s, refl, refl);
  keeps = λ on s. refl;
}

-- The chunks of the seven-byte UID 04 12 34 56 78 9A BC.
abbrev chunks : List Chunk
chunks =
    record { byte0 = 0x88; byte1 = 0x04; byte2 = 0x12; byte3 = 0x34 }
    ∷ record { byte0 = 0x56; byte1 = 0x78; byte2 = 0x9A; byte3 = 0xBC }
    ∷ []

abbrev uid : List ℕ
uid = 0x04 ∷ 0x12 ∷ 0x34 ∷ 0x56 ∷ 0x78 ∷ 0x9A ∷ 0xBC ∷ []

abbrev empty_field : Device Tag
empty_field = record { chip = record { chunks = []; sel = 0; pending = [] }; card = no_card }

pn5180_iso14443_activate-Levels_example :
    ((pn5180_iso14443_activate (tag_link chunks) 10 empty_field).0 ≡ ok (take 10 uid, 0x20))
    × ((pn5180_iso14443_activate (tag_link chunks) 10 empty_field).1.card ≡ activated uid 0x20 ats)
pn5180_iso14443_activate-Levels_example =
    pn5180_iso14443_activate-Levels (tag_IsTag chunks) uid 10 empty_field
      (more_levels 0x04 0x12 0x34 (last_level 0x56 0x78 0x9A 0xBC (ground arith))) (omega arith)
      refl (omega arith) (omega arith)

-- Three chunks of four bytes of UID.
abbrev plain_chunk : Chunk
plain_chunk = record { byte0 = 0x01; byte1 = 0x02; byte2 = 0x03; byte3 = 0x04 }

abbrev long_uid : List Chunk
long_uid = plain_chunk ∷ plain_chunk ∷ plain_chunk ∷ []

pn5180_iso14443_activate-overflow_example :
    (pn5180_iso14443_activate (tag_link long_uid) 10 empty_field).0 ≡ fault
pn5180_iso14443_activate-overflow_example =
    pn5180_iso14443_activate-overflow (tag_IsTag long_uid) 10 empty_field (ground arith)
      (ground arith) (ground arith)

pn5180_iso14443_activate-Ready_example :
    let c = (pn5180_iso14443_activate (tag_link chunks) 10 empty_field).1.card in
    (c.iso14443_4_active ≡ false) ⊎ ((16 ≤ c.fsc_max) × (c.fsc_max ≤ 256) × (c.block_number ≡ 0))
pn5180_iso14443_activate-Ready_example =
    pn5180_iso14443_activate-Ready (tag_link chunks) 10 empty_field
