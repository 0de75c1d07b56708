-- ===== src/Pn532/Exchanges.antt =====
-- components/pn532/pn532.c: an APDU and a search for a card, over a chip that answers.
use osdp_reader_test_project.Common.{
  ℕ, ◌+◌, ◌-◌, ◌≤◌, ◌≡◌, refl, ap, ◌∙◌, false, List, [], ◌∷◌, ◌++◌, length, length-append,
  take-append_left, ltb, ◌==◌, if◌then◌else◌, bit_and, arith,
}
use osdp_reader_test_project.Esp.{ok, err, esp_fail}
use osdp_reader_test_project.Io.{then_yields}
use osdp_reader_test_project.Pn532.{
  Spi, accept_body, data_of, target_of, cmd, pn532_apdu_exchange, pn532_find_target,
}
use osdp_reader_test_project.Pn532.Chip.{Chip, IsPn532}
use osdp_reader_test_project.Pn532.Chip.Answers.{cmd-answered}

data_of-status :
    (n st : ℕ) (rx : List ℕ)
    → length rx ≤ n
    → data_of n (st ∷ rx) ≡ (if bit_and st 0x3F == 0 then ok rx else err esp_fail)
unfolding data_of
data_of-status n st rx room =
    let e : ltb n (length (st ∷ rx) - 1) ≡ false = ground (arith, room) in rw e (ground arith)

-- The chip's list of targets with one card, whose UID other data may follow.
abbrev pub one_target : ℕ → ℕ → ℕ → List ℕ → List ℕ → List ℕ
one_target atqa0 atqa1 sak uid rest = 0x01 ∷ 0x01 ∷ atqa0 ∷ atqa1 ∷ sak ∷ length uid ∷ (uid ++ rest)

target_of-one :
    (n atqa0 atqa1 sak : ℕ) (uid rest : List ℕ)
    → length uid ≤ n
    → target_of n (one_target atqa0 atqa1 sak uid rest) ≡ ok (uid, sak)
unfolding target_of
target_of-one n atqa0 atqa1 sak uid rest room =
    let e : ltb n (length uid) ≡ false = ground (arith, room) in
    let r = one_target atqa0 atqa1 sak uid rest in
    let some_there : ltb (length r) 1 ≡ false = ground arith in
    let full : ltb (length r) 6 ≡ false = ground arith in
    let len : ltb (length r) (6 + length uid) ≡ false = ground (arith, length-append uid rest) in
    rw (some_there, full, e, len, take-append_left (length uid) uid rest refl) refl

module _ {S : Type 0} {spi : Spi S} {view : S → Chip} {delay : ℕ} {respond : List ℕ → List ℕ}
    (laws : IsPn532 delay respond spi view) where
  cmd-accepted :
      (cmd_code : ℕ) (params reply : List ℕ) (resp_buf_len : ℕ) (s : S)
      → length params ≤ 252
      → length reply ≤ 253
      → length reply ≤ resp_buf_len
      → respond (0xD4 ∷ cmd_code ∷ params) ≡ 0xD5 ∷ (cmd_code + 1) ∷ reply
      → (cmd spi cmd_code params resp_buf_len s).0 ≡ ok reply
  unfolding accept_body
  cmd-accepted cmd_code params reply resp_buf_len s short fits room e =
      let c = view s in
      let small : length (respond (0xD4 ∷ cmd_code ∷ params)) ≤ 255 = rw e (omega (arith, fits)) in
      let answered =
        cmd-answered laws cmd_code params resp_buf_len c.line c.pending c.busy s short small refl in
      answered.0 ∙ ap (accept_body cmd_code resp_buf_len) e ∙ ground (arith, room)

  -- The data that the chip returns with the status 0 are what an exchange returns, if they fit the
  -- caller's buffer; a status of another value fails it.
  pub pn532_apdu_exchange-answered :
      (tx rx : List ℕ) (st rx_buf_len : ℕ) (s : S)
      → length tx ≤ 251
      → length rx ≤ 252
      → length rx ≤ rx_buf_len
      → respond (0xD4 ∷ 0x40 ∷ 0x01 ∷ tx) ≡ 0xD5 ∷ 0x41 ∷ st ∷ rx
      → (pn532_apdu_exchange spi tx rx_buf_len s).0
        ≡ (if bit_and st 0x3F == 0 then ok rx else err esp_fail)
  unfolding pn532_apdu_exchange data_of
  pn532_apdu_exchange-answered tx rx st rx_buf_len s short fits room e =
      let small : ltb 252 (length tx) ≡ false = ground (arith, short) in
      let answer =
        cmd-accepted 0x40 (0x01 ∷ tx) (st ∷ rx) 264 s (omega (arith, short)) (omega (arith, fits))
          (omega (arith, fits)) e in
      let there =
        then_yields (cmd spi 0x40 (0x01 ∷ tx) 264) (λ r s'. (data_of rx_buf_len r, s')) s (st ∷ rx)
          answer in
      rw (small) (ap (λ r. r.0) there ∙ data_of-status rx_buf_len st rx room)

  -- A chip that has found one card, with a UID that fits the caller's buffer, gives the UID and the
  -- SAK, whatever follows the UID in its answer.
  pub pn532_find_target-found :
      (uid rest : List ℕ) (atqa0 atqa1 sak uid_buf_len : ℕ) (s : S)
      → length uid ≤ uid_buf_len
      → length (uid ++ rest) ≤ 58
      → respond (0xD4 ∷ 0x4A ∷ 0x01 ∷ 0x00 ∷ []) ≡ 0xD5 ∷ 0x4B ∷ one_target atqa0 atqa1 sak uid rest
      → (pn532_find_target spi uid_buf_len s).0 ≡ ok (uid, sak)
  unfolding pn532_find_target
  pn532_find_target-found uid rest atqa0 atqa1 sak uid_buf_len s room fits e =
      let reply = one_target atqa0 atqa1 sak uid rest in
      let answer =
        cmd-accepted 0x4A (0x01 ∷ 0x00 ∷ []) reply 64 s (omega arith) (omega (arith, fits))
          (omega (arith, fits)) e in
      let there =
        then_yields (cmd spi 0x4A (0x01 ∷ 0x00 ∷ []) 64) (λ r s'. (target_of uid_buf_len r, s')) s
          reply answer in
      ap (λ r. r.0) there ∙ target_of-one uid_buf_len atqa0 atqa1 sak uid rest room
