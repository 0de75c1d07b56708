-- ===== src/Pn5180/Apdu.antt =====
-- components/pn5180/pn5180_iso14443.c: the exchange of an APDU in ISO 14443-4 blocks.
pub mod Picc
pub mod Blocks
pub mod Chain
pub mod Waiting
use osdp_reader_test_project.Common.{
  ℕ, zero, suc, ◌+◌, ◌-◌, Bool, true, false, not, ◌&&◌, ◌||◌, Option, none, some, List, [], ◌∷◌,
  ◌++◌, length, take, drop, slice, get_or, ltb, ◌==◌, bit_and, bit_or, bit_xor, if◌then◌else◌,
}
use osdp_reader_test_project.Esp.{Outcome, ok, err, fault, esp_fail, no_mem, invalid_state}
use osdp_reader_test_project.Io.{Io, ◌then_with◌, or_else}
use osdp_reader_test_project.Pn5180.Transceive.{Link}
use osdp_reader_test_project.Pn5180.Activate.{CardState, Device}

-- A call that may go on for ever, with fuel: `none` is the call that has not returned yet.
abbrev pub Loop : Type 0 → Type 0 → Type 0
Loop S A = S → Option (Outcome A) × S

pub after_loop : {S A B : Type 0} → Loop S A → (A → Loop S B) → Loop S B
after_loop m f s =
    let (r, s') = m s in
    elim r [
      | none ↦ (none, s')
      | some o ↦ elim o [ ok a ↦ f a s' | err e ↦ (some (err e), s') | fault ↦ (some fault, s') ]
    ]

pub once : {S A : Type 0} → Io S A → Loop S A
once m s = let (r, s') = m s in (some r, s')

-- The locals of the loop: `tx_sent`, the bytes in `rx`, `picc_chaining` and `last_pcb_sent`.
pub record Progress : Type 0 where
  pub tx_sent : ℕ
  pub rx : List ℕ
  pub picc_chaining : Bool
  pub last_pcb_sent : ℕ

abbrev pub at_start : Progress
at_start = record { tx_sent = 0; rx = []; picc_chaining = false; last_pcb_sent = 0 }

-- What a round of the loop ends with: the return of the bytes in `rx`, or another round.
pub data Next : Type 0 where
  finished : List ℕ → Next
  again : Progress → Next

-- How many bytes the next I-block takes.
pub chunk_of : CardState → List ℕ → Progress → ℕ
chunk_of c tx x =
    let chunk = length tx - x.tx_sent in if ltb c.fsc_max (chunk + 1) then c.fsc_max - 1 else chunk

pub block_pcb : CardState → List ℕ → Progress → ℕ
block_pcb c tx x =
    let pcb = bit_or 0x02 c.block_number in
    if ltb (x.tx_sent + chunk_of c tx x) (length tx) then bit_or pcb 0x10 else pcb

-- The frame of a round, and the locals after it: R(ACK) for a segment, or the next I-block.
pub next_frame : CardState → List ℕ → Progress → List ℕ × Progress
next_frame c tx x =
    let chunk = chunk_of c tx x in
    let pcb = block_pcb c tx x in
    if x.picc_chaining then (bit_or 0x82 c.block_number ∷ [], x) else (
      pcb ∷ slice x.tx_sent chunk tx,
      record x { tx_sent = x.tx_sent + chunk; last_pcb_sent = pcb },
    )

-- A request for more time: S(WTX).
unfoldable pub is_wtx : List ℕ → Bool
is_wtx resp = bit_and (get_or resp 0 0) 0xC0 == 0xC0 && (bit_and (get_or resp 0 0) 0x30 == 0x30)

pub toggled : CardState → CardState
toggled c = record c { block_number = bit_xor c.block_number 1 }

-- What the block `resp`, which is no request for time, leads to.
pub take_block : ℕ → Progress → List ℕ → CardState → Outcome Next × CardState
take_block rx_buf x resp c =
    let pcb_rx = get_or resp 0 0 in
    let payload_len = length resp - 1 in
    let rx = x.rx ++ drop 1 resp in
    if bit_and pcb_rx 0xC0 == 0x80
    then (if not (bit_and pcb_rx 0x20 == 0)
        then (err esp_fail, c)
        else if not (bit_and x.last_pcb_sent 0x10 == 0)
        then (ok (again x), toggled c)
        else (err esp_fail, c))
    else if bit_and pcb_rx 0xC0 == 0x00
    then (if ltb rx_buf (length x.rx + payload_len)
        then (err no_mem, toggled c)
        else if bit_and pcb_rx 0x10 == 0
        then (ok (finished rx), toggled c)
        else (ok (again (record x { rx = rx; picc_chaining = true })), toggled c))
    else (err esp_fail, c)

module _ {S : Type 0} (link : Link S) where
  -- A response of a byte at least.
  pub nonempty : List ℕ → Io S (List ℕ)
  nonempty resp s = (if ltb (length resp) 1 then err esp_fail else ok resp, s)

  -- A round of the WTX loop: the same value back, and the next response.
  pub grant_time : List ℕ → Io S (List ℕ)
  grant_time resp =
      or_else esp_fail (
        link.send_data (get_or resp 0 0 ∷ get_or resp 1 1 ∷ []) 0 then_with λ _. link.read_data 260)
      then_with nonempty

  pub wtx_loop : ℕ → List ℕ → Loop S (List ℕ)
  wtx_loop zero resp s = if is_wtx resp then (none, s) else (some (ok resp), s)
  wtx_loop (suc fuel) resp s =
      let rest = after_loop (once (grant_time resp)) (wtx_loop fuel) s in
      if is_wtx resp then rest else (some (ok resp), s)

  -- A frame out, and the block that comes back once the card needs no more time.
  pub exchange : ℕ → List ℕ → Loop S (List ℕ)
  exchange fuel frame =
      after_loop
        (once (
          or_else esp_fail (link.send_data frame 0) then_with λ _.
          link.read_data 260 then_with nonempty))
        (wtx_loop fuel)

  -- A round of the loop.
  pub round : ℕ → List ℕ → ℕ → Progress → Loop (Device S) Next
  round fuel tx rx_buf x d =
      let (frame, x') = next_frame d.card tx x in
      let (r, s) = exchange fuel frame d.chip in
      elim r [
        | none ↦ (none, record d { chip = s })
        | some o ↦ elim o [
          | err e ↦ (some (err e), record d { chip = s })
          | fault ↦ (some fault, record d { chip = s })
          | ok resp ↦
              let (n, c) = take_block rx_buf x' resp d.card in
              (some n, record { chip = s; card = c })
        ]
      ]

  -- `while (tx_sent < tx_len || picc_chaining)`, with fuel for it and for the loop inside.
  pub apdu_loop : ℕ → List ℕ → ℕ → Progress → Loop (Device S) (List ℕ)
  apdu_loop zero tx rx_buf x d =
      if ltb x.tx_sent (length tx) || x.picc_chaining then (none, d) else (some (ok x.rx), d)
  apdu_loop (suc fuel) tx rx_buf x d =
      let rest =
        after_loop (round fuel tx rx_buf x)
          (λ n. elim n [
            | finished rx ↦ λ d'. (some (ok rx), d')
            | again x' ↦ apdu_loop fuel tx rx_buf x'
          ])
          d in
      if ltb x.tx_sent (length tx) || x.picc_chaining then rest else (some (ok x.rx), d)

  pub pn5180_iso14443_apdu : ℕ → List ℕ → ℕ → Loop (Device S) (List ℕ)
  pn5180_iso14443_apdu fuel tx rx_buf d =
      if not d.card.iso14443_4_active
      then (some (err invalid_state), d)
      else apdu_loop fuel tx rx_buf at_start (record d { chip = link.crc true d.chip })
