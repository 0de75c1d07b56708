-- ===== src/Pn5180/Apdu/Picc.antt =====
-- components/pn5180/pn5180_internal.h: a card that speaks the ISO 14443-4 blocks as that file
-- codes them.
use osdp_reader_test_project.Common.{
  ℕ, zero, suc, ◌+◌, ◌-◌, ◌≤◌, ◌<◌, ◌≡◌, refl, Bool, true, false, not, ◌&&◌, List, [], ◌∷◌, ◌++◌,
  length, take, drop, ltb, ◌==◌, bit_and, bit_or, arith, if◌then◌else◌,
}
use osdp_reader_test_project.Esp.{ok}
use osdp_reader_test_project.Pn5180.Transceive.{Link}

-- The card: its block number, the command that it has so far, the part of its response that it
-- has not sent, and the frame that it sends next.
pub record Picc : Type 0 where
  pub number : ℕ
  pub received : List ℕ
  pub to_send : List ℕ
  pub pending : List ℕ

module _ (size : ℕ) (respond : List ℕ → List ℕ) where
  -- The next block of a response, of `size` bytes at most, with the chaining bit if more follows.
  pub answer : ℕ → List ℕ → Picc
  answer n rest = record {
    number = n;
    received = [];
    to_send = drop size rest;
    pending = (if ltb size (length rest) then 0x12 + n else 0x02 + n) ∷ take size rest;
  }

  pub answer_more :
      (n : ℕ) (rest : List ℕ)
      → ltb size (length rest) ≡ true
      → (answer n rest).pending ≡ (0x12 + n) ∷ take size rest
  unfolding answer
  answer_more n rest e = rw e refl

  pub answer_end :
      (n : ℕ) (rest : List ℕ)
      → ltb size (length rest) ≡ false
      → (answer n rest).pending ≡ (0x02 + n) ∷ take size rest
  unfolding answer
  answer_end n rest e = rw e refl

  pub answer_state :
      (n : ℕ) (rest : List ℕ)
      → ((answer n rest).number ≡ n)
        × ((answer n rest).received ≡ [])
        × ((answer n rest).to_send ≡ drop size rest)
  unfolding answer
  answer_state n rest = (refl, refl, refl)

  -- An I-block toggles the number of the card. A chained one is acknowledged, and the last one
  -- answered. R(ACK) with the other number asks for the next block of the response.
  pub receive : List ℕ → Picc → Picc
  receive [] p = p
  receive (pcb ∷ inf) p =
      let n = 1 - p.number in
      if bit_and pcb 0xFE == 0x12
      then record p { number = n; received = p.received ++ inf; pending = (0x82 + n) ∷ [] }
      else if bit_and pcb 0xFE == 0x02
      then answer n (respond (p.received ++ inf))
      else if bit_and pcb 0xFE == 0x82 && not (bit_and pcb 0x01 == p.number)
      then answer n p.to_send
      else p

  pub receive_chained :
      (b : ℕ) (inf : List ℕ) (p : Picc)
      → b < 2
      → p.number ≡ 1 - b
      → receive (bit_or (bit_or 0x02 b) 0x10 ∷ inf) p
        ≡ record p { number = b; received = p.received ++ inf; pending = (0x82 + b) ∷ [] }
  unfolding receive
  receive_chained zero inf p small e = rw e refl
  receive_chained (suc zero) inf p small e = rw e refl
  receive_chained (suc (suc b)) inf p small e = absurd (omega arith)

  pub receive_last :
      (b : ℕ) (inf : List ℕ) (p : Picc)
      → b < 2
      → p.number ≡ 1 - b
      → receive (bit_or 0x02 b ∷ inf) p ≡ answer b (respond (p.received ++ inf))
  unfolding receive
  receive_last zero inf p small e = rw e refl
  receive_last (suc zero) inf p small e = rw e refl
  receive_last (suc (suc b)) inf p small e = absurd (omega arith)

  pub receive_ack :
      (b : ℕ) (p : Picc)
      → b < 2
      → p.number ≡ 1 - b
      → receive (bit_or 0x82 b ∷ []) p ≡ answer b p.to_send
  unfolding receive
  receive_ack zero p small e = rw e refl
  receive_ack (suc zero) p small e = rw e refl
  receive_ack (suc (suc b)) p small e = absurd (omega arith)

  -- What the protocol relies on of the chip and the field, where `view` is the card in them: a
  -- frame that the chip takes reaches the card, and the card's next frame is read.
  pub record IsPicc {S : Type 0} (link : Link S) (view : S → Picc) : Type 0 where
    pub sends :
        (frame : List ℕ) (s : S)
        → length frame ≤ 260
        → (s' : S) × (link.send_data frame 0 s ≡ (ok tt, s')) × (view s' ≡ receive frame (view s))
    pub reads :
        (n : ℕ) (s : S)
        → length (view s).pending ≤ n
        → (s' : S) × (link.read_data n s ≡ (ok (view s).pending, s')) × (view s' ≡ view s)
    pub keeps : (on : Bool) (s : S) → view (link.crc on s) ≡ view s
