-- ===== src/Pn5180/Apdu/Chain.antt =====
-- components/pn5180/pn5180_iso14443.c: the exchange against what a card promises.
use osdp_reader_test_project.Common.{
  ℕ, ◌+◌, ◌-◌, ◌≤◌, ◌<◌, ◌≡◌, true, Option, some, List, [], ◌++◌, length,
}
use osdp_reader_test_project.Esp.{Outcome, ok}
use osdp_reader_test_project.Pn5180.Transceive.{Link}
use osdp_reader_test_project.Pn5180.Activate.{CardState, Device}
use osdp_reader_test_project.Pn5180.Apdu.{Loop, Progress, Next, finished, again, apdu_loop}
use osdp_reader_test_project.Pn5180.Apdu.Picc.{Picc, IsPicc}

-- The block numbers of the two sides are in step.
abbrev InStep : CardState → Picc → Type 0
InStep c p = (c.block_number < 2) × (p.number ≡ 1 - c.block_number)

module _ {S : Type 0} (link : Link S) (view : S → Picc) (size : ℕ) (respond : List ℕ → List ℕ)
    (picc : IsPicc size respond link view) (positive : 0 < size) (fits : size ≤ 259) (tx : List ℕ)
    (rx_buf : ℕ) where
  go : ℕ → Next → Loop (Device S) (List ℕ)
  go fuel (finished rx) d = (some (ok rx), d)
  go fuel (again x) d = apdu_loop link fuel tx rx_buf x d

  -- The exchange has returned these bytes, and both sides are ready for the next one.
  abbrev Returned : List ℕ → Option (Outcome (List ℕ)) × Device S → Type 0
  Returned rx r =
      (r.0 ≡ some (ok rx)) × InStep r.1.card (view r.1.chip) × ((view r.1.chip).received ≡ [])

  -- With fuel `n`, the card's answers with the rest of its response, which fits the buffer, are
  -- collected.
  abbrev Drains : ℕ → Type 0
  Drains n =
      (rest : List ℕ) (x : Progress) (d : Device S)
      → x.picc_chaining ≡ true
      → InStep d.card (view d.chip)
      → (view d.chip).to_send ≡ rest
      → 0 < length rest
      → length rest ≤ n
      → length x.rx + length rest ≤ rx_buf
      → Returned (x.rx ++ rest) (apdu_loop link n tx rx_buf x d)
