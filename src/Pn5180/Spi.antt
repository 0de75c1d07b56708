-- ===== src/Pn5180/Spi.antt =====
-- components/pn5180/pn5180_spi.c: host commands and registers.
use osdp_reader_test_project.Common.{
  ℕ, zero, suc, ◌≤◌, inl, inr, arith, length, Bool-cases, Bool, List, [], ◌∷◌, get_or, ◌==◌,
  if◌then◌else◌,
}
use osdp_reader_test_project.Common.Bytes.{le32, from_le32}
use osdp_reader_test_project.Esp.{ok, err, esp_fail, timeout}
use osdp_reader_test_project.Io.{Io, ◌then_with◌, or_else, Yields, Yields-after}

-- What the driver uses of ESP-IDF. `S` is the state of the bus, the pins, the timer and the chip:
-- the BUSY pin, a transaction (what is sent, how many bytes are received), the bring-up of pins
-- and bus, and how many more rounds a polling loop has before a deadline in milliseconds.
pub record Pins (S : Type 0) : Type 0 where
  pub busy : S → Bool × S
  pub transfer : List ℕ → ℕ → Io S (List ℕ)
  pub bring_up : Io S (Unit {0})
  pub rounds : ℕ → S → ℕ

module _ {S : Type 0} (pins : Pins S) where
  pub busy_loop : ℕ → Io S (Unit {0})
  busy_loop zero s = let (high, s') = pins.busy s in (if high then err timeout else ok tt, s')
  busy_loop (suc left) s =
      let (high, s') = pins.busy s in
      let rest = busy_loop left s' in if high then rest else (ok tt, s')

  pub wait_busy_low : ℕ → Io S (Unit {0})
  wait_busy_low timeout_ms s = busy_loop (pins.rounds timeout_ms s) s

  -- `resp_buf` is 0 where `resp` is NULL.
  pub pn5180_send_command : List ℕ → ℕ → Io S (List ℕ)
  pn5180_send_command frame resp_buf = or_else timeout (wait_busy_low 50) then_with λ _.
      pins.transfer frame 0 then_with λ _. or_else timeout (wait_busy_low 50) then_with λ _ s.
      if resp_buf == 0 then (ok [], s) else pins.transfer [] resp_buf s

  pub pn5180_write_register : ℕ → ℕ → Io S (List ℕ)
  pn5180_write_register reg value = pn5180_send_command (0x00 ∷ reg ∷ le32 value) 0

  pub pn5180_write_register_or_mask : ℕ → ℕ → Io S (List ℕ)
  pn5180_write_register_or_mask reg mask = pn5180_send_command (0x01 ∷ reg ∷ le32 mask) 0

  pub pn5180_write_register_and_mask : ℕ → ℕ → Io S (List ℕ)
  pn5180_write_register_and_mask reg mask = pn5180_send_command (0x02 ∷ reg ∷ le32 mask) 0

  pub pn5180_read_register : ℕ → Io S ℕ
  pn5180_read_register reg = pn5180_send_command (0x04 ∷ reg ∷ []) 4 then_with λ r s.
      (ok (from_le32 (get_or r 0 0) (get_or r 1 0) (get_or r 2 0) (get_or r 3 0)), s)

  -- The bring-up, a sign of life, and the interrupts that the driver polls for.
  pub pn5180_chip_init : Io S (Unit {0})
  pn5180_chip_init = or_else esp_fail pins.bring_up then_with λ _.
      or_else esp_fail (pn5180_read_register 0x24) then_with λ sys s.
      if sys == 0xFFFFFFFF
      then (err esp_fail, s)
      else (ok tt, (pn5180_write_register 0x01 0xC7 s).1)

module _ {S : Type 0} (pins : Pins S)
    (short : (sent : List ℕ) (n : ℕ) (s : S)
      → Yields (λ r _. length r ≤ n) (pins.transfer sent n s)) where
  -- A host command returns no more bytes than were asked for.
  pub length-pn5180_send_command :
      (frame : List ℕ) (n : ℕ) (s : S)
      → Yields (λ r _. length r ≤ n) (pn5180_send_command pins frame n s)
  unfolding pn5180_send_command
  length-pn5180_send_command frame n s =
      Yields-after _ (or_else timeout (wait_busy_low pins 50)) _ s λ _ s₁.
        Yields-after _ (pins.transfer frame 0) _ s₁
          λ _ s₂. Yields-after _ (or_else timeout (wait_busy_low pins 50)) _ s₂ λ _ s₃. read s₃
    where
      read :
          (s : S)
          → Yields (λ r _. length r ≤ n) (if n == 0 then (ok [], s) else pins.transfer [] n s)
      read s = elim (Bool-cases (n == 0)) [
        | inl e ↦ rw e (omega arith)
        | inr e ↦ rw e (short [] n s)
      ]
