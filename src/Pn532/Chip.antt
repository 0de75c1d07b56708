-- ===== src/Pn532/Chip.antt =====
-- components/pn532/pn532.c: a chip at the other end of the SPI bus, which takes frames, polls of
-- its status, and reads, as that file codes them.
pub mod Link
pub mod Frames
pub mod Answers
use osdp_reader_test_project.Common.{
  ℕ, zero, suc, ◌+◌, ◌-◌, ◌≤◌, ◌<◌, ◌≡◌, refl, ap, ◌∙◌, sym, Bool, true, false, ◌&&◌, Option, none,
  some, List, [], ◌∷◌, ◌++◌, length, take, drop, get_or, leb, ◌==◌, if◌then◌else◌, mem_eq, arith,
}
use osdp_reader_test_project.Common.Bytes.{u8}
use osdp_reader_test_project.Esp.{Outcome, ok}
use osdp_reader_test_project.Pn532.{Spi, sum_loop, frame_of}

-- The chip select, and what the chip answers to the bytes that follow.
pub data Line : Type 0 where
  closed opened status : Line
  reading : List ℕ → Line

-- The line, the frames that wait to be read, and for how many polls the next is not ready.
pub record Chip : Type 0 where
  pub line : Line
  pub pending : List (List ℕ)
  pub busy : ℕ

abbrev pub chip : Line → List (List ℕ) → ℕ → Chip
chip line pending busy = record { line = line; pending = pending; busy = busy }

abbrev pub ack : List ℕ
ack = 0x00 ∷ 0x00 ∷ 0xFF ∷ 0x00 ∷ 0xFF ∷ 0x00 ∷ []

abbrev pub one_less : ℕ → ℕ
one_less zero = zero
one_less (suc n) = n

-- The body of a frame whose start code, length and checksums are right.
pub body_of : List ℕ → Option (List ℕ)
body_of buf =
    let len = get_or buf 4 0 in
    let rest = drop 6 buf in
    if mem_eq (take 4 buf) (0x01 ∷ 0x00 ∷ 0x00 ∷ 0xFF ∷ [])
      && (u8 (len + get_or buf 5 0) == 0)
      && leb (len + 2) (length rest)
      && (u8 (sum_loop 0 (take (len + 1) rest)) == 0)
    then some (take len rest)
    else none

-- The chip select ends what was on the line.
abbrev pub select : Bool → Chip → Chip
select true c = record c { line = closed }
select false c = record c { line = opened }

abbrev pub status_byte : List (List ℕ) → ℕ → ℕ
status_byte [] busy = 0
status_byte (_ ∷ _) zero = 1
status_byte (_ ∷ _) (suc busy) = 0

module _ (delay : ℕ) (respond : List ℕ → List ℕ) where
  -- A byte each way.
  pub clock_line : Line → ℕ → Chip → ℕ × Chip
  clock_line closed x c = (0, c)
  clock_line opened x c =
      if x == 0x02
      then (0, record c { line = status })
      else if x == 0x03
      then (0, elim c.pending [ [] ↦ c | f ∷ fs ↦ chip (reading f) fs delay ])
      else (0, c)
  clock_line status x c = (status_byte c.pending c.busy, record c { busy = one_less c.busy })
  clock_line (reading []) x c = (0, c)
  clock_line (reading (b ∷ bs)) x c = (b, record c { line = reading bs })

  pub clock : ℕ → Chip → ℕ × Chip
  clock x c = clock_line c.line x c

  -- A frame that is right is acknowledged and answered; the frames have one format in both
  -- directions, but for the direction byte.
  pub receive : List ℕ → Chip → Chip
  receive buf c = elim (body_of buf) [
    | none ↦ c
    | some body ↦ record c { pending = ack ∷ drop 1 (frame_of (respond body)) ∷ []; busy = delay }
  ]

  -- What the driver relies on of the bus, where `view` is the chip at its other end: each call
  -- reaches the chip, and a polling loop of 50 ms or more has rounds enough.
  pub record IsPn532 {S : Type 0} (spi : Spi S) (view : S → Chip) : Type 0 where
    pub selects : (level : Bool) (s : S) → view (spi.set_cs level s) ≡ select level (view s)
    pub answers : (x : ℕ) (s : S) → (spi.xfer_byte x s).0 ≡ (clock x (view s)).0
    pub clocks : (x : ℕ) (s : S) → view (spi.xfer_byte x s).1 ≡ (clock x (view s)).1
    pub transmits :
        (buf : List ℕ) (s : S)
        → (s' : S) × (spi.transmit buf s ≡ (ok tt, s')) × (view s' ≡ receive buf (view s))
    pub has_time : (ms : ℕ) (s : S) → 50 ≤ ms → delay < spi.rounds ms s
