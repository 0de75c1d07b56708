-- ===== src/Pn532/Chip/Link.antt =====
-- components/pn532/pn532.c: the steps of a command, over a chip at the other end of the bus.
use osdp_reader_test_project.Common.{
  ℕ, zero, suc, ◌≤◌, ◌<◌, ◌≡◌, refl, ap, ◌∙◌, sym, Bool, true, false, List, [], ◌∷◌, ◌++◌, length,
  ◌==◌, if◌then◌else◌, mem_eq, arith, bit_and,
}
use osdp_reader_test_project.Esp.{Outcome, ok}
use mathlib.Core.Path.{subst}
use osdp_reader_test_project.Io.{then_yields}
use osdp_reader_test_project.Pn532.{
  Spi, read_bytes, read_status, wait_loop, wait_ready, take_ack, read_ack,
}
use osdp_reader_test_project.Pn532.Chip.{
  Line, closed, reading, Chip, chip, ack, one_less, status_byte, clock, clock_line, select, IsPn532,
}

module _ {S : Type 0} {spi : Spi S} {view : S → Chip} {delay : ℕ} {respond : List ℕ → List ℕ}
    (laws : IsPn532 delay respond spi view) where
  pub exchanged :
      (x y : ℕ) (s : S) {c c' : Chip}
      → view s ≡ c
      → clock delay respond x c ≡ (y, c')
      → ((spi.xfer_byte x s).0 ≡ y) × (view (spi.xfer_byte x s).1 ≡ c')
  exchanged x y s e q = (
    laws.answers x s ∙ ap (λ c. (clock delay respond x c).0) e ∙ ap (λ r. r.0) q,
    laws.clocks x s ∙ ap (λ c. (clock delay respond x c).1) e ∙ ap (λ r. r.1) q,
  )

  pub selected :
      (level : Bool) (s : S) {c : Chip} → view s ≡ c → view (spi.set_cs level s) ≡ select level c
  selected level s e = laws.selects level s ∙ ap (select level) e

  pub read_bytes-reading :
      (bs rest : List ℕ) (fs : List (List ℕ)) (n : ℕ) (s : S)
      → view s ≡ chip (reading (bs ++ rest)) fs n
      → ((read_bytes spi (length bs) s).0 ≡ bs)
        × (view (read_bytes spi (length bs) s).1 ≡ chip (reading rest) fs n)
  unfolding read_bytes clock clock_line
  read_bytes-reading [] rest fs n s e = (refl, e)
  read_bytes-reading (b ∷ bs) rest fs n s e =
      let (got, seen) = exchanged 0x00 b s e refl in
      let (xs, last) = read_bytes-reading bs rest fs n (spi.xfer_byte 0x00 s).1 seen in
      (rw (got, xs) refl, last)

  -- The direction byte of a read starts the next frame.
  pub started :
      (l : Line) (f : List ℕ) (fs : List (List ℕ)) (n : ℕ) (s : S)
      → view s ≡ chip l (f ∷ fs) n
      → view (spi.xfer_byte 0x03 (spi.set_cs false s)).1 ≡ chip (reading f) fs delay
  unfolding clock clock_line
  started l f fs n s e = (exchanged 0x03 0 (spi.set_cs false s) (selected false s e) refl).1

  read_status-polled :
      (l : Line) (f : List ℕ) (fs : List (List ℕ)) (n : ℕ) (s : S)
      → view s ≡ chip l (f ∷ fs) n
      → ((read_status spi s).0 ≡ status_byte (f ∷ fs) n)
        × (view (read_status spi s).1 ≡ chip closed (f ∷ fs) (one_less n))
  unfolding read_status clock clock_line
  read_status-polled l f fs n s e =
      let s₁ = (spi.xfer_byte 0x02 (spi.set_cs false s)).1 in
      let (_, asked) = exchanged 0x02 0 (spi.set_cs false s) (selected false s e) refl in
      let (got, told) = exchanged 0x00 (status_byte (f ∷ fs) n) s₁ asked refl in
      (got, selected true (spi.xfer_byte 0x00 s₁).1 told)

  decided : Outcome (Unit {0}) × S → S → ℕ → Outcome (Unit {0}) × S
  decided later s' st = if bit_and st 0x01 == 0 then later else (ok tt, s')

  IsReady : List ℕ → List (List ℕ) → Outcome (Unit {0}) × S → Type 0
  IsReady f fs r = (r.0 ≡ ok tt) × (view r.1 ≡ chip closed (f ∷ fs) 0)

  -- A poll finds the chip ready in the end, if there are more rounds than it is busy for.
  pub wait_loop-ready :
      (rounds : ℕ) (l : Line) (f : List ℕ) (fs : List (List ℕ)) (n : ℕ) (s : S)
      → n < rounds
      → view s ≡ chip l (f ∷ fs) n
      → ((wait_loop spi rounds s).0 ≡ ok tt)
        × (view (wait_loop spi rounds s).1 ≡ chip closed (f ∷ fs) 0)
  unfolding wait_loop decided IsReady
  wait_loop-ready zero l f fs n s lt e = absurd (omega arith)
  wait_loop-ready (suc rounds) l f fs zero s lt e =
      let (got, told) = read_status-polled l f fs 0 s e in
      subst (IsReady f fs)
        (ap (decided (wait_loop spi rounds (read_status spi s).1) (read_status spi s).1) (sym got))
        (refl, told)
  wait_loop-ready (suc rounds) l f fs (suc n) s lt e =
      let (got, told) = read_status-polled l f fs (suc n) s e in
      subst (IsReady f fs)
        (ap (decided (wait_loop spi rounds (read_status spi s).1) (read_status spi s).1) (sym got))
        (wait_loop-ready rounds closed f fs n (read_status spi s).1 (omega arith) told)

  pub wait_ready-ready :
      (ms : ℕ) (l : Line) (f : List ℕ) (fs : List (List ℕ)) (s : S)
      → 50 ≤ ms
      → view s ≡ chip l (f ∷ fs) delay
      → ((wait_ready spi ms s).0 ≡ ok tt) × (view (wait_ready spi ms s).1 ≡ chip closed (f ∷ fs) 0)
  unfolding wait_ready
  wait_ready-ready ms l f fs s long e =
      wait_loop-ready (spi.rounds ms s) l f fs delay s (laws.has_time ms s long) e

  take_ack-taken :
      (l : Line) (fs : List (List ℕ)) (n : ℕ) (s : S)
      → view s ≡ chip l (ack ∷ fs) n
      → ((take_ack spi s).0 ≡ ok tt) × (view (take_ack spi s).1 ≡ chip closed fs delay)
  unfolding take_ack mem_eq
  take_ack-taken l fs n s e =
      let s₁ = (spi.xfer_byte 0x03 (spi.set_cs false s)).1 in
      let (got, last) = read_bytes-reading ack [] fs delay s₁ (started l ack fs n s e) in
      (rw got refl, selected true (read_bytes spi 6 s₁).1 last)

  pub read_ack-read :
      (l : Line) (fs : List (List ℕ)) (s : S)
      → view s ≡ chip l (ack ∷ fs) delay
      → ((read_ack spi s).0 ≡ ok tt) × (view (read_ack spi s).1 ≡ chip closed fs delay)
  unfolding read_ack
  read_ack-read l fs s e =
      let (waited, ready) = wait_ready-ready 50 l ack fs s (omega arith) e in
      let s₁ = (wait_ready spi 50 s).1 in
      let (taken, left) = take_ack-taken closed fs 0 s₁ ready in
      let there = then_yields (wait_ready spi 50) (λ _. take_ack spi) s tt waited in
      (ap (λ r. r.0) there ∙ taken, ap (λ r. view r.1) there ∙ left)
