-- ===== src/Pn532/Chip/Answers.antt =====
-- components/pn532/pn532.c: a command over a chip at the other end of the bus.
use osdp_reader_test_project.Common.{
  ℕ, ◌+◌, ◌-◌, ◌≤◌, ◌≡◌, refl, ap, ◌∙◌, sym, true, false, List, [], ◌∷◌, ◌++◌, length, drop, ◌==◌,
  ==_iff, arith, ltb,
}
use mathlib.Core.Path.{subst}
use osdp_reader_test_project.Common.Bytes.{u8}
use osdp_reader_test_project.Esp.{Outcome, ok}
use osdp_reader_test_project.Io.{Io, ◌then_with◌, then_yields}
use osdp_reader_test_project.Pn532.{
  Spi, sum_loop, frame_of, body_checks, read_bytes, take_body, take_response, read_response,
  read_ack, send_frame, wait_ready, accept_body, cmd,
}
use osdp_reader_test_project.Pn532.Chip.{
  Line, closed, opened, reading, Chip, chip, ack, receive, clock, clock_line, IsPn532,
}
use osdp_reader_test_project.Pn532.Chip.Link.{
  exchanged, selected, read_bytes-reading, started, wait_ready-ready, read_ack-read,
}
use osdp_reader_test_project.Pn532.Chip.Frames.{trailer, sum-closed, body_of-frame_of}

module _ {S : Type 0} {spi : Spi S} {view : S → Chip} {delay : ℕ} {respond : List ℕ → List ℕ}
    (laws : IsPn532 delay respond spi view) where
  abbrev header : ℕ → List ℕ
  header n = 0x00 ∷ 0x00 ∷ 0xFF ∷ u8 n ∷ u8 (0x100 - n) ∷ []

  -- A call ends with an outcome, and leaves the chip in a state.
  Got : {A : Type 0} → Outcome A → Chip → Outcome A × S → Type 0
  Got a c r = (r.0 ≡ a) × (view r.1 ≡ c)

  take_body-read :
      (buf_len : ℕ) (body : List ℕ) (fs : List (List ℕ)) (n : ℕ) (s : S)
      → length body ≤ 255
      → length body ≤ buf_len
      → view s ≡ chip (reading (body ++ trailer body)) fs n
      → Got (ok body) (chip closed fs n) (take_body spi buf_len (header (length body)) s)
  unfolding take_body body_checks Got clock clock_line
  take_body-read buf_len body fs n s short room e =
      let len : u8 (length body) ≡ length body = omega arith in
      let lcs : u8 (length body + u8 (0x100 - length body)) == 0 ≡ true =
        (==_iff _ 0).1 (omega arith) in
      let fits : ltb buf_len (length body) ≡ false = ground (arith, room) in
      let sum : u8 (sum_loop 0 body + u8 (0x100 - sum_loop 0 body)) == 0 ≡ true =
        (==_iff _ 0).1 (sum-closed body) in
      let (got, seen) = read_bytes-reading laws body (trailer body) fs n s e in
      let s₁ = (read_bytes spi (length body) s).1 in
      let (dcs, after) = exchanged laws 0x00 (u8 (0x100 - sum_loop 0 body)) s₁ seen refl in
      let s₂ = (spi.xfer_byte 0x00 s₁).1 in
      let (_, done) = exchanged laws 0x00 0x00 s₂ after refl in
      let s₃ = (spi.xfer_byte 0x00 s₂).1 in
      rw (len) (rw (lcs, fits, got, dcs, sum) (refl, selected laws true s₃ done))

  take_response-read :
      (l : Line) (buf_len : ℕ) (body : List ℕ) (fs : List (List ℕ)) (n : ℕ) (s : S)
      → length body ≤ 255
      → length body ≤ buf_len
      → view s ≡ chip l (drop 1 (frame_of body) ∷ fs) n
      → Got (ok body) (chip closed fs delay) (take_response spi buf_len s)
  unfolding take_response frame_of Got
  take_response-read l buf_len body fs n s short room e =
      let s₁ = (spi.xfer_byte 0x03 (spi.set_cs false s)).1 in
      let (hdr, seen) =
        read_bytes-reading laws (header (length body)) (body ++ trailer body) fs delay s₁
          (started laws l (drop 1 (frame_of body)) fs n s e) in
      rw hdr (take_body-read buf_len body fs delay (read_bytes spi 5 s₁).1 short room seen)

  -- One call after another.
  then-Got :
      {A B : Type 0} (m : Io S A) (f : A → Io S B) (s : S) (a : A) (b : Outcome B) (c d : Chip)
      → Got (ok a) c (m s)
      → (view (m s).1 ≡ c → Got b d (f a (m s).1))
      → Got b d ((m then_with f) s)
  unfolding Got
  then-Got m f s a b c d first rest =
      subst (Got b d) (sym (then_yields m f s a first.0)) (rest first.1)

  read_response-read :
      (l : Line) (ms buf_len : ℕ) (body : List ℕ) (s : S)
      → 50 ≤ ms
      → length body ≤ 255
      → length body ≤ buf_len
      → view s ≡ chip l (drop 1 (frame_of body) ∷ []) delay
      → Got (ok body) (chip closed [] delay) (read_response spi buf_len ms s)
  unfolding read_response Got
  read_response-read l ms buf_len body s long short room e =
      then-Got (wait_ready spi ms) (λ _. take_response spi buf_len) s tt (ok body)
        (chip closed (drop 1 (frame_of body) ∷ []) 0) (chip closed [] delay)
        (wait_ready-ready laws ms l (drop 1 (frame_of body)) [] s long e)
        (take_response-read closed buf_len body [] 0 (wait_ready spi ms s).1 short room)

  send_frame-sent :
      (l : Line) (fs : List (List ℕ)) (n : ℕ) (body : List ℕ) (s : S)
      → length body ≤ 254
      → view s ≡ chip l fs n
      → Got
          (ok tt)
          (chip closed (ack ∷ drop 1 (frame_of (respond body)) ∷ []) delay)
          (send_frame spi body s)
  unfolding send_frame Got receive
  send_frame-sent l fs n body s short e =
      let fits : ltb 254 (length body) ≡ false = ground (arith, short) in
      let (s', sent, seen) = laws.transmits (frame_of body) (spi.set_cs false s) in
      let arrived : view s' ≡ chip opened (ack ∷ drop 1 (frame_of (respond body)) ∷ []) delay =
        (seen
          ∙ ap (receive delay respond (frame_of body)) (selected laws false s {c = chip l fs n} e)
          ∙ rw (body_of-frame_of body short, receive) refl) in
      rw (fits, sent) (refl, selected laws true s' arrived)

  -- A command is answered as the chip answers it.
  pub cmd-answered :
      (cmd_code : ℕ) (params : List ℕ) (resp_buf_len : ℕ) (l : Line) (fs : List (List ℕ)) (n : ℕ)
      (s : S)
      → length params ≤ 252
      → length (respond (0xD4 ∷ cmd_code ∷ params)) ≤ 255
      → view s ≡ chip l fs n
      → ((cmd spi cmd_code params resp_buf_len s).0
          ≡ accept_body cmd_code resp_buf_len (respond (0xD4 ∷ cmd_code ∷ params)))
        × (view (cmd spi cmd_code params resp_buf_len s).1 ≡ chip closed [] delay)
  unfolding cmd Got
  cmd-answered cmd_code params resp_buf_len l fs n s short fits e =
      let body = 0xD4 ∷ cmd_code ∷ params in
      let reply = respond body in
      let small : ltb 254 (length params) ≡ false = ground (arith, short) in
      let sent = send_frame-sent l fs n body s (omega (arith, short)) e in
      let finish : List ℕ → Io S (List ℕ) = λ r s'. (accept_body cmd_code resp_buf_len r, s') in
      rw small (
        then-Got (send_frame spi body) _ s tt (accept_body cmd_code resp_buf_len reply) _
          (chip closed [] delay) sent
          (λ ready.
            then-Got (read_ack spi) _ (send_frame spi body s).1 tt
              (accept_body cmd_code resp_buf_len reply) _ (chip closed [] delay)
              (read_ack-read laws closed (drop 1 (frame_of reply) ∷ []) (send_frame spi body s).1
                ready)
              (λ acked.
                then-Got (read_response spi 270 1000) finish
                  (read_ack spi (send_frame spi body s).1).1 reply
                  (accept_body cmd_code resp_buf_len reply) _ (chip closed [] delay)
                  (read_response-read closed 1000 270 reply
                    (read_ack spi (send_frame spi body s).1).1 (omega arith) fits
                    (omega (arith, fits)) acked)
                  (λ done. (refl, done)))))
