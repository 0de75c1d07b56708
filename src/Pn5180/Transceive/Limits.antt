-- ===== src/Pn5180/Transceive/Limits.antt =====
-- components/pn5180/pn5180_transceive.c: the sizes of what is read.
use osdp_reader_test_project.Common.{
  ℕ, ◌≤◌, ◌≡◌, inl, inr, false, not, List, [], ◌∷◌, length, ltb, ◌==◌, bit_and, arith, Bool-cases,
}
use osdp_reader_test_project.Io.{Yields, Yields-after, Yields-weaken}
use osdp_reader_test_project.Pn5180.Spi.{Pins, length-pn5180_send_command, pn5180_read_register}
use osdp_reader_test_project.Pn5180.Transceive.{pn5180_wait_irq, fetch, pn5180_read_data}

module _ {S : Type 0} (pins : Pins S)
    (short : (sent : List ℕ) (n : ℕ) (s : S)
      → Yields (λ r _. length r ≤ n) (pins.transfer sent n s)) where
  length-fetch :
      (buf_len rx_status : ℕ) (s : S)
      → Yields (λ r _. length r ≤ buf_len) (fetch pins buf_len rx_status s)
  unfolding fetch
  length-fetch buf_len rx_status s = elim (Bool-cases (not (bit_and rx_status 0x60000 == 0))) [
    | inl e ↦
        rw e
          (elim (Bool-cases (bit_and rx_status 0x20000 == 0)) [ inl q ↦ rw q tt | inr q ↦ rw q tt ])
    | inr e ↦ elim (Bool-cases (ltb buf_len (bit_and rx_status 0x1FF))) [
      | inl q ↦ rw (e, q) tt
      | inr q ↦
          rw (e, q)
            (Yields-weaken (λ r _. length r ≤ bit_and rx_status 0x1FF) _
              (λ r _ h. omega (arith, h, not_less q)) _
              (length-pn5180_send_command pins short (0x0A ∷ 0x00 ∷ []) (bit_and rx_status 0x1FF)
                s))
    ]
  ]
    where
      not_less : ltb buf_len (bit_and rx_status 0x1FF) ≡ false → bit_and rx_status 0x1FF ≤ buf_len
      not_less q = ground (arith, q)

  -- However many bytes RX_STATUS announces, a read that succeeds returns no more than the buffer
  -- takes, if a transaction returns no more than it was asked for.
  pub length-pn5180_read_data :
      (buf_len : ℕ) (s : S) → Yields (λ r _. length r ≤ buf_len) (pn5180_read_data pins buf_len s)
  unfolding pn5180_read_data
  length-pn5180_read_data buf_len s = Yields-after _ (pn5180_wait_irq pins 0x01 50) _ s λ _ s₁.
      Yields-after _ (pn5180_read_register pins 0x13) _ s₁
        λ rx_status s₂. length-fetch buf_len rx_status s₂
