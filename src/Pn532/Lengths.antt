-- ===== src/Pn532/Lengths.antt =====
-- components/pn532/pn532.c: the lengths of an APDU and of its answer.
use osdp_reader_test_project.Common.{
  ℕ, ◌+◌, ◌≤◌, ◌<◌, ◌≡◌, refl, Bool, true, false, List, ◌∷◌, length, length-drop, ltb, arith,
  if◌then◌else◌,
}
use osdp_reader_test_project.Esp.{Outcome, err, invalid_size}
use osdp_reader_test_project.Io.{then_err, Yields, Yields-after}
use osdp_reader_test_project.Pn532.{Spi, cmd, send_frame, data_of, pn532_apdu_exchange}

module _ {S : Type 0} (spi : Spi S) where
  data_of-le : (n : ℕ) (r : List ℕ) (s : S) → Yields (λ xs _. length xs ≤ n) (data_of n r, s)
  unfolding data_of
  data_of-le n r s = ground (arith, length-drop {0} 1 r)

  send_frame_long :
      (body : List ℕ) (s : S) → 254 < length body → send_frame spi body s ≡ (err invalid_size, s)
  unfolding send_frame
  send_frame_long body s long =
      let e : ltb 254 (length body) ≡ true = ground (arith, long) in rw e refl

  too_long :
      (tx : List ℕ) (s : S)
      → 252 < length tx + 1
      → length tx ≤ 252
      → cmd spi 0x40 (0x01 ∷ tx) 264 s ≡ (err invalid_size, s)
  unfolding cmd
  too_long tx s lo hi =
      let fits : ltb 254 (length (0x01 ∷ tx)) ≡ false = ground (arith, hi) in
      rw fits (
        then_err (send_frame spi (0xD4 ∷ 0x40 ∷ 0x01 ∷ tx)) _ s s invalid_size
          (send_frame_long (0xD4 ∷ 0x40 ∷ 0x01 ∷ tx) s (omega (arith, lo))))

  if_both : {A : Type 0} (c : Bool) {x y : A} → (c ≡ false → y ≡ x) → (if c then x else y) ≡ x
  if_both true e = refl
  if_both false e = e refl

  -- An exchange never returns more bytes than the caller has room for; an APDU of 252 bytes, which
  -- the first check admits, is refused by the frame, and one that is longer by the check itself:
  -- nothing is sent.
  pub length-apdu_exchange :
      (tx : List ℕ) (n : ℕ) (s : S)
      → Yields (λ xs _. length xs ≤ n) (pn532_apdu_exchange spi tx n s)
        × (252 ≤ length tx → pn532_apdu_exchange spi tx n s ≡ (err invalid_size, s))
  unfolding pn532_apdu_exchange
  length-apdu_exchange tx n s = (
    either n (ltb 252 (length tx)) _ (
        Yields-after (λ xs _. length xs ≤ n) (cmd spi 0x40 (0x01 ∷ tx) 264) _ s
          (λ r s'. data_of-le n r s')),
    λ long. if_both (ltb 252 (length tx)) λ short.
        then_err (cmd spi 0x40 (0x01 ∷ tx) 264) _ s s invalid_size
          (too_long tx s (omega arith) (ground (arith, short))),
  )
    where
      either :
          (n : ℕ) (c : Bool) (y : Outcome (List ℕ) × S)
          → Yields (λ xs _. length xs ≤ n) y
          → Yields (λ xs _. length xs ≤ n) (if c then (err invalid_size, s) else y)
      either n true y h = tt
      either n false y h = h
