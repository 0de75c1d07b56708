-- ===== src/Pn5180/Apdu/Waiting.antt =====
-- components/pn5180/pn5180_iso14443.c: a card that asks for more time.
use osdp_reader_test_project.Common.{
  ℕ, zero, suc, ◌<◌, ◌≡◌, refl, ap, ◌∙◌, true, false, ◌||◌, Option, none, List, [], ◌∷◌, length,
  get_or, ltb, arith, if◌then◌else◌,
}
use osdp_reader_test_project.Esp.{Outcome, ok, err, esp_fail}
use osdp_reader_test_project.Io.{◌then_with◌, or_else, then_ok, or_else_ok}
use osdp_reader_test_project.Pn5180.Transceive.{Link}
use osdp_reader_test_project.Pn5180.Activate.{Device}
use osdp_reader_test_project.Pn5180.Apdu.{
  once, at_start, next_frame, is_wtx, nonempty, grant_time, wtx_loop, exchange, round, apdu_loop,
  pn5180_iso14443_apdu,
}
use osdp_reader_test_project.Pn5180.Apdu.Blocks.{
  after_loop_ok, after_loop-none, once_ok, round-none, active_lem,
}

-- A card that answers every frame with a request for more time.
pub record AlwaysWaits {S : Type 0} (link : Link S) : Type 0 where
  pub takes : (frame : List ℕ) (s : S) → (s' : S) × (link.send_data frame 0 s ≡ (ok tt, s'))
  pub asks :
      (s : S)
      → (resp : List ℕ) × (s' : S) × (link.read_data 260 s ≡ (ok resp, s'))
        × (0 < length resp)
        × (is_wtx resp ≡ true)

module _ {S : Type 0} {link : Link S} (waits : AlwaysWaits link) where
  asks_again :
      (s : S)
      → (resp : List ℕ) × (s' : S) × ((link.read_data 260 then_with nonempty link) s
          ≡ (ok resp, s'))
        × (is_wtx resp ≡ true)
  unfolding nonempty
  asks_again s =
      let (resp, s', got, one, wtx) = waits.asks s in
      let full : ltb (length resp) 1 ≡ false = ground (arith, one) in
      (
        resp,
        s',
        then_ok (link.read_data 260) (nonempty link) s s' resp got
            ∙ ap (λ b. (if b then err esp_fail else ok resp, s')) full,
        wtx,
      )

  -- A frame out, and a request back.
  asked :
      (frame : List ℕ) (s : S)
      → (resp : List ℕ) × (s' : S) × ((or_else esp_fail (link.send_data frame 0) then_with λ _.
              link.read_data 260 then_with nonempty link)
            s
          ≡ (ok resp, s'))
        × (is_wtx resp ≡ true)
  asked frame s =
      let (s₁, sent) = waits.takes frame s in
      let (resp, s₂, got, wtx) = asks_again s₁ in
      (
        resp,
        s₂,
        then_ok (or_else esp_fail (link.send_data frame 0))
              (λ _. link.read_data 260 then_with nonempty link) s s₁ tt
              (or_else_ok (link.send_data frame 0) esp_fail s s₁ tt sent)
            ∙ got,
        wtx,
      )

  granted :
      (resp : List ℕ) (s : S)
      → (resp' : List ℕ) × (s' : S) × (grant_time link resp s ≡ (ok resp', s'))
        × (is_wtx resp' ≡ true)
  unfolding grant_time nonempty
  granted resp s =
      let reply = get_or resp 0 0 ∷ get_or resp 1 1 ∷ [] in
      let (s₁, sent) = waits.takes reply s in
      let (resp', s₂, got, one, wtx) = waits.asks s₁ in
      let full : ltb (length resp') 1 ≡ false = ground (arith, one) in
      (
        resp',
        s₂,
        then_ok (or_else esp_fail (link.send_data reply 0 then_with λ _. link.read_data 260))
              (nonempty link) s s₂ resp'
              (or_else_ok (link.send_data reply 0 then_with λ _. link.read_data 260) esp_fail s s₂
                resp'
                (then_ok (link.send_data reply 0) (λ _. link.read_data 260) s s₁ tt sent ∙ got))
            ∙ ap (λ b. (if b then err esp_fail else ok resp', s₂)) full,
        wtx,
      )

  wtx_loop-none :
      (fuel : ℕ) (resp : List ℕ) (s : S) → is_wtx resp ≡ true → (wtx_loop link fuel resp s).0 ≡ none
  unfolding wtx_loop
  wtx_loop-none zero resp s e = rw e refl
  wtx_loop-none (suc fuel) resp s e =
      let (resp', s', got, wtx) = granted resp s in
      let again = wtx_loop-none fuel resp' s' wtx in
      rw
        (
          e,
          after_loop_ok (once (grant_time link resp)) (wtx_loop link fuel) s s' resp'
              (once_ok _ s s' resp' got),
        )
        again

  exchange-none : (fuel : ℕ) (frame : List ℕ) (s : S) → (exchange link fuel frame s).0 ≡ none
  unfolding exchange
  exchange-none fuel frame s =
      let (resp, s', got, wtx) = asked frame s in
      ap (λ (y : Option (Outcome (List ℕ)) × S). y.0)
        (after_loop_ok _ (wtx_loop link fuel) s s' resp (once_ok _ s s' resp got))
      ∙ wtx_loop-none fuel resp s' wtx

  loop_none :
      (fuel : ℕ) (tx : List ℕ) (rx_buf : ℕ) (d : Device S)
      → 0 < length tx
      → (apdu_loop link fuel tx rx_buf at_start d).0 ≡ none
  unfolding apdu_loop
  loop_none zero tx rx_buf d one =
      let on : (ltb 0 (length tx) || false) ≡ true = ground (arith, one) in rw on refl
  loop_none (suc fuel) tx rx_buf d one =
      let on : (ltb 0 (length tx) || false) ≡ true = ground (arith, one) in
      rw on (
        after_loop-none (round link fuel tx rx_buf at_start) _ d (
          round-none link tx rx_buf at_start d fuel
            (exchange-none fuel (next_frame d.card tx at_start).0 d.chip)))

  -- With a card that answers every frame with a request for more time, the exchange of a command
  -- of a byte or more never returns: whatever the fuel, it is used up.
  pub pn5180_iso14443_apdu-AlwaysWaits :
      (fuel : ℕ) (tx : List ℕ) (rx_buf : ℕ) (d : Device S)
      → d.card.iso14443_4_active ≡ true
      → 0 < length tx
      → (pn5180_iso14443_apdu link fuel tx rx_buf d).0 ≡ none
  pn5180_iso14443_apdu-AlwaysWaits fuel tx rx_buf d active one =
      ap (λ (y : Option (Outcome (List ℕ)) × Device S). y.0)
        (active_lem link tx rx_buf at_start d fuel active)
      ∙ loop_none fuel tx rx_buf (record d { chip = link.crc true d.chip }) one
