-- ===== src/Pn5180/Apdu/Blocks.antt =====
-- components/pn5180/pn5180_iso14443.c: a round of the exchange with such a card.
use osdp_reader_test_project.Common.{
  ℕ, zero, suc, ◌+◌, ◌-◌, ◌≤◌, ◌<◌, ◌≡◌, refl, ap, ◌∙◌, Bool, true, false, not, Option, none, some,
  List, [], ◌∷◌, ◌++◌, length, ltb, ◌==◌, bit_and, bit_xor, arith, if◌then◌else◌,
}
use osdp_reader_test_project.Esp.{Outcome, ok, err, fault, esp_fail, invalid_state}
use osdp_reader_test_project.Io.{Io, ◌then_with◌, or_else, then_ok, or_else_ok}
use osdp_reader_test_project.Pn5180.Transceive.{Link}
use osdp_reader_test_project.Pn5180.Activate.{CardState, Device}
use osdp_reader_test_project.Pn5180.Apdu.{
  Loop, Progress, Next, finished, again, next_frame, is_wtx, toggled, take_block, nonempty,
  wtx_loop, exchange, round, once, after_loop, at_start, apdu_loop, pn5180_iso14443_apdu,
}
use osdp_reader_test_project.Pn5180.Apdu.Picc.{Picc, receive, IsPicc}

pub toggle_lem : (b : ℕ) → b < 2 → bit_xor b 1 ≡ 1 - b
toggle_lem zero h = refl
toggle_lem (suc zero) h = refl
toggle_lem (suc (suc b)) h = absurd (omega arith)

-- None of the card's blocks is a request for time.
pub not_wtx_more : (b : ℕ) (inf : List ℕ) → b < 2 → is_wtx ((0x12 + b) ∷ inf) ≡ false
unfolding is_wtx
not_wtx_more zero inf h = refl
not_wtx_more (suc zero) inf h = refl
not_wtx_more (suc (suc b)) inf h = absurd (omega arith)

pub not_wtx_end : (b : ℕ) (inf : List ℕ) → b < 2 → is_wtx ((0x02 + b) ∷ inf) ≡ false
unfolding is_wtx
not_wtx_end zero inf h = refl
not_wtx_end (suc zero) inf h = refl
not_wtx_end (suc (suc b)) inf h = absurd (omega arith)

pub not_wtx_ack : (b : ℕ) (inf : List ℕ) → b < 2 → is_wtx ((0x82 + b) ∷ inf) ≡ false
unfolding is_wtx
not_wtx_ack zero inf h = refl
not_wtx_ack (suc zero) inf h = refl
not_wtx_ack (suc (suc b)) inf h = absurd (omega arith)

module _ {S A B : Type 0} (m : Loop S A) (f : A → Loop S B) where
  after : Option (Outcome A) × S → Option (Outcome B) × S
  after x = elim x.0 as (λ _. Option (Outcome B) × S) [
    | none ↦ (none, x.1)
    | some o ↦ elim o as (λ _. Option (Outcome B) × S) [
      | ok a ↦ f a x.1
      | err e ↦ (some (err e), x.1)
      | fault ↦ (some fault, x.1)
    ]
  ]

  pub after_loop_ok : (s s' : S) (a : A) → m s ≡ (some (ok a), s') → after_loop m f s ≡ f a s'
  unfolding after_loop after
  after_loop_ok s s' a e = ap after e

  pub after_loop-none : (s : S) → (m s).0 ≡ none → (after_loop m f s).0 ≡ none
  unfolding after_loop after
  after_loop-none s e = ap (λ r. (after (r, (m s).1)).0) e

pub once_ok :
    {S A : Type 0} (m : Io S A) (s s' : S) (a : A) → m s ≡ (ok a, s') → once m s ≡ (some (ok a), s')
unfolding once
once_ok m s s' a e = ap (λ (x : Outcome _ × _). (some x.0, x.1)) e

module _ (rx_buf : ℕ) (x : Progress) (c : CardState) where
  -- What the driver makes of R(ACK), of a chained I-block and of a last one, of either number.
  pub take_ack :
      (b : ℕ)
      → b < 2
      → (bit_and x.last_pcb_sent 0x10 == 0) ≡ false
      → take_block rx_buf x ((0x82 + b) ∷ []) c ≡ (ok (again x), toggled c)
  unfolding take_block
  take_ack zero h e = rw e refl
  take_ack (suc zero) h e = rw e refl
  take_ack (suc (suc b)) h e = absurd (omega arith)

  pub take_more :
      (b : ℕ) (inf : List ℕ)
      → b < 2
      → length x.rx + length inf ≤ rx_buf
      → take_block rx_buf x ((0x12 + b) ∷ inf) c
        ≡ (ok (again (record x { rx = x.rx ++ inf; picc_chaining = true })), toggled c)
  unfolding take_block
  take_more zero inf h room =
      let e : ltb rx_buf (length x.rx + (suc (length inf) - 1)) ≡ false = ground (arith, room) in
      rw e refl
  take_more (suc zero) inf h room =
      let e : ltb rx_buf (length x.rx + (suc (length inf) - 1)) ≡ false = ground (arith, room) in
      rw e refl
  take_more (suc (suc b)) inf h room = absurd (omega arith)

  pub take_end :
      (b : ℕ) (inf : List ℕ)
      → b < 2
      → length x.rx + length inf ≤ rx_buf
      → take_block rx_buf x ((0x02 + b) ∷ inf) c ≡ (ok (finished (x.rx ++ inf)), toggled c)
  unfolding take_block
  take_end zero inf h room =
      let e : ltb rx_buf (length x.rx + (suc (length inf) - 1)) ≡ false = ground (arith, room) in
      rw e refl
  take_end (suc zero) inf h room =
      let e : ltb rx_buf (length x.rx + (suc (length inf) - 1)) ≡ false = ground (arith, room) in
      rw e refl
  take_end (suc (suc b)) inf h room = absurd (omega arith)

module _ {S : Type 0} {link : Link S} {view : S → Picc} {size : ℕ} {respond : List ℕ → List ℕ}
    (picc : IsPicc size respond link view) where
  no_wait :
      (fuel : ℕ) (resp : List ℕ) (s : S)
      → is_wtx resp ≡ false
      → wtx_loop link fuel resp s ≡ (some (ok resp), s)
  unfolding wtx_loop
  no_wait zero resp s e = rw e refl
  no_wait (suc fuel) resp s e = rw e refl

  -- A frame out and the card's frame back.
  pub exchange_lem :
      (fuel : ℕ) (frame resp : List ℕ) (s : S) (p : Picc)
      → length frame ≤ 260
      → receive size respond frame (view s) ≡ p
      → p.pending ≡ resp
      → 0 < length resp
      → length resp ≤ 260
      → is_wtx resp ≡ false
      → (s' : S) × (exchange link fuel frame s ≡ (some (ok resp), s')) × (view s' ≡ p)
  unfolding exchange nonempty
  exchange_lem fuel frame resp s p l is_p its lo hi e =
      let (s₁, sent, seen) = picc.sends frame s l in
      let (s₂, got, kept) = picc.reads 260 s₁ (rw (seen, is_p, its) hi) in
      let read_p : link.read_data 260 s₁ ≡ (ok resp, s₂) =
        got ∙ ap (λ (v : Picc). (ok v.pending, s₂)) (seen ∙ is_p) ∙ ap (λ r. (ok r, s₂)) its in
      let full : ltb (length resp) 1 ≡ false = ground (arith, lo) in
      let io =
        then_ok (or_else esp_fail (link.send_data frame 0))
          (λ _. link.read_data 260 then_with nonempty link) s s₁ tt
          (or_else_ok (link.send_data frame 0) esp_fail s s₁ tt sent)
        ∙ then_ok (link.read_data 260) (nonempty link) s₁ s₂ resp read_p
        ∙ ap (λ b. (if b then err esp_fail else ok resp, s₂)) full in
      (
        s₂,
        after_loop_ok _ (wtx_loop link fuel) s s₂ resp (once_ok _ s s₂ resp io)
            ∙ no_wait fuel resp s₂ e,
        kept ∙ seen ∙ is_p,
      )

module _ {S : Type 0} (link : Link S) (tx : List ℕ) (rx_buf : ℕ) (x : Progress) (d : Device S) where
  settle : Option (Outcome (List ℕ)) × S → Option (Outcome Next) × Device S
  settle y = elim y.0 as (λ _. Option (Outcome Next) × Device S) [
    | none ↦ (none, record d { chip = y.1 })
    | some o ↦ elim o as (λ _. Option (Outcome Next) × Device S) [
      | err e ↦ (some (err e), record d { chip = y.1 })
      | fault ↦ (some fault, record d { chip = y.1 })
      | ok resp ↦
          let (n, c) = take_block rx_buf (next_frame d.card tx x).1 resp d.card in
          (some n, record { chip = y.1; card = c })
    ]
  ]

  pub round-none :
      (fuel : ℕ)
      → (exchange link fuel (next_frame d.card tx x).0 d.chip).0 ≡ none
      → (round link fuel tx rx_buf x d).0 ≡ none
  unfolding round settle
  round-none fuel e =
      ap (λ r. (settle (r, (exchange link fuel (next_frame d.card tx x).0 d.chip).1)).0) e

  -- A round whose exchange succeeds with a block that `take_block` answers for.
  pub round_ok :
      (fuel : ℕ) (resp : List ℕ) (s' : S) (n : Outcome Next) (c : CardState)
      → exchange link fuel (next_frame d.card tx x).0 d.chip ≡ (some (ok resp), s')
      → take_block rx_buf (next_frame d.card tx x).1 resp d.card ≡ (n, c)
      → round link fuel tx rx_buf x d ≡ (some n, record { chip = s'; card = c })
  unfolding round settle
  round_ok fuel resp s' n c e t =
      ap settle e
      ∙ ap (λ (y : Outcome Next × CardState). (some y.0, record { chip = s'; card = y.1 })) t

  -- The exchange with an active card is the loop, with the CRC on.
  pub active_lem :
      (fuel : ℕ)
      → d.card.iso14443_4_active ≡ true
      → pn5180_iso14443_apdu link fuel tx rx_buf d
        ≡ apdu_loop link fuel tx rx_buf at_start (record d { chip = link.crc true d.chip })
  unfolding pn5180_iso14443_apdu
  active_lem fuel e =
      ap
        (λ (a : Bool).
          if not a
          then (some (err invalid_state), d)
          else apdu_loop link fuel tx rx_buf at_start (record d { chip = link.crc true d.chip }))
        e
