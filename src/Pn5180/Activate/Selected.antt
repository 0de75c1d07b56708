-- ===== src/Pn5180/Activate/Selected.antt =====
-- components/pn5180/pn5180_iso14443.c: a whole activation.
use osdp_reader_test_project.Common.{
  ℕ, ◌+◌, ◌*◌, ◌≤◌, ◌<◌, ◌≡◌, refl, ap, ◌∙◌, inl, inr, true, false, List, [], ◌∷◌, length, take,
  ltb, ◌==◌, bit_and, arith, if◌then◌else◌, Bool-cases,
}
use osdp_reader_test_project.Esp.{Esp, Outcome, ok, err, fault, esp_fail, not_found}
use osdp_reader_test_project.Io.{Io, ◌then_with◌, or_else, then_ok, or_else_ok}
use osdp_reader_test_project.Pn5180.Transceive.{Link}
use osdp_reader_test_project.Pn5180.Activate.{
  CardState, Device, no_card, fsc_of_ats, read_exactly, cascade_loop, send_rats, or_fail, request,
  open_card, pn5180_iso14443_activate,
}
use osdp_reader_test_project.Pn5180.Activate.Tag.{
  Chunk, Levels, last_level, more_levels, Tag, powered, listen, listen_reqa, listen_rats, IsTag,
}
use osdp_reader_test_project.Pn5180.Activate.Cascade.{read_exactly_ok, cascade_loop_ok}

pub or_fail_ok :
    {S A : Type 0} (link : Link S) (e : Esp) (m : Io S A) (s s' : S) (a : A)
    → m s ≡ (ok a, s')
    → or_fail link e m s ≡ (ok a, s')
unfolding or_fail
or_fail_ok {S = S} {A = A} link e m s s' a q =
    ap
      (λ (x : Outcome A × S). elim x.0 as (λ _. Outcome A × S) [
        | ok a ↦ (ok a, x.1)
        | err _ ↦ (err e, (link.rf_off x.1).1)
        | fault ↦ (fault, x.1)
      ])
      q

length-Levels : {cs : List Chunk} {uid : List ℕ} → Levels cs uid → length uid ≡ 3 * length cs + 1
length-Levels (last_level a b c d other) = omega arith
length-Levels (more_levels a b c levels) = omega (arith, length-Levels levels)

-- The state of the card after an activation that has found this UID, SAK and ATS.
abbrev pub activated : List ℕ → ℕ → List ℕ → CardState
activated uid sak ats =
    let plain : CardState = record no_card { uid = uid; sak = sak } in
    if bit_and sak 0x20 == 0
    then plain
    else record plain { iso14443_4_active = true; fsc_max = fsc_of_ats ats }

module _ {S : Type 0} (link : Link S) (uid_buf : ℕ) where
  abbrev pub Answer : Type 0
  Answer = Outcome (List ℕ × ℕ) × Device S

  abbrev pub after_open : List ℕ × ℕ → Outcome CardState × S → Answer
  after_open found x = elim x.0 as (λ _. Answer) [
    | ok card ↦ (ok (take uid_buf found.0, found.1), record { chip = x.1; card = card })
    | err e ↦ (err e, record { chip = x.1; card = record no_card { uid = found.0; sak = found.1 } })
    | fault ↦ (fault, record { chip = x.1; card = no_card })
  ]

  abbrev pub after_cascade : Outcome (List ℕ × ℕ) × S → Answer
  after_cascade x = elim x.0 as (λ _. Answer) [
    | err e ↦ (err e, record { chip = x.1; card = no_card })
    | fault ↦ (fault, record { chip = x.1; card = no_card })
    | ok found ↦ after_open found (or_fail link esp_fail (open_card link found.0 found.1) x.1)
  ]

  pub activate_parts :
      (d : Device S)
      → pn5180_iso14443_activate link uid_buf d
        ≡ after_cascade (
            (request link then_with λ _.
            or_fail link esp_fail (cascade_loop link (0x93 ∷ 0x95 ∷ 0x97 ∷ []) []))
              d.chip)
  unfolding pn5180_iso14443_activate
  activate_parts d = refl

module _ {S : Type 0} {link : Link S} {view : S → Tag} {whole : List Chunk} {atqa0 atqa1 sak : ℕ}
    {ats : List ℕ} (tag : IsTag whole atqa0 atqa1 sak ats link view) where
  pub request_ok :
      (s : S)
      → (s' : S) × (request link s ≡ (ok (atqa0 ∷ atqa1 ∷ []), s'))
        × (view s' ≡ record { chunks = whole; sel = 0x93; pending = atqa0 ∷ atqa1 ∷ [] })
  unfolding request
  request_ok s =
      let (r, s₁, loaded) = tag.starts s in
      let (s₂, on, up) = tag.powers s₁ in
      let (s₃, sent, seen) = tag.sends (0x26 ∷ []) 7 (link.crc false s₂) (omega arith) in
      let t : Tag = record { chunks = whole; sel = 0x93; pending = atqa0 ∷ atqa1 ∷ [] } in
      let is_t : view s₃ ≡ t =
        seen
        ∙ ap (λ (v : Tag). listen whole atqa0 atqa1 sak ats v.chunks (0x26 ∷ []) v)
            (tag.keeps false s₂ ∙ up)
        ∙ listen_reqa whole atqa0 atqa1 sak ats whole (powered whole atqa0 atqa1 sak ats) in
      let (s₄, got, kept) = read_exactly_ok tag 2 s₃ t is_t refl in
      (
        s₄,
        then_ok (or_else esp_fail (link.load_rf_config 0x00 0x80)) _ s s₁ r
              (or_else_ok (link.load_rf_config 0x00 0x80) esp_fail s s₁ r loaded)
            ∙ then_ok (or_else esp_fail link.rf_on) _ s₁ s₂ tt
                (or_else_ok link.rf_on esp_fail s₁ s₂ tt on)
            ∙ or_fail_ok link not_found
                (link.send_data (0x26 ∷ []) 7 then_with λ _. read_exactly link 2)
                (link.crc false s₂) s₄ (atqa0 ∷ atqa1 ∷ [])
                (then_ok (link.send_data (0x26 ∷ []) 7) (λ _. read_exactly link 2)
                    (link.crc false s₂) s₃ tt sent
                  ∙ got),
        kept,
      )

  send_rats_ok :
      (s : S)
      → (view s).chunks ≡ []
      → 0 < length ats
      → length ats ≤ 32
      → (s' : S) × (send_rats link s ≡ (ok (fsc_of_ats ats), s'))
  unfolding send_rats
  send_rats_ok s chosen lo hi =
      let (s₁, sent, seen) = tag.sends (0xE0 ∷ 0x80 ∷ []) 0 s (omega arith) in
      let t : Tag = record { chunks = (view s).chunks; sel = (view s).sel; pending = ats } in
      let is_ats : (view s₁).pending ≡ ats =
        ap (λ (v : Tag). v.pending)
          (seen
            ∙ ap (λ cs. listen whole atqa0 atqa1 sak ats cs (0xE0 ∷ 0x80 ∷ []) (view s)) chosen
            ∙ listen_rats whole atqa0 atqa1 sak ats 0x80 (view s)) in
      let (s₂, got, kept) =
        tag.reads 32 s₁ (omega (arith, ap (λ (r : List ℕ). length r) is_ats, hi)) in
      let full : ltb (length ats) 1 ≡ false = ground (arith, lo) in
      (
        s₂,
        then_ok (link.send_data (0xE0 ∷ 0x80 ∷ []) 0) _ s s₁ tt sent
            ∙ then_ok (link.read_data 32)
                (λ ats s. (if ltb (length ats) 1 then err esp_fail else ok (fsc_of_ats ats), s)) s₁
                s₂ ats (got ∙ ap (λ r. (ok r, s₂)) is_ats)
            ∙ ap (λ b. (if b then err esp_fail else ok (fsc_of_ats ats), s₂)) full,
      )

  open_card_ok :
      (uid : List ℕ) (s : S)
      → (view s).chunks ≡ []
      → 0 < length ats
      → length ats ≤ 32
      → (s' : S) × (open_card link uid sak s ≡ (ok (activated uid sak ats), s'))
  unfolding open_card
  open_card_ok uid s chosen lo hi = elim (Bool-cases (bit_and sak 0x20 == 0)) [
    | inl plain ↦ (s, rw plain refl)
    | inr layer4 ↦
        let (s', answered) = send_rats_ok s chosen lo hi in
        (s', rw layer4 (then_ok (send_rats link) _ s s' (fsc_of_ats ats) answered))
  ]

  -- With a single card that keeps to ISO 14443-3 in the field, activation finds its whole UID, of
  -- four, seven or ten bytes, and its SAK, of which the caller gets as much as its buffer takes.
  -- The driver's card state holds them, and where SAK says so, the frame size of the ATS.
  pub pn5180_iso14443_activate-Levels :
      (uid : List ℕ) (uid_buf : ℕ) (d : Device S)
      → Levels whole uid
      → length whole ≤ 3
      → bit_and sak 0x04 ≡ 0
      → 0 < length ats
      → length ats ≤ 32
      → ((pn5180_iso14443_activate link uid_buf d).0 ≡ ok (take uid_buf uid, sak))
        × ((pn5180_iso14443_activate link uid_buf d).1.card ≡ activated uid sak ats)
  pn5180_iso14443_activate-Levels uid uid_buf d levels few complete lo hi =
      let (s₁, found, at_first) = request_ok d.chip in
      let (s₂, reached, chosen) =
        cascade_loop_ok tag 3 0x93 [] (atqa0 ∷ atqa1 ∷ []) s₁ levels complete at_first few
          (omega (arith, length-Levels levels, few)) in
      let (s₃, opened) = open_card_ok uid s₂ chosen lo hi in
      let first =
        then_ok (request link)
          (λ _. or_fail link esp_fail (cascade_loop link (0x93 ∷ 0x95 ∷ 0x97 ∷ []) [])) d.chip s₁
          (atqa0 ∷ atqa1 ∷ []) found
        ∙ or_fail_ok link esp_fail (cascade_loop link (0x93 ∷ 0x95 ∷ 0x97 ∷ []) []) s₁ s₂ (uid, sak)
            reached in
      let second =
        or_fail_ok link esp_fail (open_card link uid sak) s₂ s₃ (activated uid sak ats) opened in
      let all =
        activate_parts link uid_buf d
        ∙ ap (after_cascade link uid_buf) first
        ∙ ap (after_open link uid_buf (uid, sak)) second in
      (ap (λ (x : Answer link uid_buf). x.0) all, ap (λ (x : Answer link uid_buf). x.1.card) all)
