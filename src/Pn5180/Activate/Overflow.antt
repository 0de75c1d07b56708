-- ===== src/Pn5180/Activate/Overflow.antt =====
-- components/pn5180/pn5180_iso14443.c: a card that sends more UID than there is.
use osdp_reader_test_project.Common.{
  ℕ, ◌+◌, ◌≤◌, ◌<◌, ◌≡◌, ◌≢◌, refl, ap, ◌∙◌, true, false, List, [], ◌∷◌, ◌++◌, length, ltb, ◌==◌,
  bit_and, arith, if◌then◌else◌,
}
use osdp_reader_test_project.Esp.{Outcome, ok, err, fault, esp_fail}
use osdp_reader_test_project.Io.{Io, then_ok}
use osdp_reader_test_project.Pn5180.Transceive.{Link}
use osdp_reader_test_project.Pn5180.Activate.{
  Device, select_level, cascade_loop, or_fail, request, pn5180_iso14443_activate,
}
use osdp_reader_test_project.Pn5180.Activate.Tag.{Chunk, shown, Tag, sak_of, sak_of_more, IsTag}
use osdp_reader_test_project.Pn5180.Activate.Cascade.{select_level_ok, level_lem, uid_part_last}
use osdp_reader_test_project.Pn5180.Activate.Selected.{
  Answer, request_ok, activate_parts, after_cascade,
}

abbrev bytes_of : Chunk → List ℕ
bytes_of c = c.byte0 ∷ c.byte1 ∷ c.byte2 ∷ c.byte3 ∷ []

or_fail_fault :
    {S A : Type 0} (link : Link S) (m : Io S A) (s s' : S)
    → m s ≡ (fault, s')
    → or_fail link esp_fail m s ≡ (fault, s')
unfolding or_fail
or_fail_fault {S = S} {A = A} link m s s' q =
    ap
      (λ (x : Outcome A × S). elim x.0 as (λ _. Outcome A × S) [
        | ok a ↦ (ok a, x.1)
        | err _ ↦ (err esp_fail, (link.rf_off x.1).1)
        | fault ↦ (fault, x.1)
      ])
      q

module _ {S : Type 0} {link : Link S} {view : S → Tag} {c₀ c₁ c₂ : Chunk} {atqa0 atqa1 sak : ℕ}
    {ats : List ℕ} (tag : IsTag (c₀ ∷ c₁ ∷ c₂ ∷ []) atqa0 atqa1 sak ats link view) where
  abbrev saks : List Chunk → ℕ
  saks = sak_of (c₀ ∷ c₁ ∷ c₂ ∷ []) atqa0 atqa1 sak ats

  -- A level that is not the last brings four bytes.
  four_more :
      (sel : ℕ) (sels : List ℕ) (got : List ℕ) (c next : Chunk) (cs : List Chunk) (old : List ℕ)
      (s : S)
      → c.byte0 ≢ 0x88
      → view s ≡ record { chunks = c ∷ next ∷ cs; sel = sel; pending = old }
      → length (got ++ bytes_of c) ≤ 10
      → (s' : S) × (cascade_loop link (sel ∷ sels) got s
          ≡ cascade_loop link sels (got ++ bytes_of c) s')
        × (view s' ≡ record { chunks = next ∷ cs; sel = sel + 2; pending = saks (next ∷ cs) ∷ [] })
  four_more sel sels got c next cs old s other is_t room =
      let (s', reached, shows) =
        level_lem tag sel sels got c (next ∷ cs) old (bytes_of c) s is_t
          (uid_part_last c.byte0 c.byte1 c.byte2 c.byte3 other) room in
      (
        link.crc false s',
        reached
            ∙ ap
                (λ k.
                  if bit_and k 0x04 == 0
                  then (ok (got ++ bytes_of c, k), s')
                  else cascade_loop link sels (got ++ bytes_of c) (link.crc false s'))
                (sak_of_more (c₀ ∷ c₁ ∷ c₂ ∷ []) atqa0 atqa1 sak ats next cs),
        tag.keeps false s' ∙ shows,
      )

  overflow :
      (sel : ℕ) (sels : List ℕ) (got : List ℕ) (c : Chunk) (cs : List Chunk) (old : List ℕ) (s : S)
      → c.byte0 ≢ 0x88
      → view s ≡ record { chunks = c ∷ cs; sel = sel; pending = old }
      → 10 < length (got ++ bytes_of c)
      → (s' : S) × (cascade_loop link (sel ∷ sels) got s ≡ (fault, s'))
  unfolding cascade_loop
  overflow sel sels got c cs old s other is_t long =
      let (s', reached, shows) = select_level_ok tag c cs sel old s is_t in
      let past : ltb 10 (length (got ++ bytes_of c)) ≡ true = ground (arith, long) in
      (
        s',
        then_ok (select_level link sel) _ s s' (shown c, saks cs) reached
            ∙ rw (uid_part_last c.byte0 c.byte1 c.byte2 c.byte3 other, past) refl,
      )

  -- A card that asks for three cascade levels and sends no cascade tag brings twelve bytes of UID,
  -- and the third memcpy of the activation writes past the end of `uid_collected`.
  pub pn5180_iso14443_activate-overflow :
      (uid_buf : ℕ) (d : Device S)
      → c₀.byte0 ≢ 0x88
      → c₁.byte0 ≢ 0x88
      → c₂.byte0 ≢ 0x88
      → (pn5180_iso14443_activate link uid_buf d).0 ≡ fault
  pn5180_iso14443_activate-overflow uid_buf d other₀ other₁ other₂ =
      let (s, found, at_first) = request_ok tag d.chip in
      let (s₁, first, at_second) =
        four_more 0x93 (0x95 ∷ 0x97 ∷ []) [] c₀ c₁ (c₂ ∷ []) _ s other₀ at_first (omega arith) in
      let (s₂, second, at_third) =
        four_more 0x95 (0x97 ∷ []) (bytes_of c₀) c₁ c₂ [] _ s₁ other₁ at_second (omega arith) in
      let (s₃, third) =
        overflow 0x97 [] (bytes_of c₀ ++ bytes_of c₁) c₂ [] _ s₂ other₂ at_third (omega arith) in
      let begun =
        then_ok (request link)
          (λ _. or_fail link esp_fail (cascade_loop link (0x93 ∷ 0x95 ∷ 0x97 ∷ []) [])) d.chip s
          (atqa0 ∷ atqa1 ∷ []) found in
      ap (λ (x : Answer link uid_buf). x.0)
        (activate_parts link uid_buf d
          ∙ ap (after_cascade link uid_buf)
              (begun ∙ or_fail_fault link _ s s₃ (first ∙ second ∙ third)))
