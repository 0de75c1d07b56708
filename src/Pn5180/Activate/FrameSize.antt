-- ===== src/Pn5180/Activate/FrameSize.antt =====
-- components/pn5180/pn5180_iso14443.c: the card state that activation leaves.
use osdp_reader_test_project.Common.{
  ℕ, zero, suc, ◌≤◌, ◌≡◌, refl, ◌⊎◌, inl, inr, false, List, [], ◌∷◌, length, get_or, ltb, leb, ◌&&◌,
  bit_and, ◌==◌, arith, if◌then◌else◌, Bool-cases,
}
use osdp_reader_test_project.Esp.{Esp, Outcome, ok, err, fault, esp_fail}
use osdp_reader_test_project.Io.{Io, Yields, Yields-then, Yields-after}
use osdp_reader_test_project.Pn5180.Transceive.{Link}
use osdp_reader_test_project.Pn5180.Activate.{
  CardState, Device, fsc_of, fsc_of_ats, send_rats, or_fail, open_card, pn5180_iso14443_activate,
}
use osdp_reader_test_project.Pn5180.Activate.Selected.{after_open, after_cascade, activate_parts}

fsc_of_lem : (fsci : ℕ) → (16 ≤ fsc_of fsci) × (fsc_of fsci ≤ 256)
unfolding fsc_of
fsc_of_lem zero = (omega arith, omega arith)
fsc_of_lem (suc zero) = (omega arith, omega arith)
fsc_of_lem (suc (suc zero)) = (omega arith, omega arith)
fsc_of_lem (suc (suc (suc zero))) = (omega arith, omega arith)
fsc_of_lem (suc (suc (suc (suc zero)))) = (omega arith, omega arith)
fsc_of_lem (suc (suc (suc (suc (suc zero))))) = (omega arith, omega arith)
fsc_of_lem (suc (suc (suc (suc (suc (suc zero)))))) = (omega arith, omega arith)
fsc_of_lem (suc (suc (suc (suc (suc (suc (suc zero))))))) = (omega arith, omega arith)
fsc_of_lem (suc (suc (suc (suc (suc (suc (suc (suc zero)))))))) = (omega arith, omega arith)
fsc_of_lem (suc (suc (suc (suc (suc (suc (suc (suc (suc n))))))))) = (omega arith, omega arith)

fsc_of_ats_lem : (ats : List ℕ) → (16 ≤ fsc_of_ats ats) × (fsc_of_ats ats ≤ 256)
unfolding fsc_of_ats
fsc_of_ats_lem ats =
    elim (Bool-cases (leb (get_or ats 0 0) (length ats) && ltb 1 (get_or ats 0 0))) [
      | inl e ↦ rw e (fsc_of_lem (bit_and (get_or ats 1 0) 0x0F))
      | inr e ↦ rw e (omega arith, omega arith)
    ]

-- A card state with which an exchange can start, or with which none starts.
abbrev Ready : CardState → Type 0
Ready c =
    (c.iso14443_4_active ≡ false) ⊎ ((16 ≤ c.fsc_max) × (c.fsc_max ≤ 256) × (c.block_number ≡ 0))

module _ {S : Type 0} (link : Link S) where
  send_rats_lem : (s : S) → Yields (λ fsc _. (16 ≤ fsc) × (fsc ≤ 256)) (send_rats link s)
  unfolding send_rats
  send_rats_lem s =
      Yields-after _ (link.send_data (0xE0 ∷ 0x80 ∷ []) 0) _ s
        (λ _ s₁. Yields-after _ (link.read_data 32) _ s₁ (λ ats s₂. sized ats s₂))
    where
      sized :
          (ats : List ℕ) (s₂ : S)
          → Yields
              (λ fsc _. (16 ≤ fsc) × (fsc ≤ 256))
              (if ltb (length ats) 1 then err esp_fail else ok (fsc_of_ats ats), s₂)
      sized ats s₂ = elim (Bool-cases (ltb (length ats) 1)) [
        | inl e ↦ rw e tt
        | inr e ↦ rw e (fsc_of_ats_lem ats)
      ]

  open_card_lem :
      (uid : List ℕ) (sak : ℕ) (s : S) → Yields (λ c _. Ready c) (open_card link uid sak s)
  unfolding open_card
  open_card_lem uid sak s = elim (Bool-cases (bit_and sak 0x20 == 0)) [
    | inl e ↦ rw e (inl refl)
    | inr e ↦ rw e (
        Yields-then (λ fsc _. (16 ≤ fsc) × (fsc ≤ 256)) (λ c _. Ready c) (send_rats link) _ s
          (send_rats_lem s) (λ fsc s' h. inr (h.0, h.1, refl)))
  ]

  or_fail_lem :
      {A : Type 0} (P : A → Type 0) (e : Esp) (m : Io S A) (s : S)
      → Yields (λ a _. P a) (m s)
      → Yields (λ a _. P a) (or_fail link e m s)
  unfolding or_fail
  or_fail_lem {A = A} P e m s h = go (m s) h
    where
      go :
          (x : Outcome A × S)
          → Yields (λ a _. P a) x
          → Yields
              (λ a _. P a)
              (elim x.0 as (λ _. Outcome A × S) [
                | ok a ↦ (ok a, x.1)
                | err _ ↦ (err e, (link.rf_off x.1).1)
                | fault ↦ (fault, x.1)
              ])
      go (ok a, s') y = y
      go (err _, s') y = tt
      go (fault, s') y = tt

  after_open_lem :
      (uid_buf : ℕ) (found : List ℕ × ℕ) (x : Outcome CardState × S)
      → Yields (λ c _. Ready c) x
      → Ready (after_open link uid_buf found x).1.card
  after_open_lem uid_buf found (ok card, s) h = h
  after_open_lem uid_buf found (err e, s) h = inl refl
  after_open_lem uid_buf found (fault, s) h = inl refl

  after_cascade_lem :
      (uid_buf : ℕ) (x : Outcome (List ℕ × ℕ) × S) → Ready (after_cascade link uid_buf x).1.card
  after_cascade_lem uid_buf (err e, s) = inl refl
  after_cascade_lem uid_buf (fault, s) = inl refl
  after_cascade_lem uid_buf (ok found, s) = after_open_lem uid_buf found _ (
      or_fail_lem Ready esp_fail (open_card link found.0 found.1) s
        (open_card_lem found.0 found.1 s))

  -- However an activation ends, and whatever the card answers, the driver then either takes the
  -- card for one without ISO 14443-4, or has a frame size between 16 and 256 bytes for it and
  -- block number 0.
  pub pn5180_iso14443_activate-Ready :
      (uid_buf : ℕ) (d : Device S)
      → let c = (pn5180_iso14443_activate link uid_buf d).1.card in
        (c.iso14443_4_active ≡ false)
        ⊎ ((16 ≤ c.fsc_max) × (c.fsc_max ≤ 256) × (c.block_number ≡ 0))
  pn5180_iso14443_activate-Ready uid_buf d =
      rw (activate_parts link uid_buf d) (after_cascade_lem uid_buf _)
