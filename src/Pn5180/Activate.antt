-- ===== src/Pn5180/Activate.antt =====
-- components/pn5180/pn5180_iso14443.c: ISO 14443-3 activation and the end of a session.
pub mod Tag
pub mod Cascade
pub mod Selected
pub mod Overflow
pub mod FrameSize
use osdp_reader_test_project.Common.{
  ℕ, zero, suc, ◌+◌, Bool, true, false, not, ◌&&◌, ◌||◌, List, [], ◌∷◌, ◌++◌, length, take, slice,
  get_or, ltb, leb, ◌==◌, bit_and, bit_xor, if◌then◌else◌,
}
use osdp_reader_test_project.Esp.{Esp, Outcome, ok, err, fault, esp_fail, not_found}
use osdp_reader_test_project.Io.{Io, ◌then_with◌, or_else}
use osdp_reader_test_project.Pn5180.Transceive.{Link}

-- `pn5180_card_state_t`.
pub record CardState : Type 0 where
  pub iso14443_4_active : Bool
  pub block_number : ℕ
  pub fsc_max : ℕ
  pub uid : List ℕ
  pub sak : ℕ

-- The chip and `g_pn5180_card`.
pub record Device (S : Type 0) : Type 0 where
  pub chip : S
  pub card : CardState

abbrev pub no_card : CardState
no_card = record { iso14443_4_active = false; block_number = 0; fsc_max = 0; uid = []; sak = 0 }

-- `fsc_table[fsci]`, and 256 beyond the table.
pub fsc_of : ℕ → ℕ
fsc_of fsci = get_or (16 ∷ 24 ∷ 32 ∷ 40 ∷ 48 ∷ 64 ∷ 96 ∷ 128 ∷ 256 ∷ []) fsci 256

-- `fsc_max` from an ATS of at least a byte.
pub fsc_of_ats : List ℕ → ℕ
fsc_of_ats ats =
    if leb (get_or ats 0 0) (length ats) && ltb 1 (get_or ats 0 0)
    then fsc_of (bit_and (get_or ats 1 0) 0x0F)
    else 32

-- The part of the UID in an answer of five bytes: three after a cascade tag, or four.
pub uid_part : List ℕ → List ℕ
uid_part ac_resp = if get_or ac_resp 0 0 == 0x88 then slice 1 3 ac_resp else take 4 ac_resp

-- `bcc == ac_resp[4]`.
pub bcc_ok : List ℕ → Bool
bcc_ok ac_resp =
    bit_xor (bit_xor (bit_xor (get_or ac_resp 0 0) (get_or ac_resp 1 0)) (get_or ac_resp 2 0))
      (get_or ac_resp 3 0)
    == get_or ac_resp 4 0

module _ {S : Type 0} (link : Link S) where
  -- A read of exactly so many bytes.
  pub read_exactly : ℕ → Io S (List ℕ)
  read_exactly n =
      link.read_data n then_with λ r s. (if length r == n then ok r else err esp_fail, s)

  -- SELECT with the answer of the anticollision: the SAK.
  pub select_uid : ℕ → List ℕ → Io S (List ℕ × ℕ)
  select_uid sel ac_resp s =
      if not (bcc_ok ac_resp)
      then (err esp_fail, s)
      else (link.send_data (sel ∷ 0x70 ∷ ac_resp) 0 then_with λ _.
            read_exactly 1 then_with λ r s'. (ok (ac_resp, get_or r 0 0), s'))
          (link.crc true s)

  -- One cascade level: the answer of the anticollision and the SAK.
  pub select_level : ℕ → Io S (List ℕ × ℕ)
  select_level sel = link.send_data (sel ∷ 0x20 ∷ []) 0 then_with λ _.
      read_exactly 5 then_with λ ac_resp. select_uid sel ac_resp

  -- The levels that are left, and `uid_collected`, an array of 10 bytes; past its end is a fault.
  pub cascade_loop : List ℕ → List ℕ → Io S (List ℕ × ℕ)
  cascade_loop [] uid_collected = λ s. (err esp_fail, s)
  cascade_loop (sel ∷ sels) uid_collected = select_level sel then_with λ (ac_resp, sak_resp) s.
      let uid = uid_collected ++ uid_part ac_resp in
      let rest = cascade_loop sels uid (link.crc false s) in
      if ltb 10 (length uid)
      then (fault, s)
      else if bit_and sak_resp 0x04 == 0
      then (ok (uid, sak_resp), s)
      else rest

  -- RATS: `fsc_max`.
  pub send_rats : Io S ℕ
  send_rats = link.send_data (0xE0 ∷ 0x80 ∷ []) 0 then_with λ _.
      link.read_data 32 then_with λ ats s.
      (if ltb (length ats) 1 then err esp_fail else ok (fsc_of_ats ats), s)

  -- `goto fail`.
  pub or_fail : {A : Type 0} → Esp → Io S A → Io S A
  or_fail e m s =
      let (r, s') = m s in
      elim r [ ok a ↦ (ok a, s') | err _ ↦ (err e, (link.rf_off s').1) | fault ↦ (fault, s') ]

  pub request : Io S (List ℕ)
  request = or_else esp_fail (link.load_rf_config 0x00 0x80) then_with λ _.
      or_else esp_fail link.rf_on then_with λ _ s.
      or_fail not_found (link.send_data (0x26 ∷ []) 7 then_with λ _. read_exactly 2)
        (link.crc false s)

  -- `sak & 0x20`: the state of the card after RATS, and without.
  pub open_card : List ℕ → ℕ → Io S CardState
  open_card uid sak s =
      let plain : CardState = record no_card { uid = uid; sak = sak } in
      if bit_and sak 0x20 == 0
      then (ok plain, s)
      else (send_rats then_with λ fsc s'.
            (ok (record plain { iso14443_4_active = true; fsc_max = fsc }), s'))
          s

  -- The UID is stored before RATS, so a RATS that fails leaves it.
  pub pn5180_iso14443_activate : ℕ → Io (Device S) (List ℕ × ℕ)
  pn5180_iso14443_activate uid_buf d =
      let (r, s) =
        (request then_with λ _. or_fail esp_fail (cascade_loop (0x93 ∷ 0x95 ∷ 0x97 ∷ []) []))
          d.chip in
      elim r [
        | err e ↦ (err e, record { chip = s; card = no_card })
        | fault ↦ (fault, record { chip = s; card = no_card })
        | ok found ↦
            let (r', s') = or_fail esp_fail (open_card found.0 found.1) s in
            elim r' [
              | ok card ↦ (ok (take uid_buf found.0, found.1), record { chip = s'; card = card })
              | err e ↦ (
                err e,
                record { chip = s'; card = record no_card { uid = found.0; sak = found.1 } },
              )
              | fault ↦ (fault, record { chip = s'; card = no_card })
            ]
      ]

  -- The results of the two exchanges of S(DESELECT) and of switching the field off are not
  -- looked at.
  pub pn5180_iso14443_deselect : Io (Device S) (Unit {0})
  pn5180_iso14443_deselect d =
      let c = d.card in
      let s₁ = (link.send_data (0xC2 ∷ []) 0 d.chip).1 in
      let s₂ = (link.read_data 1 s₁).1 in
      if not c.iso14443_4_active
      then (let (r, s) = link.rf_off d.chip in (r, record d { chip = s }))
      else (
        ok tt,
        record { chip = (link.rf_off s₂).1; card = record c { iso14443_4_active = false } },
      )
