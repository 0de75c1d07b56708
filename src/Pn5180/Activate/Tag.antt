-- ===== src/Pn5180/Activate/Tag.antt =====
-- components/pn5180/pn5180_iso14443.c: a card that answers the requests of ISO 14443-3.
use osdp_reader_test_project.Common.{
  ℕ, ◌+◌, ◌≤◌, ◌≡◌, ◌≢◌, refl, Bool, true, ◌&&◌, List, [], ◌∷◌, length, ◌==◌, mem_eq, mem_eq_refl,
  bit_xor, arith, if◌then◌else◌,
}
use osdp_reader_test_project.Esp.{ok}
use osdp_reader_test_project.Pn5180.Transceive.{Link}

-- What a card answers at a cascade level, less its check byte.
pub record Chunk : Type 0 where
  pub byte0 : ℕ
  pub byte1 : ℕ
  pub byte2 : ℕ
  pub byte3 : ℕ

-- The answer to an anticollision request: the chunk and its BCC.
abbrev pub shown : Chunk → List ℕ
shown c =
    c.byte0
    ∷ c.byte1
    ∷ c.byte2
    ∷ c.byte3
    ∷ bit_xor (bit_xor (bit_xor c.byte0 c.byte1) c.byte2) c.byte3
    ∷ []

-- The chunks of a UID: four bytes at the last level, and before it three after a cascade tag. The
-- first byte at the last level is no cascade tag.
pub data Levels : List Chunk → List ℕ → Type 0 where
  last_level :
      (a b c d : ℕ)
      → a ≢ 0x88
      → Levels (record { byte0 = a; byte1 = b; byte2 = c; byte3 = d } ∷ []) (a ∷ b ∷ c ∷ d ∷ [])
  more_levels :
      {chunks : List Chunk} {uid : List ℕ} (a b c : ℕ)
      → Levels chunks uid
      → Levels (record { byte0 = 0x88; byte1 = a; byte2 = b; byte3 = c } ∷ chunks) (a ∷ b ∷ c ∷ uid)

-- The card: the chunks it has not been selected with, the SEL code of that level and the frame
-- that it sends next.
pub record Tag : Type 0 where
  pub chunks : List Chunk
  pub sel : ℕ
  pub pending : List ℕ

module _ (whole : List Chunk) (atqa0 atqa1 sak : ℕ) (ats : List ℕ) where
  -- SAK has bit 2 while the UID is not complete.
  pub sak_of : List Chunk → ℕ
  sak_of [] = sak
  sak_of (_ ∷ _) = 0x04

  pub sak_of_last : sak_of [] ≡ sak
  unfolding sak_of
  sak_of_last = refl

  pub sak_of_more : (c : Chunk) (cs : List Chunk) → sak_of (c ∷ cs) ≡ 0x04
  unfolding sak_of
  sak_of_more c cs = refl

  pub sak_of-Levels : {cs : List Chunk} {uid : List ℕ} → Levels cs uid → sak_of cs ≡ 0x04
  unfolding sak_of
  sak_of-Levels (last_level a b c d other) = refl
  sak_of-Levels (more_levels a b c levels) = refl

  abbrev pub powered : Tag
  powered = record { chunks = whole; sel = 0x93; pending = [] }

  -- A card that has been selected at every level answers RATS only.
  pub listen : List Chunk → List ℕ → Tag → Tag
  listen [] (a ∷ b ∷ _) t = if a == 0xE0 then record t { pending = ats } else t
  listen (c ∷ cs) (a ∷ b ∷ rest) t =
      if a == t.sel && b == 0x20
      then record t { pending = shown c }
      else if a == t.sel && b == 0x70 && mem_eq rest (shown c)
      then record { chunks = cs; sel = t.sel + 2; pending = sak_of cs ∷ [] }
      else t
  listen _ (a ∷ []) t = if a == 0x26 then record t { pending = atqa0 ∷ atqa1 ∷ [] } else t
  listen _ [] t = t

  pub listen_anticollision :
      (c : Chunk) (cs : List Chunk) (t : Tag)
      → listen (c ∷ cs) (t.sel ∷ 0x20 ∷ []) t ≡ record t { pending = shown c }
  unfolding listen
  listen_anticollision c cs t = let e : (t.sel == t.sel) ≡ true = ground arith in rw e refl

  pub listen_select :
      (c : Chunk) (cs : List Chunk) (t : Tag)
      → listen (c ∷ cs) (t.sel ∷ 0x70 ∷ shown c) t
        ≡ record { chunks = cs; sel = t.sel + 2; pending = sak_of cs ∷ [] }
  unfolding listen
  listen_select c cs t =
      let e : (t.sel == t.sel) ≡ true = ground arith in rw (e, mem_eq_refl (shown c)) refl

  pub listen_rats : (a : ℕ) (t : Tag) → listen [] (0xE0 ∷ a ∷ []) t ≡ record t { pending = ats }
  unfolding listen
  listen_rats a t = refl

  pub listen_reqa :
      (cs : List Chunk) (t : Tag)
      → listen cs (0x26 ∷ []) t ≡ record t { pending = atqa0 ∷ atqa1 ∷ [] }
  unfolding listen
  listen_reqa [] t = refl
  listen_reqa (c ∷ cs) t = refl

  abbrev pub hear : List ℕ → Tag → Tag
  hear frame t = listen t.chunks frame t

  -- What activation relies on of the chip and the field, where `view` is the card in them.
  pub record IsTag {S : Type 0} (link : Link S) (view : S → Tag) : Type 0 where
    pub starts : (s : S) → (r : List ℕ) × (s' : S) × (link.load_rf_config 0x00 0x80 s ≡ (ok r, s'))
    pub powers : (s : S) → (s' : S) × (link.rf_on s ≡ (ok tt, s')) × (view s' ≡ powered)
    pub sends :
        (frame : List ℕ) (bits : ℕ) (s : S)
        → length frame ≤ 260
        → (s' : S) × (link.send_data frame bits s ≡ (ok tt, s')) × (view s' ≡ hear frame (view s))
    pub reads :
        (n : ℕ) (s : S)
        → length (view s).pending ≤ n
        → (s' : S) × (link.read_data n s ≡ (ok (view s).pending, s')) × (view s' ≡ view s)
    pub keeps : (on : Bool) (s : S) → view (link.crc on s) ≡ view s
