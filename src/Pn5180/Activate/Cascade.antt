-- ===== src/Pn5180/Activate/Cascade.antt =====
-- components/pn5180/pn5180_iso14443.c: the cascade levels against what a card promises.
use osdp_reader_test_project.Common.{
  ℕ, zero, suc, ◌+◌, ◌≤◌, ◌≡◌, ◌≢◌, refl, ap, ◌∙◌, true, false, not, List, [], ◌∷◌, ◌++◌, length,
  get_or, ltb, ◌==◌, bit_and, bit_xor, arith, if◌then◌else◌, append_assoc, length-append,
}
use osdp_reader_test_project.Esp.{Outcome, ok, err, esp_fail}
use osdp_reader_test_project.Io.{Io, ◌then_with◌, then_ok}
use osdp_reader_test_project.Pn5180.Transceive.{Link}
use osdp_reader_test_project.Pn5180.Activate.{
  uid_part, bcc_ok, read_exactly, select_uid, select_level, cascade_loop,
}
use osdp_reader_test_project.Pn5180.Activate.Tag.{
  Chunk, shown, Levels, last_level, more_levels, Tag, sak_of, sak_of_last, sak_of-Levels, listen,
  listen_anticollision, listen_select, IsTag,
}

eq_refl : (n : ℕ) → (n == n) ≡ true
eq_refl n = ground arith

shown_bcc : (c : Chunk) → bcc_ok (shown c) ≡ true
unfolding bcc_ok
shown_bcc c = eq_refl (bit_xor (bit_xor (bit_xor c.byte0 c.byte1) c.byte2) c.byte3)

select_uid-shown :
    {S : Type 0} (link : Link S) (sel : ℕ) (c : Chunk) (s : S)
    → select_uid link sel (shown c) s
      ≡ (link.send_data (sel ∷ 0x70 ∷ shown c) 0 then_with λ _.
            read_exactly link 1 then_with λ r s'. (ok (shown c, get_or r 0 0), s'))
          (link.crc true s)
unfolding select_uid
select_uid-shown link sel c s =
    ap
      (λ b.
        if not b
        then (err esp_fail, s)
        else (link.send_data (sel ∷ 0x70 ∷ shown c) 0 then_with λ _.
              read_exactly link 1 then_with λ r s'. (ok (shown c, get_or r 0 0), s'))
            (link.crc true s))
      (shown_bcc c)

-- The SEL codes from a level on.
abbrev pub codes : ℕ → ℕ → List ℕ
codes zero sel = []
codes (suc n) sel = sel ∷ codes n (sel + 2)

uid_part_tag :
    (a b c : ℕ)
    → uid_part (shown (record { byte0 = 0x88; byte1 = a; byte2 = b; byte3 = c })) ≡ a ∷ b ∷ c ∷ []
unfolding uid_part
uid_part_tag a b c = refl

pub uid_part_last :
    (a b c d : ℕ)
    → a ≢ 0x88
    → uid_part (shown (record { byte0 = a; byte1 = b; byte2 = c; byte3 = d })) ≡ a ∷ b ∷ c ∷ d ∷ []
unfolding uid_part
uid_part_last a b c d other = let e : (a == 0x88) ≡ false = ground arith in rw e refl

ending :
    {S : Type 0} (got_sak sak : ℕ) (uid : List ℕ) (s : S) (rest : Outcome (List ℕ × ℕ) × S)
    → got_sak ≡ sak
    → bit_and sak 0x04 ≡ 0
    → (if bit_and got_sak 0x04 == 0 then (ok (uid, got_sak), s) else rest) ≡ (ok (uid, sak), s)
ending got_sak sak uid s rest same complete = rw (same, complete) refl

module _ {S : Type 0} {link : Link S} {view : S → Tag} {whole : List Chunk} {atqa0 atqa1 sak : ℕ}
    {ats : List ℕ} (tag : IsTag whole atqa0 atqa1 sak ats link view) where
  pub read_exactly_ok :
      (n : ℕ) (s : S) (t : Tag)
      → view s ≡ t
      → length t.pending ≡ n
      → (s' : S) × (read_exactly link n s ≡ (ok t.pending, s')) × (view s' ≡ t)
  unfolding read_exactly
  read_exactly_ok n s t is_t l =
      let (s', got, kept) =
        tag.reads n s (omega (arith, ap (λ (v : Tag). length v.pending) is_t, l)) in
      (
        s',
        then_ok (link.read_data n) (λ r s. (if length r == n then ok r else err esp_fail, s)) s s'
              t.pending (got ∙ ap (λ (v : Tag). (ok v.pending, s')) is_t)
            ∙ ap (λ k. (if k == n then ok t.pending else err esp_fail, s')) l
            ∙ ap (λ b. (if b then ok t.pending else err esp_fail, s')) (eq_refl n),
        kept ∙ is_t,
      )

  -- A frame out, and the card's answer of so many bytes back.
  pub ask :
      {A : Type 0} (n : ℕ) (frame : List ℕ) (bits : ℕ) (s : S) (t : Tag) (rest : List ℕ → Io S A)
      → length frame ≤ 260
      → listen whole atqa0 atqa1 sak ats (view s).chunks frame (view s) ≡ t
      → length t.pending ≡ n
      → (s' : S) × ((link.send_data frame bits then_with λ _. read_exactly link n then_with rest) s
          ≡ rest t.pending s')
        × (view s' ≡ t)
  ask n frame bits s t rest short is_t l =
      let (s₁, sent, seen) = tag.sends frame bits s short in
      let (s₂, got, kept) = read_exactly_ok n s₁ t (seen ∙ is_t) l in
      (
        s₂,
        then_ok (link.send_data frame bits) (λ _. read_exactly link n then_with rest) s s₁ tt sent
            ∙ then_ok (read_exactly link n) rest s₁ s₂ t.pending got,
        kept,
      )

  -- The answers of a card at a level to both requests there.
  pub select_level_ok :
      (c : Chunk) (cs : List Chunk) (sel : ℕ) (old : List ℕ) (s : S)
      → view s ≡ record { chunks = c ∷ cs; sel = sel; pending = old }
      → (s' : S) × (select_level link sel s
          ≡ (ok (shown c, sak_of whole atqa0 atqa1 sak ats cs), s'))
        × (view s' ≡ record {
          chunks = cs;
          sel = sel + 2;
          pending = sak_of whole atqa0 atqa1 sak ats cs ∷ [];
        })
  unfolding select_level
  select_level_ok c cs sel old s is_t =
      let t : Tag = record { chunks = c ∷ cs; sel = sel; pending = old } in
      let t₁ : Tag = record t { pending = shown c } in
      let (s₁, first, seen) =
        ask 5 (sel ∷ 0x20 ∷ []) 0 s t₁ (select_uid link sel) (omega arith)
          (ap (λ (v : Tag). listen whole atqa0 atqa1 sak ats v.chunks (sel ∷ 0x20 ∷ []) v) is_t
            ∙ listen_anticollision whole atqa0 atqa1 sak ats c cs t)
          refl in
      let t₂ : Tag = record {
        chunks = cs;
        sel = sel + 2;
        pending = sak_of whole atqa0 atqa1 sak ats cs ∷ [];
      } in
      let (s₂, second, seen₂) =
        ask 1 (sel ∷ 0x70 ∷ shown c) 0 (link.crc true s₁) t₂
          (λ r s'. (ok (shown c, get_or r 0 0), s')) (omega arith)
          (ap (λ (v : Tag). listen whole atqa0 atqa1 sak ats v.chunks (sel ∷ 0x70 ∷ shown c) v)
              (tag.keeps true s₁ ∙ seen)
            ∙ listen_select whole atqa0 atqa1 sak ats c cs t₁)
          refl in
      (s₂, first ∙ select_uid-shown link sel c s₁ ∙ second, seen₂)

  -- A level whose answers have come, with the UID so far.
  pub level_lem :
      (sel : ℕ) (sels : List ℕ) (got : List ℕ) (c : Chunk) (cs : List Chunk) (old part : List ℕ)
      (s : S)
      → view s ≡ record { chunks = c ∷ cs; sel = sel; pending = old }
      → uid_part (shown c) ≡ part
      → length (got ++ part) ≤ 10
      → (s' : S) × (cascade_loop link (sel ∷ sels) got s ≡ (
          if bit_and (sak_of whole atqa0 atqa1 sak ats cs) 0x04 == 0
          then (ok (got ++ part, sak_of whole atqa0 atqa1 sak ats cs), s')
          else cascade_loop link sels (got ++ part) (link.crc false s')))
        × (view s' ≡ record {
          chunks = cs;
          sel = sel + 2;
          pending = sak_of whole atqa0 atqa1 sak ats cs ∷ [];
        })
  unfolding cascade_loop
  level_lem sel sels got c cs old part s is_t is_part room =
      let (s', reached, shows) = select_level_ok c cs sel old s is_t in
      let fits : ltb 10 (length (got ++ part)) ≡ false = ground (arith, room) in
      (
        s',
        then_ok (select_level link sel) _ s s' (shown c, sak_of whole atqa0 atqa1 sak ats cs)
              reached
            ∙ rw (is_part, fits) refl,
        shows,
      )

  -- The levels that are left bring the rest of the UID.
  pub cascade_loop_ok :
      {cs : List Chunk} {uid : List ℕ} (n sel : ℕ) (got old : List ℕ) (s : S)
      → Levels cs uid
      → bit_and sak 0x04 ≡ 0
      → view s ≡ record { chunks = cs; sel = sel; pending = old }
      → length cs ≤ n
      → length got + length uid ≤ 10
      → (s' : S) × (cascade_loop link (codes n sel) got s ≡ (ok (got ++ uid, sak), s'))
        × ((view s').chunks ≡ [])
  cascade_loop_ok zero sel got old s (last_level a b c d other) complete is_t enough room =
      absurd (omega arith)
  cascade_loop_ok zero sel got old s (more_levels a b c levels) complete is_t enough room =
      absurd (omega arith)
  cascade_loop_ok (suc n) sel got old s (last_level a b c d other) complete is_t enough room =
      let (s', reached, shows) =
        level_lem sel (codes n (sel + 2)) got
          (record { byte0 = a; byte1 = b; byte2 = c; byte3 = d }) [] old (a ∷ b ∷ c ∷ d ∷ []) s is_t
          (uid_part_last a b c d other)
          (omega (arith, length-append got (a ∷ b ∷ c ∷ d ∷ []), room)) in
      (
        s',
        reached
            ∙ ending (sak_of whole atqa0 atqa1 sak ats []) _ _ s' _
                (sak_of_last whole atqa0 atqa1 sak ats) complete,
        ap (λ (v : Tag). v.chunks) shows,
      )
  cascade_loop_ok {cs = _ ∷ cs} (suc n) sel got old s (more_levels {uid = uid} a b c levels)
        complete is_t enough room =
      let part = a ∷ b ∷ c ∷ [] in
      let sizes = length-append got part in
      let (s₁, reached, shows) =
        level_lem sel (codes n (sel + 2)) got
          (record { byte0 = 0x88; byte1 = a; byte2 = b; byte3 = c }) cs old part s is_t
          (uid_part_tag a b c) (omega (arith, sizes, room)) in
      let (s₂, rest, done) =
        cascade_loop_ok n (sel + 2) (got ++ part) (sak_of whole atqa0 atqa1 sak ats cs ∷ [])
          (link.crc false s₁) levels complete (tag.keeps false s₁ ∙ shows) (omega (arith, enough))
          (omega (arith, sizes, room)) in
      (
        s₂,
        reached
            ∙ ap
                (λ k.
                  if bit_and k 0x04 == 0
                  then (ok (got ++ part, k), s₁)
                  else cascade_loop link (codes n (sel + 2)) (got ++ part) (link.crc false s₁))
                (sak_of-Levels whole atqa0 atqa1 sak ats levels)
            ∙ rest
            ∙ ap (λ u. (ok (u, sak), s₂)) (append_assoc got part uid),
        done,
      )
