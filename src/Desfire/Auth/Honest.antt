-- ===== src/Desfire/Auth/Honest.antt =====
-- components/desfire/desfire_auth.c: AuthenticateEV2First with a card that holds the key.
use osdp_reader_test_project.Common.{
  ℕ, ◌%◌, ◌≡◌, refl, ◌∙◌, true, List, [], ◌∷◌, ◌++◌, length, length-append, slice, take, drop,
  drop-append_left, take-append_left, replicate, ◌==◌, arith, ap, sym, mem_eq, mem_eq_refl,
  if◌then◌else◌,
}
use osdp_reader_test_project.Esp.{ok}
use osdp_reader_test_project.Desfire.State.{Platform, Host}
use osdp_reader_test_project.Desfire.Bind.{bind_ok}
use osdp_reader_test_project.Desfire.Transport.{apdu_of, desfire_xfer}
use osdp_reader_test_project.Desfire.Transport.Exchange.{xfer_lem}
use osdp_reader_test_project.Desfire.Auth.{
  rotate_left_1, auth_step1, auth_step2, open_session, desfire_auth_ev2_first,
}

module _ {W : Type 0} (p : Platform W) where
  step2_ok :
      (key_no : ℕ) (key rnd_a rnd_b enc resp : List ℕ) (h : Host W)
      → length resp ≡ 32
      → slice 4 16 (p.cbc_decrypt key (slice 16 16 enc) resp) ≡ rotate_left_1 rnd_a
      → (auth_step2 p key_no key rnd_a rnd_b enc (0, resp) h).0 ≡ ok tt
  unfolding auth_step2
  step2_ok key_no key rnd_a rnd_b enc resp h l e =
      let size : (length resp == 32) ≡ true = ground (arith, l) in
      rw (size, e, mem_eq_refl (rotate_left_1 rnd_a)) (unfold open_session in refl)

  -- The two exchanges of a handshake, the world after each step, and that the last one brings the
  -- reader's nonce back.
  record Exchanged (key_no : ℕ) (key : List ℕ) (w : W) : Type 0 where
    e_rnd_b : List ℕ
    rnd_a : List ℕ
    resp : List ℕ
    w₁ : W
    w₂ : W
    w₃ : W
    challenge :
        p.apdu_exchange (apdu_of 0x71 (key_no ∷ 0x00 ∷ 0x00 ∷ [])) 280 w
        ≡ (ok (e_rnd_b ++ (0x91 ∷ 0xAF ∷ [])), w₁)
    challenge_size : length e_rnd_b ≡ 16
    nonce : p.fill_random w₁ ≡ (rnd_a, w₂)
    answer_size :
        length (
          p.cbc_encrypt key e_rnd_b
            (rnd_a ++ rotate_left_1 (p.cbc_decrypt key (replicate 16 0) e_rnd_b)))
        ≡ 32
    answer :
        p.apdu_exchange
          (apdu_of 0xAF (
            p.cbc_encrypt key e_rnd_b
              (rnd_a ++ rotate_left_1 (p.cbc_decrypt key (replicate 16 0) e_rnd_b))))
          280
          w₂
        ≡ (ok (resp ++ (0x91 ∷ 0x00 ∷ [])), w₃)
    resp_size : length resp ≡ 32
    proves :
        slice 4 16 (
          p.cbc_decrypt key
            (slice 16 16 (
              p.cbc_encrypt key e_rnd_b
                (rnd_a ++ rotate_left_1 (p.cbc_decrypt key (replicate 16 0) e_rnd_b))))
            resp)
        ≡ rotate_left_1 rnd_a

  step1_ok :
      (key_no : ℕ) (key : List ℕ) (w : W) (i : Exchanged key_no key w) (h : Host W)
      → h.world ≡ i.w₁
      → (auth_step1 p key_no key (0xAF, i.e_rnd_b) h).0 ≡ ok tt
  unfolding auth_step1
  step1_ok key_no key w i h at_w₁ =
      let rnd_b = p.cbc_decrypt key (replicate 16 0) i.e_rnd_b in
      let enc = p.cbc_encrypt key i.e_rnd_b (i.rnd_a ++ rotate_left_1 rnd_b) in
      let size : (length i.e_rnd_b == 16) ≡ true = ground (arith, i.challenge_size) in
      let h₂ = record h { world = i.w₂ } in
      let second =
        xfer_lem p 0xAF enc 64 0x00 i.resp h₂ i.w₃ (omega (arith, i.answer_size))
          (omega (arith, i.resp_size)) i.answer in
      let h₃ = record h { last_status = 0x00; world = i.w₃ } in
      rw (size, at_w₁, i.nonce)
        (ap (λ r. r.0)
            (bind_ok (desfire_xfer p 0xAF enc 64) (auth_step2 p key_no key i.rnd_a rnd_b enc) h₂ h₃
              (0x00, i.resp) second)
          ∙ step2_ok key_no key i.rnd_a rnd_b enc i.resp h₃ i.resp_size i.proves)

  Exchanged-ok :
      (key_no : ℕ) (key : List ℕ) (h : Host W)
      → Exchanged key_no key h.world
      → (desfire_auth_ev2_first p key_no key h).0 ≡ ok tt
  unfolding desfire_auth_ev2_first
  Exchanged-ok key_no key h i =
      let h₁ = record h { last_status = 0xAF; world = i.w₁ } in
      let params = key_no ∷ 0x00 ∷ 0x00 ∷ [] in
      let first =
        xfer_lem p 0x71 params 64 0xAF i.e_rnd_b h i.w₁ (omega arith)
          (omega (arith, i.challenge_size)) i.challenge in
      ap (λ r. r.0)
        (bind_ok (desfire_xfer p 0x71 params 64) (auth_step1 p key_no key) h h₁ (0xAF, i.e_rnd_b)
          first)
      ∙ step1_ok key_no key h.world i h₁ refl

  -- A string rotated left by a byte.
  abbrev rotated : List ℕ → List ℕ
  rotated xs = drop 1 xs ++ take 1 xs

  rotate_left_1-rotated : (xs : List ℕ) → rotate_left_1 xs ≡ rotated xs
  unfolding rotate_left_1
  rotate_left_1-rotated [] = refl
  rotate_left_1-rotated (x ∷ xs) = refl

  length-rotated : (xs : List ℕ) → length (rotated xs) ≡ length xs
  length-rotated [] = refl
  length-rotated (x ∷ xs) = length-append xs (x ∷ []) ∙ omega arith

  -- What a card whose nonce is `rnd_b` and whose challenge was `e_rnd_b` answers to `enc`: where
  -- this has the card's nonce rotated behind the reader's, a cryptogram of the transaction
  -- identifier, the reader's nonce rotated and the capabilities, and an error otherwise. The
  -- initial vector of each cryptogram is the last block of the one before it.
  unfoldable pub card_answer : List ℕ → List ℕ → List ℕ → List ℕ → List ℕ → List ℕ → List ℕ
  card_answer key rnd_b e_rnd_b ti caps enc =
      let plain = p.cbc_decrypt key e_rnd_b enc in
      if mem_eq (drop 16 plain) (rotated rnd_b)
      then p.cbc_encrypt key (slice 16 16 enc) (ti ++ (rotated (take 16 plain) ++ caps))
        ++ (0x91 ∷ 0x00 ∷ [])
      else 0x91 ∷ 0xAE ∷ []

  -- A card that holds the key, at the end of a link without errors, with the ciphers of the key
  -- inverse to each other on whole blocks, and a source of nonces of 16 bytes.
  pub record IsHonest (key_no : ℕ) (key rnd_b ti caps : List ℕ) : Type 0 where
    pub inverse :
        (iv xs : List ℕ) → length xs % 16 ≡ 0 → p.cbc_decrypt key iv (p.cbc_encrypt key iv xs) ≡ xs
    pub keeps_length :
        (iv xs : List ℕ) → length xs % 16 ≡ 0 → length (p.cbc_encrypt key iv xs) ≡ length xs
    pub nonce_size : (w : W) → length (p.fill_random w).0 ≡ 16
    pub rnd_b_size : length rnd_b ≡ 16
    pub ti_size : length ti ≡ 4
    pub caps_size : length caps ≡ 12
    pub challenges :
        (w : W)
        → (w' : W) × (p.apdu_exchange (apdu_of 0x71 (key_no ∷ 0x00 ∷ 0x00 ∷ [])) 280 w
            ≡ (ok (p.cbc_encrypt key (replicate 16 0) rnd_b ++ (0x91 ∷ 0xAF ∷ [])), w'))
    pub answers :
        (enc : List ℕ) (w : W)
        → (w' : W) × (p.apdu_exchange (apdu_of 0xAF enc) 280 w ≡ (
          ok (card_answer key rnd_b (p.cbc_encrypt key (replicate 16 0) rnd_b) ti caps enc),
          w',
        ))

  module _ {key_no : ℕ} {key rnd_b ti caps : List ℕ}
      (card : IsHonest key_no key rnd_b ti caps) where
    abbrev e_rnd_b : List ℕ
    e_rnd_b = p.cbc_encrypt key (replicate 16 0) rnd_b

    -- What the reader sends for its nonce, and what the card answers to it.
    abbrev cryptogram : List ℕ → List ℕ
    cryptogram rnd_a = p.cbc_encrypt key e_rnd_b (rnd_a ++ rotated rnd_b)

    abbrev answer_of : List ℕ → List ℕ
    answer_of rnd_a =
        p.cbc_encrypt key (slice 16 16 (cryptogram rnd_a)) (ti ++ (rotated rnd_a ++ caps))

    length-both : (rnd_a : List ℕ) → length rnd_a ≡ 16 → length (rnd_a ++ rotated rnd_b) ≡ 32
    length-both rnd_a l =
        omega (arith, l, length-append rnd_a (rotated rnd_b), length-rotated rnd_b, card.rnd_b_size)

    length-cryptogram : (rnd_a : List ℕ) → length rnd_a ≡ 16 → length (cryptogram rnd_a) ≡ 32
    length-cryptogram rnd_a l =
        let both = length-both rnd_a l in
        card.keeps_length e_rnd_b (rnd_a ++ rotated rnd_b) (omega (arith, both)) ∙ both

    length-plain :
        (rnd_a : List ℕ) → length rnd_a ≡ 16 → length (ti ++ (rotated rnd_a ++ caps)) ≡ 32
    length-plain rnd_a l = omega (
      arith,
      l,
      length-append ti (rotated rnd_a ++ caps),
      length-append (rotated rnd_a) caps,
      length-rotated rnd_a,
      card.ti_size,
      card.caps_size,
    )

    -- The card finds its nonce, and the reader's.
    answer_of-card_answer :
        (rnd_a : List ℕ)
        → length rnd_a ≡ 16
        → card_answer key rnd_b e_rnd_b ti caps (cryptogram rnd_a)
          ≡ answer_of rnd_a ++ (0x91 ∷ 0x00 ∷ [])
    unfolding card_answer
    answer_of-card_answer rnd_a l =
        let both = length-both rnd_a l in
        rw
          (
            card.inverse e_rnd_b (rnd_a ++ rotated rnd_b) (omega (arith, both)),
            drop-append_left 16 rnd_a (rotated rnd_b) l,
            take-append_left 16 rnd_a (rotated rnd_b) l,
            mem_eq_refl (rotated rnd_b),
          )
          refl

    sent_as :
        (rnd_a : List ℕ)
        → p.cbc_encrypt key e_rnd_b
            (rnd_a ++ rotate_left_1 (p.cbc_decrypt key (replicate 16 0) e_rnd_b))
          ≡ cryptogram rnd_a
    sent_as rnd_a =
        let whole : length rnd_b % 16 ≡ 0 = omega (arith, card.rnd_b_size) in
        ap (λ x. p.cbc_encrypt key e_rnd_b (rnd_a ++ x))
          (ap rotate_left_1 (card.inverse (replicate 16 0) rnd_b whole)
            ∙ rotate_left_1-rotated rnd_b)

    proves_nonce :
        (rnd_a : List ℕ)
        → length rnd_a ≡ 16
        → slice 4 16 (p.cbc_decrypt key (slice 16 16 (cryptogram rnd_a)) (answer_of rnd_a))
          ≡ rotate_left_1 rnd_a
    proves_nonce rnd_a l =
        ap (slice 4 16) (
          card.inverse (slice 16 16 (cryptogram rnd_a)) (ti ++ (rotated rnd_a ++ caps))
            (omega (arith, length-plain rnd_a l)))
        ∙ ap (take 16) (drop-append_left 4 ti (rotated rnd_a ++ caps) card.ti_size)
        ∙ take-append_left 16 (rotated rnd_a) caps (length-rotated rnd_a ∙ l)
        ∙ sym (rotate_left_1-rotated rnd_a)

    exchanged : (w : W) → Exchanged key_no key w
    exchanged w =
        let (w₁, first) = card.challenges w in
        let (rnd_a, w₂) = p.fill_random w₁ in
        let l = card.nonce_size w₁ in
        let (w₃, second) = card.answers (cryptogram rnd_a) w₂ in
        let whole : length rnd_b % 16 ≡ 0 = omega (arith, card.rnd_b_size) in
        let plain_size = length-plain rnd_a l in
        record {
          e_rnd_b = e_rnd_b;
          rnd_a = rnd_a;
          resp = answer_of rnd_a;
          w₁ = w₁;
          w₂ = w₂;
          w₃ = w₃;
          challenge = first;
          challenge_size = card.keeps_length (replicate 16 0) rnd_b whole ∙ card.rnd_b_size;
          nonce = refl;
          answer_size = ap length (sent_as rnd_a) ∙ length-cryptogram rnd_a l;
          answer =
              ap (λ e. p.apdu_exchange (apdu_of 0xAF e) 280 w₂) (sent_as rnd_a)
              ∙ second
              ∙ ap (λ x. (ok x, w₃)) (answer_of-card_answer rnd_a l);
          resp_size =
              card.keeps_length (slice 16 16 (cryptogram rnd_a)) (ti ++ (rotated rnd_a ++ caps))
                (omega (arith, plain_size))
              ∙ plain_size;
          proves =
              ap (λ e. slice 4 16 (p.cbc_decrypt key (slice 16 16 e) (answer_of rnd_a)))
                (sent_as rnd_a)
              ∙ proves_nonce rnd_a l;
        }

    -- The authentication of a card that holds the key succeeds, in every state of the reader and
    -- for every nonce: a card that chains the initial vectors of its three cryptograms, and that
    -- answers with the reader's nonce only where its own has come back.
    pub auth_ev2_first_honest : (h : Host W) → (desfire_auth_ev2_first p key_no key h).0 ≡ ok tt
    auth_ev2_first_honest h = Exchanged-ok key_no key h (exchanged h.world)
