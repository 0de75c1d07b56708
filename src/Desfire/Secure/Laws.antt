-- ===== src/Desfire/Secure/Laws.antt =====
-- components/desfire/desfire_enc.c: what ChangeKey does to the session.
use osdp_reader_test_project.Common.{
  ℕ, ◌+◌, ◌-◌, ◌≤◌, ◌≡◌, ◌≢◌, refl, ◌∙◌, ◌⊎◌, inl, inr, Bool, true, false, not, length-take, List,
  [], ◌∷◌, ◌++◌, length, take, drop, take-append-drop, get_or, ltb, ◌==◌, ==_iff, ◌%◌, ◌^◌, mem_eq,
  mem_eq→eq, arith, ap, sym, if◌then◌else◌,
}
use osdp_reader_test_project.Esp.{Outcome, ok, err, fault}
use osdp_reader_test_project.Desfire.State.{Session, Platform, Host}
use osdp_reader_test_project.Common.Bytes.{from_le32}
use osdp_reader_test_project.Desfire.Crypto.{desfire_crc32}
use osdp_reader_test_project.Desfire.Post.{
  OnOk, bind-OnOk, on_ok, Ends, bind-Ends, Ends-mono, if_cases,
}
use osdp_reader_test_project.Desfire.Transport.{bump_ctr, desfire_xfer, session_mac}
use osdp_reader_test_project.Desfire.Transport.Exchange.{Keeps, xfer-Keeps}
use osdp_reader_test_project.Desfire.Transport.Counter.{Counted}
use osdp_reader_test_project.Desfire.Secure.{
  change_key_finish, desfire_change_key, enc_recv_finish, desfire_enc_recv, open_payload,
  pad_to_block, change_key_plain, desfire_enc_iv,
}

module _ {W : Type 0} (p : Platform W) where
  -- The session of `h` with `authenticated` cleared.
  abbrev Closed : Host W → Host W → Type 0
  Closed h g =
      (let s = h.session in g.session ≡ record s { authenticated = false })
      × (g.mac_key ≡ h.mac_key)

  -- After a ChangeKey that succeeds: the key in use ends the session, another key counts.
  abbrev Changed : Bool → Host W → Host W → Type 0
  Changed same h g = if same then Closed h g else Counted h g

  finish-Changed :
      (h : Host W) (same : Bool) (r : ℕ × List ℕ) (g : Host W)
      → Keeps h g
      → Ends
          (λ _ g'. Changed same h g')
          (λ g'. Keeps h g' ⊎ Counted h g')
          (change_key_finish p same r g)
  unfolding change_key_finish bump_ctr
  finish-Changed h true (st, rx) g k = ground arith
  finish-Changed h false (st, rx) g k = ground arith

  -- A ChangeKey that succeeds on the key of the session ends the session and leaves its command
  -- counter as it was, and on another key moves the counter by one; one that fails moves it by one or not at all. Nothing else of the
  -- session and of the MAC key changes, on any branch.
  pub change_key-Changed :
      (key_no version : ℕ) (old_key new_key : List ℕ) (h : Host W)
      → Ends
          (λ _ g.
            if key_no == h.session.key_no
            then (let s = h.session in g.session ≡ record s { authenticated = false })
              × (g.mac_key ≡ h.mac_key)
            else Counted h g)
          (λ g. Keeps h g ⊎ Counted h g)
          (desfire_change_key p key_no old_key new_key version h)
  unfolding desfire_change_key
  change_key-Changed key_no version old_key new_key h =
      if_cases P (not h.session.authenticated) (λ _. inl (refl, refl))
        λ _.
          if_cases P
            (length (pad_to_block (change_key_plain same key_no old_key new_key version) 32) == 0)
            (λ _. inl (refl, refl))
            λ _.
              bind-Ends (λ _ g. Keeps h g) (λ _ g. Changed same h g) (λ g. Keeps h g ⊎ Counted h g)
                _ _ h
                (Ends-mono (λ _ g. Keeps h g) (λ _ g. Keeps h g) (λ g. Keeps h g)
                  (λ g. Keeps h g ⊎ Counted h g) _ (λ _ g k. k) (λ g k. inl k)
                  (xfer-Keeps p _ _ _ h))
                (λ r g k. finish-Changed h same r g k)
    where
      same : Bool
      same = key_no == h.session.key_no

      P : Outcome (Unit {0}) × Host W → Type 0
      P = Ends (λ _ g. Changed same h g) (λ g. Keeps h g ⊎ Counted h g)

  -- What the response to an encrypted read decrypts to, in the session of `g`.
  abbrev pub opened : Host W → List ℕ → List ℕ
  opened g cipher = p.cbc_decrypt g.session.k_ses_auth_enc (desfire_enc_iv p g 0x5A 0xA5) cipher

  -- The card's reply to the command was a ciphertext with its MAC under the counted session, and
  -- `out` is the head of its plaintext, in front of the checksum over the status and the data.
  abbrev pub Authentic : ℕ → List ℕ → ℕ → Host W → List ℕ → Host W → Type 0
  Authentic cmd header n h out g =
      (cipher : List ℕ) × (g₀ : Host W) × (desfire_xfer p cmd (header ++ session_mac p h cmd header)
          280 h
        ≡ (ok (0, cipher ++ session_mac p g 0 cipher), g₀))
      × (g ≡ bump_ctr g₀)
      × (out ≡ take n (opened g cipher))
      × (desfire_crc32 (0 ∷ out)
          ≡ from_le32 (get_or (opened g cipher) n 0) (get_or (opened g cipher) (n + 1) 0)
              (get_or (opened g cipher) (n + 2) 0) (get_or (opened g cipher) (n + 3) 0))

  -- The same of a reply `rx`, by the tests of the code.
  abbrev Sealed : ℕ → List ℕ → Host W → List ℕ → Type 0
  Sealed n rx g out =
      let cipher = take (length rx - 8) rx in
      (mem_eq (drop (length rx - 8) rx) (session_mac p g 0 cipher) ≡ true)
      × (out ≡ take n (opened g cipher))
      × ((desfire_crc32 (0 ∷ out)
            == from_le32 (get_or (opened g cipher) n 0) (get_or (opened g cipher) (n + 1) 0)
                (get_or (opened g cipher) (n + 2) 0) (get_or (opened g cipher) (n + 3) 0))
          ≡ true)

  -- Of a response: the card's refusal, which changes nothing, or a payload of the length asked for.
  abbrev Received : ℕ → Host W → ℕ × List ℕ → Host W → ℕ × List ℕ → Host W → Type 0
  Received n h (st, rx) g₀ r g =
      ((r.0 ≡ 0)
        × (st ≡ 0)
        × (length r.1 ≡ n)
        × Counted h g
        × (g ≡ bump_ctr g₀)
        × Sealed n rx g r.1)
      ⊎ ((r.0 ≢ 0) × (r.1 ≡ []) × Keeps h g)

  not-not : {b : Bool} → not b ≡ false → b ≡ true
  not-not e = ground (arith, e)

  -- What is left to show of a plaintext once its MAC is right.
  open_payload-sealed_by :
      (n m : ℕ) (plain : List ℕ)
      → length plain ≡ m
      → (g : Host W)
      → OnOk
          (λ r _.
            (r.0 ≡ 0)
            × (length r.1 ≡ n)
            × (r.1 ≡ take n plain)
            × ((desfire_crc32 (0 ∷ r.1)
                  == from_le32
                      (get_or plain n 0)
                      (get_or plain (n + 1) 0)
                      (get_or plain (n + 2) 0)
                      (get_or plain (n + 3) 0))
                ≡ true))
          (open_payload n m plain, g)
  unfolding open_payload
  open_payload-sealed_by n m plain l g = ground (arith, l, length-take {0} n plain)

  open-Received :
      (n : ℕ) (h : Host W) (st : ℕ) (rx : List ℕ) (g : Host W)
      → Keeps h g
      → st ≡ 0
      → (let m = length rx - 8 in
          mem_eq (drop m rx) (session_mac p (bump_ctr g) 0 (take m rx)) ≡ true)
      → (o : Outcome (ℕ × List ℕ))
      → OnOk
          (λ r _.
            let plain = opened (bump_ctr g) (take (length rx - 8) rx) in
            (r.0 ≡ 0)
            × (length r.1 ≡ n)
            × (r.1 ≡ take n plain)
            × ((desfire_crc32 (0 ∷ r.1)
                  == from_le32
                      (get_or plain n 0)
                      (get_or plain (n + 1) 0)
                      (get_or plain (n + 2) 0)
                      (get_or plain (n + 3) 0))
                ≡ true))
          (o, bump_ctr g)
      → OnOk (λ r g'. Received n h (st, rx) g r g') (o, bump_ctr g)
  unfolding bump_ctr
  open-Received n h st rx g k is_ok mac (ok r) (zero_r, l, out, crc) = inl (
    zero_r,
    is_ok,
    l,
    (ap (λ (s : Session). record s { cmd_ctr = (s.cmd_ctr + 1) % 2 ^ 16 }) k.0, k.1),
    refl,
    (mac, out, crc),
  )
  open-Received n h st rx g k is_ok mac (err _) x = tt
  open-Received n h st rx g k is_ok mac fault x = tt

  recv-Received :
      ((key iv xs : List ℕ) → length (p.cbc_decrypt key iv xs) ≡ length xs)
      → (n : ℕ) (h : Host W) (r : ℕ × List ℕ) (g : Host W) → Keeps h g
      → OnOk (λ x g'. Received n h r g x g') (enc_recv_finish p n r g)
  unfolding enc_recv_finish
  recv-Received keeps_length n h (st, rx) g k =
      let m = length rx - 8 in
      let g' = bump_ctr g in
      let cipher = take m rx in
      let R = OnOk (λ x g'. Received n h (st, rx) g x g') in
      let size : length (opened g' cipher) ≡ m =
        keeps_length _ _ cipher ∙ omega (arith, length-take {0} m rx) in
      if_cases R (not (st == 0)) (λ e. inr (ground (arith, e), refl, k))
        λ st_ok.
          let is_ok : st ≡ 0 = ground (arith, st_ok) in
          if_cases R (ltb (length rx) 8) (λ _. tt)
            λ _.
              if_cases R (ltb 287 (7 + m)) (λ _. tt)
                λ _.
                  if_cases R (not (mem_eq (drop m rx) (session_mac p g' st cipher))) (λ _. tt)
                    λ mac.
                      if_cases R (not (m % 16 == 0)) (λ _. tt)
                        λ _.
                          if_cases R (ltb 280 m) (λ _. tt)
                            λ _.
                              open-Received n h st rx g k is_ok
                                (ap (λ t. mem_eq (drop m rx) (session_mac p g' t cipher))
                                    (sym is_ok)
                                  ∙ not-not mac)
                                (open_payload n m (opened g' cipher))
                                (open_payload-sealed_by n m (opened g' cipher) size g')

  -- With a decryption that keeps the length, an encrypted read that succeeds has moved the command
  -- counter by one and gives exactly the bytes asked for, which fit the buffer of the caller: the
  -- card's reply was a ciphertext followed by its MAC under that counter, and the bytes are the
  -- first of its plaintext, where the checksum over the status and them follows. Or it gives the
  -- error status of the card, no bytes, and the session as it was.
  pub enc_recv-Received :
      (cmd : ℕ) (header : List ℕ) (n resp_buf : ℕ) (h : Host W)
      → ((key iv xs : List ℕ) → length (p.cbc_decrypt key iv xs) ≡ length xs)
      → OnOk
          (λ r g.
            ((r.0 ≡ 0)
              × (length r.1 ≡ n)
              × (length r.1 ≤ resp_buf)
              × Counted h g
              × Authentic cmd header n h r.1 g)
            ⊎ ((r.0 ≢ 0) × (r.1 ≡ []) × Keeps h g))
          (desfire_enc_recv p cmd header n resp_buf h)
  unfolding desfire_enc_recv
  enc_recv-Received cmd header n resp_buf h keeps_length =
      if_cases P (not h.session.authenticated) (λ _. tt)
        λ _.
          if_cases P (ltb resp_buf n) (λ _. tt)
            λ room.
              if_cases P (ltb 71 (7 + length header)) (λ _. tt)
                λ _.
                  if_cases P (ltb 72 (length header + 8)) (λ _. tt)
                    λ _.
                      bind-OnOk Sent Q _ _ h
                        (with_result (sent h)
                          (on_ok (λ _ g. Keeps h g) (λ g. Keeps h g) _ (xfer-Keeps p cmd _ _ h)))
                        (λ r g s. with_room room r g s.1 _ (recv-Received keeps_length n h r g s.0))
    where
      sent : Host W → Outcome (ℕ × List ℕ) × Host W
      sent = desfire_xfer p cmd (header ++ session_mac p h cmd header) 280

      Sent : ℕ × List ℕ → Host W → Type 0
      Sent = λ r g. Keeps h g × (sent h ≡ (ok r, g))

      with_result :
          (x : Outcome (ℕ × List ℕ) × Host W)
          → OnOk (λ _ g. Keeps h g) x
          → OnOk (λ r g. Keeps h g × (x ≡ (ok r, g))) x
      with_result (ok r, g) k = (k, refl)
      with_result (err _, g) k = tt
      with_result (fault, g) k = tt

      Q : ℕ × List ℕ → Host W → Type 0
      Q = λ r g.
          ((r.0 ≡ 0)
            × (length r.1 ≡ n)
            × (length r.1 ≤ resp_buf)
            × Counted h g
            × Authentic cmd header n h r.1 g)
          ⊎ ((r.0 ≢ 0) × (r.1 ≡ []) × Keeps h g)

      P : Outcome (ℕ × List ℕ) × Host W → Type 0
      P = OnOk Q

      with_room :
          ltb resp_buf n ≡ false
          → (reply : ℕ × List ℕ) (g₀ : Host W) → sent h ≡ (ok reply, g₀)
          → (x : Outcome (ℕ × List ℕ) × Host W) → OnOk (λ r g. Received n h reply g₀ r g) x
          → OnOk Q x
      with_room e (st, rx) g₀ came (ok r, g) (inl (s, zero_st, l, c, counted, seal)) =
          let m = length rx - 8 in
          let whole : rx ≡ take m rx ++ session_mac p g 0 (take m rx) =
            sym (take-append-drop m rx)
            ∙ ap (λ y. take m rx ++ y)
                (mem_eq→eq (drop m rx) (session_mac p g 0 (take m rx)) seal.0) in
          inl (
            s,
            l,
            ground (arith, e, l),
            c,
            (
              take m rx,
              g₀,
              came ∙ ap (λ t. (ok (t, rx), g₀)) zero_st ∙ ap (λ y. (ok (0, y), g₀)) whole,
              counted,
              seal.1,
              (==_iff _ _).0 seal.2,
            ),
          )
      with_room e _ _ came (ok r, g) (inr x) = inr x
      with_room e _ _ came (err _, g) x = tt
      with_room e _ _ came (fault, g) x = tt
