-- ===== src/Desfire/Transport/Exchange.antt =====
-- components/desfire/desfire.c: what `desfire_xfer` and `cmac_append_and_send` do to the state, and
-- what they return for a well-formed response.
use osdp_reader_test_project.Common.{
  ℕ, suc, ◌+◌, ◌-◌, ◌≤◌, ◌≡◌, refl, ap, ◌∙◌, false, List, [], ◌∷◌, ◌++◌, length, length-append,
  get_or, take-append_left, ltb, arith,
}
use osdp_reader_test_project.Esp.{Outcome, ok, err, fault}
use osdp_reader_test_project.Desfire.State.{Platform, Host}
use osdp_reader_test_project.Desfire.Post.{Ends, if_cases}
use osdp_reader_test_project.Desfire.Transport.{xfer_reply, xfer_received, desfire_xfer, apdu_of}

-- The session and the key of the MAC are as they were.
abbrev pub Keeps : {W : Type 0} → Host W → Host W → Type 0
Keeps h g = (g.session ≡ h.session) × (g.mac_key ≡ h.mac_key)

pub get_or-append : (xs ys : List ℕ) (i d : ℕ) → get_or (xs ++ ys) (length xs + i) d ≡ get_or ys i d
get_or-append [] ys i d = ap (λ k. get_or ys k d) (let e : 0 + i ≡ i = omega arith in e)
get_or-append (x ∷ xs) ys i d =
    ap (λ k. get_or (x ∷ xs ++ ys) k d)
      (let e : suc (length xs) + i ≡ suc (length xs + i) = omega arith in e)
    ∙ get_or-append xs ys i d

module _ {W : Type 0} where
  xfer_reply-Keeps :
      (n : ℕ) (rx : List ℕ) (h : Host W)
      → Ends (λ _ g. Keeps h g) (λ g. Keeps h g) (xfer_reply n rx h)
  unfolding xfer_reply
  xfer_reply-Keeps n rx h = ground arith

  xfer_received-Keeps :
      (n : ℕ) (r : Outcome (List ℕ)) (h : Host W)
      → Ends (λ _ g. Keeps h g) (λ g. Keeps h g) (xfer_received n r h)
  unfolding xfer_received
  xfer_received-Keeps n (ok rx) h = xfer_reply-Keeps n rx h
  xfer_received-Keeps n (err e) h = (refl, refl)
  xfer_received-Keeps n fault h = (refl, refl)

  -- A response `body | 0x91 | status` with room for the body.
  pub xfer_reply_lem :
      (n st : ℕ) (body : List ℕ) (h : Host W)
      → length body ≤ n
      → xfer_reply n (body ++ (0x91 ∷ st ∷ [])) h ≡ (ok (st, body), record h { last_status = st })
  unfolding xfer_reply
  xfer_reply_lem n st body h l =
      let size : length (body ++ (0x91 ∷ st ∷ [])) ≡ length body + 2 =
        omega (arith, length-append body (0x91 ∷ st ∷ [])) in
      let two : length body + 2 - 2 ≡ length body + 0 = omega arith in
      let one : length body + 2 - 1 ≡ length body + 1 = omega arith in
      let zero_off : length body + 0 ≡ length body = omega arith in
      rw size (
        rw two (
          rw one (
            rw (get_or-append body (0x91 ∷ st ∷ []) 0 0) (
              rw (get_or-append body (0x91 ∷ st ∷ []) 1 0) (
                rw zero_off (
                  rw (take-append_left (length body) body (0x91 ∷ st ∷ []) refl)
                    (ground arith)))))))

module _ {W : Type 0} (p : Platform W) where
  -- `desfire_xfer` touches neither the session nor the key of the MAC, however it ends.
  pub xfer-Keeps :
      (cmd : ℕ) (params : List ℕ) (n : ℕ) (h : Host W)
      → Ends (λ _ g. Keeps h g) (λ g. Keeps h g) (desfire_xfer p cmd params n h)
  unfolding desfire_xfer
  xfer-Keeps cmd params n h =
      if_cases (Ends (λ _ g. Keeps h g) (λ g. Keeps h g)) (ltb 255 (length params))
        (λ _. (refl, refl))
        λ _. xfer_received-Keeps n (p.apdu_exchange (apdu_of cmd params) 280 h.world).0 _

  -- The exchange with a card that answers `body | 0x91 | status`.
  pub xfer_lem :
      (cmd : ℕ) (params : List ℕ) (n st : ℕ) (body : List ℕ) (h : Host W) (w : W)
      → length params ≤ 255
      → length body ≤ n
      → p.apdu_exchange (apdu_of cmd params) 280 h.world ≡ (ok (body ++ (0x91 ∷ st ∷ [])), w)
      → desfire_xfer p cmd params n h ≡ (ok (st, body), record h { last_status = st; world = w })
  unfolding desfire_xfer
  xfer_lem cmd params n st body h w l m e =
      let fits : ltb 255 (length params) ≡ false = ground arith in
      rw (fits, desfire_xfer)
        (rw (e, desfire_xfer)
          (unfold xfer_received in xfer_reply_lem n st body (record h { world = w }) m))
