-- ===== src/Desfire/Transport/Bounds.antt =====
-- components/desfire/desfire.c: how long the data of a response can be.
use osdp_reader_test_project.Common.{
  ℕ, ◌+◌, ◌-◌, ◌≤◌, ◌<◌, ◌⊎◌, inl, inr, some, List, length, length-take, ltb, arith, Bool-cases,
}
use osdp_reader_test_project.Esp.{Outcome, ok, err, fault}
use osdp_reader_test_project.Desfire.State.{Platform, Host}
use osdp_reader_test_project.Desfire.Post.{OnOk, bind-OnOk, if_cases}
use osdp_reader_test_project.Desfire.Transport.{
  xfer_reply, xfer_received, desfire_xfer, check_response, cmac_finish, cmac_append_and_send,
  look_at, room_of, apdu_of, bump_ctr,
}

module _ {W : Type 0} where
  xfer_reply-le :
      (n : ℕ) (rx : List ℕ) (h : Host W) → OnOk (λ r _. length r.1 ≤ n) (xfer_reply n rx h)
  unfolding xfer_reply
  xfer_reply-le n rx h = ground (arith, length-take {0} (length rx - 2) rx)

  xfer_received-le :
      (n : ℕ) (r : Outcome (List ℕ)) (h : Host W)
      → OnOk (λ r _. length r.1 ≤ n) (xfer_received n r h)
  unfolding xfer_received
  xfer_received-le n (ok rx) h = xfer_reply-le n rx h
  xfer_received-le n (err e) h = tt
  xfer_received-le n fault h = tt

module _ {W : Type 0} (p : Platform W) where
  -- `desfire_xfer` never returns more data than the caller has room for.
  pub length-xfer :
      (cmd : ℕ) (params : List ℕ) (n : ℕ) (h : Host W)
      → OnOk (λ r _. length r.1 ≤ n) (desfire_xfer p cmd params n h)
  unfolding desfire_xfer
  length-xfer cmd params n h = elim (Bool-cases (ltb 255 (length params))) [
    | inl long ↦ rw long tt
    | inr fits ↦ rw fits (xfer_received-le n (p.apdu_exchange (apdu_of cmd params) 280 h.world).0 _)
  ]

  -- A MAC of 8 bytes has been taken off, or the response was shorter than one.
  abbrev pub Stripped : ℕ → List ℕ → Type 0
  Stripped n r = (length r + 8 ≤ n) ⊎ (length r < 8)

  check_response-Stripped :
      (n st : ℕ) (resp : List ℕ) (h : Host W)
      → length resp ≤ n
      → OnOk (λ r _. Stripped n r) (check_response p st resp h)
  unfolding check_response
  check_response-Stripped n st resp h l = ground (arith, length-take {0} (length resp - 8) resp)

  cmac_finish-Stripped :
      (n : ℕ) (r : ℕ × List ℕ) (h : Host W)
      → length r.1 ≤ n
      → OnOk (λ r _. Stripped n r) (cmac_finish p (some n) r h)
  unfolding cmac_finish look_at
  cmac_finish-Stripped n (st, resp) h l =
      ground (arith, check_response-Stripped n st resp (bump_ctr h) l)

  -- The data of a CMAC-mode command fits a buffer of `n` bytes together with its MAC.
  pub cmac_append_and_send-Stripped :
      (cmd : ℕ) (header payload : List ℕ) (n : ℕ) (h : Host W)
      → OnOk (λ r _. Stripped n r) (cmac_append_and_send p cmd header payload (some n) h)
  unfolding cmac_append_and_send room_of
  cmac_append_and_send-Stripped cmd header payload n h =
      if_cases P (ltb 256 (length header + length payload)) (λ _. tt)
        λ _.
          if_cases P (ltb 256 (length header + length payload + 8)) (λ _. tt)
            λ _.
              bind-OnOk (λ r _. length r.1 ≤ n) (λ r _. Stripped n r) _ _ h (length-xfer cmd _ n h)
                (λ r g l. cmac_finish-Stripped n r g l)
    where
      P : Outcome (List ℕ) × Host W → Type 0
      P = OnOk (λ r _. Stripped n r)
