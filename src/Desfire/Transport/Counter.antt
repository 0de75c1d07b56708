-- ===== src/Desfire/Transport/Counter.antt =====
-- components/desfire/desfire.c: `cmac_append_and_send` against the session state and its buffers.
use osdp_reader_test_project.Common.{
  ℕ, ◌+◌, ◌%◌, ◌^◌, ◌≤◌, ◌<◌, ◌≡◌, refl, ◌⊎◌, inl, inr, not, ◌&&◌, Option, none, some, List, length,
  ltb, ◌==◌, arith,
}
use osdp_reader_test_project.Esp.{Outcome, fault}
use osdp_reader_test_project.Desfire.State.{Platform, Host}
use osdp_reader_test_project.Desfire.Post.{Ends, bind-Ends, Ends-mono, if_cases}
use osdp_reader_test_project.Desfire.Transport.{
  check_response, cmac_finish, cmac_append_and_send, look_at, bump_ctr, operation_ok,
  additional_frame,
}
use osdp_reader_test_project.Desfire.Transport.Exchange.{Keeps, xfer-Keeps}

-- The session of `g` is that of `h` with the counter one further, as a `uint16_t`.
abbrev pub Counted : {W : Type 0} → Host W → Host W → Type 0
Counted h g =
    let s = h.session in
    (g.session ≡ record s { cmd_ctr = (s.cmd_ctr + 1) % 2 ^ 16 }) × (g.mac_key ≡ h.mac_key)

module _ {W : Type 0} (p : Platform W) where
  check_response-Keeps :
      (st : ℕ) (resp : List ℕ) (h : Host W)
      → Ends (λ _ g. g ≡ h) (λ g. g ≡ h) (check_response p st resp h)
  unfolding check_response
  check_response-Keeps st resp h = ground arith

  abbrev MaybeCounted : Host W → Host W → Type 0
  MaybeCounted h g = Keeps h g ⊎ Counted h g

  bumped : (h g g' : Host W) → Keeps h g → g' ≡ bump_ctr g → Counted h g'
  unfolding bump_ctr
  bumped h g g' k e = ground arith

  finish-Counted :
      (h : Host W) (out : Option ℕ) (r : ℕ × List ℕ) (g : Host W)
      → Keeps h g
      → Ends (λ _ g'. Counted h g') (λ g'. MaybeCounted h g') (cmac_finish p out r g)
  unfolding cmac_finish look_at bump_ctr
  finish-Counted h none (st, resp) g k = ground arith
  finish-Counted h (some n) (st, resp) g k =
      if_cases (Ends (λ _ g'. Counted h g') (λ g'. MaybeCounted h g'))
        (not (st == operation_ok) && not (st == additional_frame)) (λ _. inl k)
        λ _.
          Ends-mono (λ _ g'. g' ≡ bump_ctr g) (λ _ g'. Counted h g') (λ g'. g' ≡ bump_ctr g)
            (λ g'. MaybeCounted h g') (check_response p st resp (bump_ctr g))
            (λ _ g' e. bumped h g g' k e) (λ g' e. inr (bumped h g g' k e))
            (check_response-Keeps st resp (bump_ctr g))

  -- A CMAC-mode command that succeeds has moved the command counter by one, and one that fails by
  -- one or not at all; nothing else of the session and of the MAC key changes, on any branch.
  pub cmac_append_and_send-Counted :
      (cmd : ℕ) (header payload : List ℕ) (out : Option ℕ) (h : Host W)
      → Ends
          (λ _ g. Counted h g)
          (λ g. Keeps h g ⊎ Counted h g)
          (cmac_append_and_send p cmd header payload out h)
  unfolding cmac_append_and_send
  cmac_append_and_send-Counted cmd header payload out h =
      if_cases P (ltb 256 (length header + length payload)) (λ _. inl (refl, refl))
        λ _.
          if_cases P (ltb 256 (length header + length payload + 8)) (λ _. inl (refl, refl))
            λ _.
              bind-Ends (λ _ g. Keeps h g) (λ _ g. Counted h g) (λ g. MaybeCounted h g) _ _ h
                (Ends-mono (λ _ g. Keeps h g) (λ _ g. Keeps h g) (λ g. Keeps h g)
                  (λ g. MaybeCounted h g) _ (λ _ g k. k) (λ g k. inl k) (xfer-Keeps p cmd _ _ h))
                (λ r g k. finish-Counted h out r g k)
    where
      P : Outcome (List ℕ) × Host W → Type 0
      P = Ends (λ _ g. Counted h g) (λ g. MaybeCounted h g)

  -- `params` overflows: with 249 to 256 bytes of header and data the 8 bytes of the MAC are
  -- written past the end of its 256 bytes, whatever the state, before anything is sent.
  pub cmac_append_and_send_overflows :
      (cmd : ℕ) (header payload : List ℕ) (out : Option ℕ) (h : Host W)
      → 248 < length header + length payload
      → length header + length payload ≤ 256
      → cmac_append_and_send p cmd header payload out h ≡ (fault, h)
  unfolding cmac_append_and_send
  cmac_append_and_send_overflows cmd header payload out h lo hi = ground arith
