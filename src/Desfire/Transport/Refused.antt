-- ===== src/Desfire/Transport/Refused.antt =====
-- components/desfire/desfire.c: a CMAC-mode command without a buffer for its response, and a card that
-- answers it with a MAC.
use osdp_reader_test_project.Common.{
  refl, ℕ, ◌-◌, ◌≡◌, ◌+◌, Bool, true, not, ◌||◌, ◌&&◌, none, List, length, get_or, ltb, leb, ◌==◌,
  arith,
}
use osdp_reader_test_project.Esp.{Outcome, ok, err, fault}
use osdp_reader_test_project.Desfire.State.{Platform, Host}
use osdp_reader_test_project.Desfire.Post.{OnOk, bind-OnOk, if_cases}
use osdp_reader_test_project.Desfire.Transport.{
  apdu_of, xfer_reply, xfer_received, desfire_xfer, cmac_finish, cmac_append_and_send, room_of,
}

-- A response that has a MAC of 8 bytes before its status, or a status that is an error.
abbrev pub is_refused : ℕ → Bool
is_refused st = not (st == 0x00) && not (st == 0xAF)

abbrev pub has_mac : List ℕ → Bool
has_mac rx = leb 10 (length rx) || is_refused (get_or rx (length rx - 1) 0)

module _ {W : Type 0} where
  IsRefused : ℕ × List ℕ → Host W → Type 0
  IsRefused r _ = is_refused r.0 ≡ true

  reply-IsRefused :
      (rx : List ℕ) (h : Host W) → has_mac rx ≡ true → OnOk IsRefused (xfer_reply 0 rx h)
  unfolding xfer_reply IsRefused
  reply-IsRefused rx h m = ground (arith, m)

  received-IsRefused :
      (r : Outcome (List ℕ)) (h : Host W)
      → ((rx : List ℕ) → r ≡ ok rx → has_mac rx ≡ true)
      → OnOk IsRefused (xfer_received 0 r h)
  unfolding xfer_received
  received-IsRefused (ok rx) h m = reply-IsRefused rx h (m rx refl)
  received-IsRefused (err e) h m = tt
  received-IsRefused fault h m = tt

module _ {W : Type 0} (p : Platform W) where
  -- The card answers the command, where it carries it out, with a MAC.
  abbrev pub Macs : ℕ → Type 0
  Macs cmd =
      (params rx : List ℕ) (cap : ℕ) (w : W)
      → (p.apdu_exchange (apdu_of cmd params) cap w).0 ≡ ok rx
      → has_mac rx ≡ true

  xfer-IsRefused :
      (cmd : ℕ) (params : List ℕ) (h : Host W)
      → Macs cmd
      → OnOk IsRefused (desfire_xfer p cmd params 0 h)
  unfolding desfire_xfer
  xfer-IsRefused cmd params h macs =
      if_cases (OnOk IsRefused) (ltb 255 (length params)) (λ _. tt)
        λ _.
          received-IsRefused (p.apdu_exchange (apdu_of cmd params) 280 h.world).0 _
            (λ rx e. macs params rx 280 h.world e)

  finish_refused :
      (r : ℕ × List ℕ) (h : Host W) → IsRefused r h → OnOk (λ _ _. ⊥) (cmac_finish p none r h)
  unfolding cmac_finish IsRefused
  finish_refused r h refused = rw refused tt

  -- Such a command never succeeds without a buffer for the response.
  pub cmac_append_and_send-refused :
      (cmd : ℕ) (header payload : List ℕ) (h : Host W)
      → Macs cmd
      → OnOk (λ _ _. ⊥) (cmac_append_and_send p cmd header payload none h)
  unfolding cmac_append_and_send room_of
  cmac_append_and_send-refused cmd header payload h macs =
      if_cases (OnOk (λ _ _. ⊥)) (ltb 256 (length header + length payload)) (λ _. tt)
        λ _.
          if_cases (OnOk (λ _ _. ⊥)) (ltb 256 (length header + length payload + 8)) (λ _. tt)
            λ _.
              bind-OnOk IsRefused (λ _ _. ⊥) _ _ h (xfer-IsRefused cmd _ h macs)
                (λ r g refused. finish_refused r g refused)
