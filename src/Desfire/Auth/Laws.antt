-- ===== src/Desfire/Auth/Laws.antt =====
-- components/desfire/desfire_auth.c: the state that AuthenticateEV2First leaves.
use osdp_reader_test_project.Common.{
  ℕ, ◌≡◌, refl, ◌∙◌, true, not, ◌&&◌, List, ◌∷◌, length, slice, ◌==◌, mem_eq,
}
use osdp_reader_test_project.Esp.{Outcome}
use osdp_reader_test_project.Desfire.State.{Platform, Host}
use osdp_reader_test_project.Desfire.Post.{Ends, bind-Ends, Ends-mono, if_cases}
use osdp_reader_test_project.Desfire.Crypto.{cmac, desfire_cmac}
use osdp_reader_test_project.Desfire.Transport.{operation_ok, additional_frame}
use osdp_reader_test_project.Desfire.Transport.Exchange.{Keeps, xfer-Keeps}
use osdp_reader_test_project.Desfire.Auth.{
  sv_tail, cmac_with_key, derive_session_keys, open_session, auth_step2, auth_step1,
  desfire_auth_ev2_first, rotate_left_1,
}

module _ {W : Type 0} (p : Platform W) where
  -- A session opened with a key: the session keys are the CMACs of the two labels, for some
  -- nonces, and commands are MACed with the second.
  pub record IsOpen (key_no : ℕ) (key : List ℕ) (g : Host W) : Type 0 where
    pub rnd_a : List ℕ
    pub rnd_b : List ℕ
    pub its_key : g.session.key_no ≡ key_no
    pub fresh : g.session.cmd_ctr ≡ 0
    pub live : g.session.authenticated ≡ true
    pub enc_key : g.session.k_ses_auth_enc ≡ cmac p key (0xA5 ∷ 0x5A ∷ sv_tail rnd_a rnd_b)
    pub mac_key : g.session.k_ses_auth_mac ≡ cmac p key (0x5A ∷ 0xA5 ∷ sv_tail rnd_a rnd_b)
    pub installed : g.mac_key ≡ g.session.k_ses_auth_mac

  abbrev Ended : ℕ → List ℕ → Host W → Outcome (Unit {0}) × Host W → Type 0
  Ended key_no key h = Ends (λ _ g. IsOpen key_no key g) (λ g. Keeps h g)

  open_session-Ended :
      (key_no : ℕ) (key rnd_a rnd_b plain : List ℕ) (h g : Host W)
      → Ended key_no key h (open_session p key_no key rnd_a rnd_b plain g)
  unfolding open_session derive_session_keys cmac_with_key desfire_cmac
  open_session-Ended key_no key rnd_a rnd_b plain h g = record {
    rnd_a = rnd_a;
    rnd_b = rnd_b;
    its_key = refl;
    fresh = refl;
    live = refl;
    enc_key = refl;
    mac_key = refl;
    installed = refl;
  }

  step2-Ended :
      (key_no : ℕ) (key rnd_a rnd_b enc : List ℕ) (r : ℕ × List ℕ) (h g : Host W)
      → Keeps h g
      → Ended key_no key h (auth_step2 p key_no key rnd_a rnd_b enc r g)
  unfolding auth_step2
  step2-Ended key_no key rnd_a rnd_b enc (st, resp) h g k =
      if_cases (Ended key_no key h) (not (st == operation_ok && length resp == 32)) (λ _. k)
        λ _.
          if_cases (Ended key_no key h)
            (mem_eq (slice 4 16 (p.cbc_decrypt key (slice 16 16 enc) resp)) (rotate_left_1 rnd_a))
            (λ _. open_session-Ended key_no key rnd_a rnd_b _ h g) (λ _. k)

  step1-Ended :
      (key_no : ℕ) (key : List ℕ) (r : ℕ × List ℕ) (h g : Host W)
      → Keeps h g
      → Ended key_no key h (auth_step1 p key_no key r g)
  unfolding auth_step1
  step1-Ended key_no key (st, e) h g k =
      if_cases (Ended key_no key h) (not (st == additional_frame && length e == 16)) (λ _. k)
        λ _.
          bind-Ends (λ _ g'. Keeps h g') (λ _ g'. IsOpen key_no key g') (λ g'. Keeps h g') _ _ _
            (Ends-mono _ (λ _ g'. Keeps h g') _ (λ g'. Keeps h g') _ (λ _ g' x. later g' x) later
              (xfer-Keeps p 0xAF _ 64 (record g { world = (p.fill_random g.world).1 })))
            (λ r g' k'. step2-Ended key_no key _ _ _ r h g' k')
    where
      later : (g' : Host W) → Keeps g g' → Keeps h g'
      later g' x = (x.0 ∙ k.0, x.1 ∙ k.1)

  -- An authentication that succeeds leaves an open session of that key, with the counter at 0 and
  -- the session keys derived from it; one that fails, on whatever branch, leaves the session and
  -- the MAC key that were there before.
  pub auth_ev2_first-Ended :
      (key_no : ℕ) (key : List ℕ) (h : Host W)
      → Ends (λ _ g. IsOpen key_no key g) (λ g. Keeps h g) (desfire_auth_ev2_first p key_no key h)
  unfolding desfire_auth_ev2_first
  auth_ev2_first-Ended key_no key h =
      bind-Ends (λ _ g. Keeps h g) (λ _ g. IsOpen key_no key g) (λ g. Keeps h g) _ _ h
        (xfer-Keeps p 0x71 _ 64 h) (λ r g k. step1-Ended key_no key r h g k)
