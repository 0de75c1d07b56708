-- ===== src/Desfire/Auth.antt =====
-- components/desfire/desfire_auth.c: AuthenticateEV2First.
pub mod Laws
pub mod Honest
use osdp_reader_test_project.Common.{
  ℕ, Bool, true, false, not, ◌&&◌, List, [], ◌∷◌, ◌++◌, length, take, drop, slice, replicate, ◌==◌,
  if◌then◌else◌, mem_eq,
}
use osdp_reader_test_project.Common.Bytes.{xor_bytes}
use osdp_reader_test_project.Esp.{Outcome, ok, err, fault, esp_fail}
use osdp_reader_test_project.Desfire.State.{Session, Platform, Host, Action, ◌>>=◌}
use osdp_reader_test_project.Desfire.Crypto.{desfire_cmac}
use osdp_reader_test_project.Desfire.Transport.{desfire_xfer, operation_ok, additional_frame}

unfoldable pub rotate_left_1 : List ℕ → List ℕ
rotate_left_1 [] = []
rotate_left_1 (x ∷ xs) = xs ++ (x ∷ [])

-- The bytes of `sv` after its two-byte label.
pub sv_tail : List ℕ → List ℕ → List ℕ
sv_tail rnd_a rnd_b =
    0x00
    ∷ 0x01
    ∷ 0x00
    ∷ 0x80
    ∷ (take 2 rnd_a
        ++ (xor_bytes (slice 2 6 rnd_a) (take 6 rnd_b) ++ (slice 6 10 rnd_b ++ slice 8 8 rnd_a)))

module _ {W : Type 0} (p : Platform W) where
  -- The global key is saved, replaced, used and put back.
  pub cmac_with_key : List ℕ → List ℕ → Host W → List ℕ × Host W
  cmac_with_key key msg h =
      let saved = h.mac_key in
      let h' = record h { mac_key = key } in (desfire_cmac p h' msg, record h' { mac_key = saved })

  -- `k_enc` and `k_mac`.
  pub derive_session_keys : List ℕ → List ℕ → List ℕ → Host W → List ℕ × List ℕ × Host W
  derive_session_keys key rnd_a rnd_b h =
      let body = sv_tail rnd_a rnd_b in
      let (k_enc, h₁) = cmac_with_key key (0xA5 ∷ 0x5A ∷ body) h in
      let (k_mac, h₂) = cmac_with_key key (0x5A ∷ 0xA5 ∷ body) h₁ in (k_enc, k_mac, h₂)

  -- The end of the handshake, once RndA' has come back: the session state is captured.
  pub open_session : ℕ → List ℕ → List ℕ → List ℕ → List ℕ → Action W (Unit {0})
  open_session key_no key rnd_a rnd_b plain h =
      let (k_enc, k_mac, h') = derive_session_keys key rnd_a rnd_b h in
      (
        ok tt,
        record h' {
          session = record {
            key_no = key_no;
            ti = take 4 plain;
            k_ses_auth_enc = k_enc;
            k_ses_auth_mac = k_mac;
            cmd_ctr = 0;
            authenticated = true;
          };
          mac_key = k_mac;
        },
      )

  -- What follows the second exchange.
  pub auth_step2 : ℕ → List ℕ → List ℕ → List ℕ → List ℕ → ℕ × List ℕ → Action W (Unit {0})
  auth_step2 key_no key rnd_a rnd_b encrypted (st, resp) h =
      if not (st == operation_ok && length resp == 32)
      then (err esp_fail, h)
      else let plain = p.cbc_decrypt key (slice 16 16 encrypted) resp in
        if mem_eq (slice 4 16 plain) (rotate_left_1 rnd_a)
        then open_session key_no key rnd_a rnd_b plain h
        else (err esp_fail, h)

  -- What follows the first exchange.
  pub auth_step1 : ℕ → List ℕ → ℕ × List ℕ → Action W (Unit {0})
  auth_step1 key_no key (st, e_rnd_b) h =
      if not (st == additional_frame && length e_rnd_b == 16)
      then (err esp_fail, h)
      else let rnd_b = p.cbc_decrypt key (replicate 16 0) e_rnd_b in
        let (rnd_a, w) = p.fill_random h.world in
        let encrypted = p.cbc_encrypt key e_rnd_b (rnd_a ++ rotate_left_1 rnd_b) in
        (desfire_xfer p 0xAF encrypted 64 >>= auth_step2 key_no key rnd_a rnd_b encrypted)
          (record h { world = w })

  pub desfire_auth_ev2_first : ℕ → List ℕ → Action W (Unit {0})
  desfire_auth_ev2_first key_no key =
      desfire_xfer p 0x71 (key_no ∷ 0x00 ∷ 0x00 ∷ []) 64 >>= auth_step1 key_no key
