-- ===== src/Leaf/Personalize.antt =====
-- components/leaf/leaf.c: `leaf_personalize` against the buffer that it passes.
use osdp_reader_test_project.Common.{◌≡◌, false, List, ℕ}
use osdp_reader_test_project.Esp.{is_ok}
use osdp_reader_test_project.Desfire.State.{Platform, Host}
use osdp_reader_test_project.Desfire.Post.{OnOk, after, never_ok}
use osdp_reader_test_project.Desfire.Transport.Refused.{Macs}
use osdp_reader_test_project.Desfire.Commands.Writes.{write_data-refused}
use osdp_reader_test_project.Leaf.Credential.{Cred}
use osdp_reader_test_project.Leaf.{Nvs, write_credential, leaf_personalize, leaf_file_no}

module _ {W : Type 0} (p : Platform W) (nvs : Nvs W) where
  write_credential-refused :
      (junk k_div : List ℕ) (cred : Cred) (h : Host W)
      → Macs p 0x3D
      → OnOk (λ _ _. ⊥) (write_credential p nvs junk k_div cred h)
  unfolding write_credential
  write_credential-refused junk k_div cred h macs =
      after _ _ _ _ λ mac g. write_data-refused p leaf_file_no 0 _ g macs

  -- With a card that puts a MAC of 8 bytes on its response to a write that it carries out, as the
  -- CMAC mode of the file asks, `leaf_personalize` never returns ESP_OK: the write passes no buffer
  -- for the response, and one with a MAC does not fit.
  pub leaf_personalize_never_ok :
      (junk uid : List ℕ) (cred : Cred) (h : Host W)
      → Macs p 0x3D
      → is_ok (leaf_personalize p nvs junk uid cred h).0 ≡ false
  unfolding leaf_personalize
  leaf_personalize_never_ok junk uid cred h macs =
      never_ok (leaf_personalize p nvs junk uid cred h) (
        after _ _ _ _ λ site h₁. after _ _ _ _ λ k h₂. after _ _ _ _ λ _ h₃. after _ _ _ _ λ k' h₄.
          after _ _ _ _ λ _ h₅.
            after _ _ _ _
              λ _ h₆. after _ _ _ _ λ _ h₇. write_credential-refused junk k cred h₇ macs)
