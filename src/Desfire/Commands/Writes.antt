-- ===== src/Desfire/Commands/Writes.antt =====
-- components/desfire/desfire.c: `desfire_write_data` in CMAC mode.
use osdp_reader_test_project.Common.{ℕ, List, not, length}
use osdp_reader_test_project.Desfire.State.{Platform, Host}
use osdp_reader_test_project.Desfire.Post.{OnOk, if_cases}
use osdp_reader_test_project.Desfire.Transport.Refused.{Macs, cmac_append_and_send-refused}
use osdp_reader_test_project.Desfire.Commands.{comm_cmac, desfire_write_data, data_header}

module _ {W : Type 0} (p : Platform W) where
  pub write_data-refused :
      (file_no offset : ℕ) (payload : List ℕ) (h : Host W)
      → Macs p 0x3D
      → OnOk (λ _ _. ⊥) (desfire_write_data p file_no offset comm_cmac payload h)
  unfolding desfire_write_data
  write_data-refused file_no offset payload h macs =
      if_cases (OnOk (λ _ _. ⊥)) (not h.session.authenticated) (λ _. tt)
        λ _.
          cmac_append_and_send-refused p 0x3D (data_header file_no offset (length payload)) payload
            h macs
