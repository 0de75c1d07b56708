-- ===== src/Desfire/Commands/Bounds.antt =====
-- components/desfire/desfire.c: what `desfire_read_data` can return in CMAC mode.
use osdp_reader_test_project.Common.{ℕ, [], not}
use osdp_reader_test_project.Desfire.State.{Platform, Host}
use osdp_reader_test_project.Desfire.Post.{OnOk, if_cases}
use osdp_reader_test_project.Desfire.Transport.Bounds.{Stripped, cmac_append_and_send-Stripped}
use osdp_reader_test_project.Desfire.Commands.{comm_cmac, desfire_read_data, data_header}

module _ {W : Type 0} (p : Platform W) where
  pub read_data-Stripped :
      (file_no offset len n : ℕ) (h : Host W)
      → OnOk (λ r _. Stripped p n r) (desfire_read_data p file_no offset len comm_cmac n h)
  unfolding desfire_read_data
  read_data-Stripped file_no offset len n h =
      if_cases (OnOk (λ r _. Stripped p n r)) (not h.session.authenticated) (λ _. tt)
        λ _. cmac_append_and_send-Stripped p 0xBD (data_header file_no offset len) [] n h
