-- ===== src/Desfire/Commands.antt =====
-- components/desfire/desfire.c: the public operations.
pub mod Bounds
pub mod Writes
pub mod Guards
use osdp_reader_test_project.Common.{
  ℕ, ◌+◌, ◌-◌, ◌/◌, ◌%◌, ◌^◌, Bool, true, false, not, ◌&&◌, ◌||◌, Option, none, some, List, [], ◌∷◌,
  ◌++◌, length, take, replicate, ltb, leb, ◌==◌, if◌then◌else◌,
}
use osdp_reader_test_project.Common.Bytes.{u8, le16, le24}
use osdp_reader_test_project.Esp.{Outcome, ok, err, fault, esp_fail, invalid_size, invalid_state}
use osdp_reader_test_project.Desfire.State.{Session, Platform, Host, Action, ◌>>=◌}
use osdp_reader_test_project.Desfire.Transport.{desfire_xfer, cmac_append_and_send, operation_ok}
use osdp_reader_test_project.Desfire.Secure.{desfire_enc_send, desfire_enc_recv}

-- `desfire_comm_mode_t`.
pub data CommMode : Type 0 where
  comm_plain comm_cmac comm_encrypted : CommMode

pub comm_code : CommMode → ℕ
comm_code comm_plain = 0
comm_code comm_cmac = 1
comm_code comm_encrypted = 3

-- `file_no | offset(3) | length(3)`.
pub data_header : ℕ → ℕ → ℕ → List ℕ
data_header file_no offset len = file_no ∷ (le24 offset ++ le24 len)

module _ {W : Type 0} where
  -- `desfire_init`.
  pub desfire_init : Host W → Host W
  desfire_init h = record h {
    session = record {
      key_no = 0;
      ti = replicate 4 0;
      k_ses_auth_enc = replicate 16 0;
      k_ses_auth_mac = replicate 16 0;
      cmd_ctr = 0;
      authenticated = false;
    };
  }

  -- `(st == DF_OPERATION_OK) ? ESP_OK : ESP_FAIL`, with the data.
  pub plain_result : ℕ × List ℕ → Action W (List ℕ)
  plain_result (st, resp) h = (if st == operation_ok then ok resp else err esp_fail, h)

  -- The end of `desfire_select_application`.
  pub selected : ℕ × List ℕ → Action W (List ℕ)
  selected (st, resp) h =
      let s = h.session in
      if st == operation_ok
      then (ok [], record h { session = record s { authenticated = false; cmd_ctr = 0 } })
      else (err esp_fail, h)

  -- The end of `desfire_get_uid`.
  pub got_uid : ℕ × List ℕ → Action W (List ℕ)
  got_uid (st, resp) h =
      (if not (st == operation_ok) || not (length resp == 7) then err esp_fail else ok resp, h)

module _ {W : Type 0} (p : Platform W) where
  pub desfire_select_application : List ℕ → Action W (List ℕ)
  desfire_select_application aid = desfire_xfer p 0x5A (take 3 aid) 0 >>= selected

  pub desfire_get_uid : Action W (List ℕ)
  desfire_get_uid h =
      if not h.session.authenticated
      then (err invalid_state, h)
      else (desfire_enc_recv p 0x51 [] 7 7 >>= got_uid) h

  pub desfire_format_picc : Action W (List ℕ)
  desfire_format_picc h =
      if not h.session.authenticated
      then (err invalid_state, h)
      else cmac_append_and_send p 0xFC [] [] none h

  pub desfire_create_application : List ℕ → ℕ → ℕ → Action W (List ℕ)
  desfire_create_application aid key_settings num_keys_and_flags h =
      let hdr = take 3 aid ++ (key_settings ∷ num_keys_and_flags ∷ []) in
      if h.session.authenticated
      then cmac_append_and_send p 0xCA hdr [] none h
      else (desfire_xfer p 0xCA hdr 0 >>= plain_result) h

  pub desfire_create_std_data_file : ℕ → CommMode → ℕ → ℕ → Action W (List ℕ)
  desfire_create_std_data_file file_no comm access_rights file_size h =
      let hdr = file_no ∷ comm_code comm ∷ (le16 access_rights ++ le24 file_size) in
      if not h.session.authenticated
      then (err invalid_state, h)
      else cmac_append_and_send p 0xCD hdr [] none h

  pub desfire_read_data : ℕ → ℕ → ℕ → CommMode → ℕ → Action W (List ℕ)
  desfire_read_data file_no offset len comm_plain out_buf =
      desfire_xfer p 0xBD (data_header file_no offset len) out_buf >>= plain_result
  desfire_read_data file_no offset len comm_cmac out_buf = λ h.
      if not h.session.authenticated
      then (err invalid_state, h)
      else cmac_append_and_send p 0xBD (data_header file_no offset len) [] (some out_buf) h
  desfire_read_data file_no offset len comm_encrypted out_buf = λ h.
      if not h.session.authenticated
      then (err invalid_state, h)
      else if len == 0 || ltb out_buf len
      then (err invalid_size, h)
      else (desfire_enc_recv p 0xBD (data_header file_no offset len) len out_buf >>= plain_result) h

  -- `length` is the length of the data.
  pub desfire_write_data : ℕ → ℕ → CommMode → List ℕ → Action W (List ℕ)
  desfire_write_data file_no offset comm_plain payload = λ h.
      let hdr = data_header file_no offset (length payload) in
      if ltb 256 (7 + length payload)
      then (err invalid_size, h)
      else (desfire_xfer p 0x3D (hdr ++ payload) 0 >>= plain_result) h
  desfire_write_data file_no offset comm_cmac payload = λ h.
      if not h.session.authenticated
      then (err invalid_state, h)
      else cmac_append_and_send p 0x3D (data_header file_no offset (length payload)) payload none h
  desfire_write_data file_no offset comm_encrypted payload = λ h.
      let hdr = data_header file_no offset (length payload) in
      if not h.session.authenticated
      then (err invalid_state, h)
      else (desfire_enc_send p 0x3D hdr payload none >>= plain_result) h
