-- ===== src/Desfire/Commands/Guards.antt =====
-- components/desfire/desfire.c: the guards of the commands.
use osdp_reader_test_project.Common.{
  ℕ, ◌≤◌, ◌≡◌, ◌⊎◌, inl, inr, refl, Bool, true, false, not, none, List, length, arith,
  if◌then◌else◌,
}
use osdp_reader_test_project.Esp.{err, fault, invalid_state}
use osdp_reader_test_project.Desfire.State.{Platform, Host}
use osdp_reader_test_project.Desfire.Post.{if_cases}
use osdp_reader_test_project.Desfire.Transport.Counter.{cmac_append_and_send_overflows}
use osdp_reader_test_project.Desfire.Secure.{desfire_change_key}
use osdp_reader_test_project.Desfire.Commands.{
  CommMode, comm_cmac, comm_encrypted, data_header, desfire_get_uid, desfire_format_picc,
  desfire_create_std_data_file, desfire_read_data, desfire_write_data,
}

if_true : {A : Type 0} {c : Bool} {x : A} (y : A) → c ≡ true → (if c then x else y) ≡ x
if_true y e = rw e refl

module _ {W : Type 0} (p : Platform W) where
  -- Without a session, every command that needs one, and reading and writing in the modes that are
  -- not plain, returns invalid_state, changes nothing and sends nothing to the card.
  pub commands_need_session :
      (h : Host W) (file_no offset len out_buf access_rights key_no version : ℕ)
      (payload old_key new_key : List ℕ) (comm mode : CommMode)
      → h.session.authenticated ≡ false
      → (mode ≡ comm_cmac ⊎ mode ≡ comm_encrypted)
      → (desfire_get_uid p h ≡ (err invalid_state, h))
        × (desfire_format_picc p h ≡ (err invalid_state, h))
        × (desfire_create_std_data_file p file_no comm access_rights len h ≡ (err invalid_state, h))
        × (desfire_change_key p key_no old_key new_key version h ≡ (err invalid_state, h))
        × (desfire_read_data p file_no offset len mode out_buf h ≡ (err invalid_state, h))
        × (desfire_write_data p file_no offset mode payload h ≡ (err invalid_state, h))
  unfolding desfire_get_uid desfire_format_picc desfire_create_std_data_file desfire_change_key
      desfire_read_data desfire_write_data
  commands_need_session h f o n b a k v xs old new comm mode e (inl m) =
      let no : not h.session.authenticated ≡ true = ground (arith, e) in
      rw m (if_true _ no, if_true _ no, if_true _ no, if_true _ no, if_true _ no, if_true _ no)
  commands_need_session h f o n b a k v xs old new comm mode e (inr m) =
      let no : not h.session.authenticated ≡ true = ground (arith, e) in
      rw m (if_true _ no, if_true _ no, if_true _ no, if_true _ no, if_true _ no, if_true _ no)

  -- Writing 242 to 249 bytes with MAC overruns the local buffer of 256 bytes, before anything is sent.
  pub write_data_overflows :
      (file_no offset : ℕ) (payload : List ℕ) (h : Host W)
      → h.session.authenticated ≡ true
      → 242 ≤ length payload
      → length payload ≤ 249
      → desfire_write_data p file_no offset comm_cmac payload h ≡ (fault, h)
  unfolding desfire_write_data data_header
  write_data_overflows file_no offset payload h e lo hi =
      if_cases (λ r. r ≡ (fault, h)) (not h.session.authenticated)
        (λ q. absurd (ground (arith, e, q)))
        λ _.
          cmac_append_and_send_overflows p 0x3D (data_header file_no offset (length payload))
            payload none h (omega (arith, lo)) (omega (arith, hi))
