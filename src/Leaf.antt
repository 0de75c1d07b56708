-- ===== src/Leaf.antt =====
-- components/leaf/leaf.c: the credential layout, key diversification, and the read and
-- personalise flows over the DESFire operations.
pub mod Credential
pub mod Read
pub mod Tests
pub mod File
pub mod Personalize
pub mod KeyStore
use osdp_reader_test_project.Common.{
  ℕ, Bool, true, false, not, List, [], ◌∷◌, ◌++◌, length, take, drop, slice, replicate, ◌==◌,
  if◌then◌else◌, mem_eq,
}
use osdp_reader_test_project.Esp.{
  Esp, Outcome, ok, err, fault, esp_fail, invalid_state, invalid_crc, nvs_not_found,
}
use osdp_reader_test_project.Desfire.State.{Platform, Host, Action, pure, ◌>>=◌, ◌>>◌}
use osdp_reader_test_project.Desfire.Transport.{mac_truncate}
use osdp_reader_test_project.Desfire.Crypto.{desfire_cmac}
use osdp_reader_test_project.Desfire.Auth.{desfire_auth_ev2_first}
use osdp_reader_test_project.Desfire.Secure.{desfire_change_key}
use osdp_reader_test_project.Desfire.Commands.{
  comm_cmac, desfire_select_application, desfire_format_picc, desfire_create_application,
  desfire_create_std_data_file, desfire_read_data, desfire_write_data,
}
use Credential.{Cred, leaf_pack_credential, leaf_unpack_credential}

-- The part of the NVS that leaf.c uses, in the namespace "leaf" under the key "site_key": opening
-- (for writing or not), the blob, and the commit. `get_blob` is given the capacity.
pub record Nvs (W : Type 0) : Type 0 where
  pub open_store : Bool → W → Outcome (Unit {0}) × W
  pub set_blob : List ℕ → W → Outcome (Unit {0}) × W
  pub get_blob : ℕ → W → Outcome (List ℕ) × W
  pub commit : W → Outcome (Unit {0}) × W

abbrev pub leaf_aid : List ℕ
leaf_aid = 0xF4 ∷ 0xEA ∷ 0x00 ∷ []

abbrev pub picc_aid : List ℕ
picc_aid = 0x00 ∷ 0x00 ∷ 0x00 ∷ []

abbrev pub default_key : List ℕ
default_key = replicate 16 0

abbrev pub leaf_file_no : ℕ
leaf_file_no = 0x01

abbrev pub leaf_file_size : ℕ
leaf_file_size = 32

-- A call that acts on the world alone.
abbrev pub on_world : {W A : Type 0} → (W → Outcome A × W) → Action W A
on_world f h = let (r, w) = f h.world in (r, record h { world = w })

-- `if (call != ESP_OK) return e;`
unfoldable pub or_return : {W A : Type 0} → Esp → Action W A → Action W A
or_return e m h =
    let (r, h') = m h in elim r [ ok a ↦ (ok a, h') | err _ ↦ (err e, h') | fault ↦ (fault, h') ]

-- `if (call != ESP_OK) log();`
unfoldable pub or_continue : {W A : Type 0} → Action W A → Action W (Unit {0})
or_continue m h =
    let (r, h') = m h in elim r [ ok a ↦ (ok tt, h') | err _ ↦ (ok tt, h') | fault ↦ (fault, h') ]

-- `{ prefix, UID (7 bytes at most), AID }`, the input of the diversification.
pub div_input : ℕ → List ℕ → List ℕ
div_input prefix uid = prefix ∷ (take 7 uid ++ leaf_aid)

module _ {W : Type 0} (nvs : Nvs W) where
  pub leaf_set_site_key : List ℕ → Action W (Unit {0})
  leaf_set_site_key key = do
    on_world (nvs.open_store true)
    on_world (nvs.set_blob key)
    on_world nvs.commit

  unfoldable pub leaf_get_site_key : Action W (List ℕ)
  leaf_get_site_key = do
    on_world (nvs.open_store false)
    blob ← or_return nvs_not_found (on_world (nvs.get_blob 16))
    λ h. (if length blob == 16 then ok blob else err nvs_not_found, h)

module _ {W : Type 0} (p : Platform W) where
  -- A CMAC under another key: the global key is saved, replaced, used and put back.
  pub with_mac_key : List ℕ → List ℕ → Host W → List ℕ × Host W
  with_mac_key key msg h =
      let saved = h.mac_key in
      let h' = record h { mac_key = key } in (desfire_cmac p h' msg, record h' { mac_key = saved })

  -- `leaf_diversify_key`, with the prefix 0x01; `leaf_personalize` repeats it with 0x02.
  pub leaf_diversify_key : ℕ → List ℕ → List ℕ → Action W (List ℕ)
  leaf_diversify_key prefix site_key uid h =
      let (k, h') = with_mac_key site_key (div_input prefix uid) h in (ok k, h')

  pub leaf_payload_mac : List ℕ → List ℕ → Action W (List ℕ)
  leaf_payload_mac div_key payload h =
      let (full, h') = with_mac_key div_key (take 10 payload) h in (ok (mac_truncate full), h')

module _ {W : Type 0} (p : Platform W) (nvs : Nvs W) where
  -- The end of `leaf_read`: the length, and the MAC that the file carries.
  pub check_file : List ℕ → List ℕ → Action W Cred
  check_file k_div buf h =
      if not (length buf == leaf_file_size)
      then (err esp_fail, h)
      else (leaf_payload_mac p k_div buf >>= λ want h'. (
        if mem_eq want (slice 10 8 buf) then ok (leaf_unpack_credential buf) else err invalid_crc,
        h',
      ))
          h

  unfoldable pub leaf_read : List ℕ → Action W Cred
  leaf_read uid = do
    site ← or_return invalid_state (leaf_get_site_key nvs)
    k_div ← leaf_diversify_key p 0x01 site uid
    or_return esp_fail (desfire_select_application p leaf_aid)
    or_return esp_fail (desfire_auth_ev2_first p 1 k_div)
    buf ←
        or_return esp_fail
          (desfire_read_data p leaf_file_no 0 leaf_file_size comm_cmac leaf_file_size)
    check_file k_div buf

  -- Steps 1 to 5 of `leaf_personalize`: the application and its file.
  pub create_structure : Action W (List ℕ)
  create_structure = do
    or_return esp_fail (desfire_select_application p picc_aid)
    or_return esp_fail (desfire_auth_ev2_first p 0 default_key)
    or_continue (desfire_format_picc p)
    or_return esp_fail (desfire_create_application p leaf_aid 0x0F 0x82)
    or_return esp_fail (desfire_select_application p leaf_aid)
    or_return esp_fail (desfire_auth_ev2_first p 0 default_key)
    or_return esp_fail (desfire_create_std_data_file p leaf_file_no comm_cmac 0x1000 leaf_file_size)

  -- Step 7: the credential, its MAC, and the rest of the local array, which is not initialised.
  pub write_credential : List ℕ → List ℕ → Cred → Action W (List ℕ)
  write_credential junk k_div cred = do
    mac8 ← leaf_payload_mac p k_div (leaf_pack_credential cred)
    desfire_write_data p leaf_file_no 0 comm_cmac (leaf_pack_credential cred ++ (mac8 ++ junk))

  -- `junk` is what the last 14 bytes of `payload` happen to hold.
  unfoldable pub leaf_personalize : List ℕ → List ℕ → Cred → Action W (List ℕ)
  leaf_personalize junk uid cred = do
    site ← or_return invalid_state (leaf_get_site_key nvs)
    k_div ← leaf_diversify_key p 0x01 site uid
    create_structure
    k_div_master ← leaf_diversify_key p 0x02 site uid
    or_return esp_fail (desfire_change_key p 1 default_key k_div 0x01)
    or_return esp_fail (desfire_change_key p 0 default_key k_div_master 0x01)
    or_return esp_fail (desfire_auth_ev2_first p 0 k_div_master)
    write_credential junk k_div cred
