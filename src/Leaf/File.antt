-- ===== src/Leaf/File.antt =====
-- components/leaf/leaf.c: the file that `leaf_personalize` writes and the one that `leaf_read` takes.
use osdp_reader_test_project.Common.{
  ℕ, ◌≡◌, refl, true, List, ◌++◌, length, arith, ◌==◌, mem_eq_refl,
}
use osdp_reader_test_project.Esp.{ok}
use osdp_reader_test_project.Desfire.State.{Platform, Host, ◌>>=◌}
use osdp_reader_test_project.Desfire.Crypto.{desfire_cmac, cmac}
use osdp_reader_test_project.Desfire.Transport.{mac_truncate}
use osdp_reader_test_project.Leaf.{Nvs, with_mac_key, leaf_payload_mac, check_file}
use osdp_reader_test_project.Leaf.Credential.{Cred, IsCred, leaf_pack_credential}
use osdp_reader_test_project.Leaf.Credential.RoundTrip.{unpack-pack}

module _ {W : Type 0} (p : Platform W) (nvs : Nvs W) where
  -- The 32 bytes that personalisation writes for a credential, with any 14 bytes at the end, pass
  -- the checks of the reader under the same key and give the credential back; the state of the
  -- host, its MAC key included, is as it was.
  pub check_file-written :
      (k junk : List ℕ) (c : Cred) (h : Host W)
      → IsCred c
      → length junk ≡ 14
      → check_file p nvs k
          (leaf_pack_credential c ++ (mac_truncate (cmac p k (leaf_pack_credential c)) ++ junk))
          h
        ≡ (ok c, h)
  unfolding check_file leaf_payload_mac with_mac_key desfire_cmac ◌>>=◌ mac_truncate
      leaf_pack_credential
  check_file-written k junk c h i j =
      let m = mac_truncate (cmac p k (leaf_pack_credential c)) in
      let size : (length (leaf_pack_credential c ++ (m ++ junk)) == 32) ≡ true =
        ground (arith, j) in
      rw size (rw (mem_eq_refl m) (rw (unpack-pack c (m ++ junk) i) refl))
