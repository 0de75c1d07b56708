-- ===== src/Leaf/Tests.antt =====
-- The theorems on components/leaf at concrete data.
use osdp_reader_test_project.Common.{List, ◌≡◌, refl, true, false, [], ◌∷◌, ◌++◌, replicate, arith}
use osdp_reader_test_project.Esp.{ok, is_ok}
use osdp_reader_test_project.Desfire.Crypto.{cmac}
use osdp_reader_test_project.Desfire.Transport.{mac_truncate}
use osdp_reader_test_project.Leaf.{leaf_read, check_file}
use osdp_reader_test_project.Leaf.Read.{leaf_read_never_ok}
use osdp_reader_test_project.Leaf.File.{check_file-written}
use osdp_reader_test_project.Leaf.Credential.{leaf_pack_credential}
use osdp_reader_test_project.Common.{ℕ, zero, suc, Bool, sym, ap, ◌∙◌}
use osdp_reader_test_project.Esp.{Outcome, err, fault}
use osdp_reader_test_project.Leaf.{leaf_personalize}
use osdp_reader_test_project.Leaf.Personalize.{leaf_personalize_never_ok}
use osdp_reader_test_project.Desfire.Transport.Refused.{has_mac, Macs}
use osdp_reader_test_project.Samples.{reply, key, platform, nvs, host, cred}

leaf_read_never_ok_example :
    is_ok (leaf_read platform nvs (4 ∷ 5 ∷ 6 ∷ 7 ∷ []) (host false)).0 ≡ false
leaf_read_never_ok_example = leaf_read_never_ok platform nvs (4 ∷ 5 ∷ 6 ∷ 7 ∷ []) (host false)

check_file-written_example :
    check_file platform nvs key
      (leaf_pack_credential cred
        ++ (mac_truncate (cmac platform key (leaf_pack_credential cred)) ++ replicate 14 0xEE))
      (host true)
    ≡ (ok cred, host true)
check_file-written_example =
    check_file-written platform nvs key (replicate 14 0xEE) cred (host true)
      (record {
        facility_fits = omega arith;
        card_id_fits = omega arith;
        issue_date_fits = omega arith;
      })
      refl

-- The card of the samples answers every command with more than 8 bytes.
abbrev answered : Outcome (List ℕ) → Bool
answered (ok rx) = has_mac rx
answered (err e) = true
answered fault = true

reply-answered : (w : ℕ) → answered (reply w).0 ≡ true
reply-answered zero = refl
reply-answered (suc zero) = refl
reply-answered (suc (suc zero)) = refl
reply-answered (suc (suc (suc n))) = refl

platform-Macs : Macs platform 0x3D
platform-Macs params rx cap w e = sym (ap answered e) ∙ reply-answered w

leaf_personalize_never_ok_example :
    is_ok
      (leaf_personalize platform nvs (replicate 14 0xEE) (4 ∷ 5 ∷ 6 ∷ 7 ∷ []) cred (host false)).0
    ≡ false
leaf_personalize_never_ok_example =
    leaf_personalize_never_ok platform nvs (replicate 14 0xEE) (4 ∷ 5 ∷ 6 ∷ 7 ∷ []) cred
      (host false) platform-Macs
