-- ===== src/Leaf/Credential.antt =====
-- components/leaf/leaf.c: `leaf_credential_t` and its ten bytes on the card.
pub mod RoundTrip
pub mod Equivalence
use osdp_reader_test_project.Common.{ℕ, ◌/◌, ◌%◌, ◌^◌, ◌<◌, List, [], ◌∷◌, ◌++◌, get_or}
use osdp_reader_test_project.Common.Bytes.{u8, le32, from_le16, from_le32}

pub record Cred : Type 0 where
  pub facility : ℕ
  pub card_id : ℕ
  pub issue_date : ℕ

-- The fields are a `uint16_t` and two `uint32_t`.
pub record IsCred (c : Cred) : Type 0 where
  pub facility_fits : c.facility < 2 ^ 16
  pub card_id_fits : c.card_id < 2 ^ 32
  pub issue_date_fits : c.issue_date < 2 ^ 32

unfoldable pub leaf_pack_credential : Cred → List ℕ
leaf_pack_credential c =
    u8 c.facility ∷ u8 (c.facility / 2 ^ 8) ∷ (le32 c.card_id ++ le32 c.issue_date)

unfoldable pub leaf_unpack_credential : List ℕ → Cred
leaf_unpack_credential b = record {
  facility = from_le16 (get_or b 0 0) (get_or b 1 0);
  card_id = from_le32 (get_or b 2 0) (get_or b 3 0) (get_or b 4 0) (get_or b 5 0);
  issue_date = from_le32 (get_or b 6 0) (get_or b 7 0) (get_or b 8 0) (get_or b 9 0);
}
