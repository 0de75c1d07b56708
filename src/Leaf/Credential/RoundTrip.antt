-- ===== src/Leaf/Credential/RoundTrip.antt =====
-- components/leaf/leaf.c: `leaf_pack_credential` and `leaf_unpack_credential` are inverse.
use osdp_reader_test_project.Common.{ℕ, ◌/◌, ◌^◌, ◌<◌, ◌≡◌, List, [], ◌∷◌, ◌++◌, arith}
use osdp_reader_test_project.Common.Bytes.{
  u8, le32, from_le16, from_le32, from_le16_lem, from_le32_lem, IsByte, IsBytes,
}
use osdp_reader_test_project.Leaf.Credential.{
  Cred, IsCred, leaf_pack_credential, leaf_unpack_credential,
}

u16_back : (x : ℕ) → x < 2 ^ 16 → from_le16 (u8 x) (u8 (x / 2 ^ 8)) ≡ x
u16_back x h = omega (arith, from_le16_lem (u8 x) (u8 (x / 2 ^ 8)) (omega arith))

u32_back :
    (x : ℕ) → x < 2 ^ 32 → from_le32 (u8 x) (u8 (x / 2 ^ 8)) (u8 (x / 2 ^ 16)) (u8 (x / 2 ^ 24)) ≡ x
u32_back x h = omega (
  arith,
  from_le32_lem (u8 x) (u8 (x / 2 ^ 8)) (u8 (x / 2 ^ 16)) (u8 (x / 2 ^ 24)) (omega arith)
      (omega arith) (omega arith),
)

-- A credential whose fields fit their types comes back from its bytes, whatever bytes follow them.
pub unpack-pack :
    (c : Cred) (rest : List ℕ)
    → IsCred c
    → leaf_unpack_credential (leaf_pack_credential c ++ rest) ≡ c
unfolding leaf_pack_credential leaf_unpack_credential
unpack-pack c rest h = ground (
  arith,
  u16_back c.facility h.facility_fits,
  u32_back c.card_id h.card_id_fits,
  u32_back c.issue_date h.issue_date_fits,
)

le32_back :
    (a b c d : ℕ)
    → IsByte a
    → IsByte b
    → IsByte c
    → IsByte d
    → le32 (from_le32 a b c d) ≡ a ∷ b ∷ c ∷ d ∷ []
le32_back a b c d p q r s = rw (from_le32_lem a b c d p q r) (ground arith)

-- Ten bytes come back from the credential that they stand for.
pub pack-unpack :
    (b0 b1 b2 b3 b4 b5 b6 b7 b8 b9 : ℕ)
    → let b = b0 ∷ b1 ∷ b2 ∷ b3 ∷ b4 ∷ b5 ∷ b6 ∷ b7 ∷ b8 ∷ b9 ∷ [] in
      IsBytes b → leaf_pack_credential (leaf_unpack_credential b) ≡ b
unfolding leaf_pack_credential leaf_unpack_credential
pack-unpack b0 b1 b2 b3 b4 b5 b6 b7 b8 b9 h =
    ground (arith, from_le16_lem b0 b1 h.0, from_le32_lem b2 b3 b4 b5, from_le32_lem b6 b7 b8 b9)
