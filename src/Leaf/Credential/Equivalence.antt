-- ===== src/Leaf/Credential/Equivalence.antt =====
-- components/leaf/leaf.c: the credentials that fit their types are the ten-byte strings.
use osdp_reader_test_project.Common.{
  ℕ, ◌≡◌, refl, List, [], ◌∷◌, length, append-nil, arith, ap, ◌∙◌, sym,
}
use mathlib.Core.HLevel.{Σ_prop_path}
use mathlib.Core.Equiv.{IsEquiv, Iso, iso_to_equiv}
use native.Mathlib.Bridge.{le_prop}
use osdp_reader_test_project.Common.Bytes.{IsBytes, from_le16_lem, from_le32_lem}
use osdp_reader_test_project.Leaf.Credential.{
  Cred, IsCred, leaf_pack_credential, leaf_unpack_credential,
}
use osdp_reader_test_project.Leaf.Credential.RoundTrip.{unpack-pack, pack-unpack}

abbrev pub IsPacked : List ℕ → Type 0
IsPacked b = (length b ≡ 10) × IsBytes b

IsCred-prop : (c : Cred) → IsProp (IsCred c)
IsCred-prop c = hlevel le_prop

IsBytes-prop : (b : List ℕ) → IsProp (IsBytes b)
IsBytes-prop [] = hlevel le_prop
IsBytes-prop (x ∷ b) = hlevel (le_prop, IsBytes-prop b)

IsPacked-prop : (b : List ℕ) → IsProp (IsPacked b)
IsPacked-prop b = hlevel (le_prop, IsBytes-prop b)

pub pack-IsPacked : (c : Cred) → IsPacked (leaf_pack_credential c)
unfolding leaf_pack_credential
pack-IsPacked c = (refl, ground arith)

unpack-IsCred : (b : List ℕ) → IsPacked b → IsCred (leaf_unpack_credential b)
unfolding leaf_unpack_credential
unpack-IsCred (b0 ∷ b1 ∷ b2 ∷ b3 ∷ b4 ∷ b5 ∷ b6 ∷ b7 ∷ b8 ∷ b9 ∷ []) h =
    let (p0, (p1, (p2, (p3, (p4, (p5, (p6, (p7, (p8, (p9, _)))))))))) = h.1 in
    record {
      facility_fits = omega (arith, p0, p1, from_le16_lem b0 b1 p0);
      card_id_fits = omega (arith, p2, p3, p4, p5, from_le32_lem b2 b3 b4 b5 p2 p3 p4);
      issue_date_fits = omega (arith, p6, p7, p8, p9, from_le32_lem b6 b7 b8 b9 p6 p7 p8);
    }
unpack-IsCred _ h = absurd (ground (arith, h))

packed_back : (b : List ℕ) → IsPacked b → leaf_pack_credential (leaf_unpack_credential b) ≡ b
packed_back (b0 ∷ b1 ∷ b2 ∷ b3 ∷ b4 ∷ b5 ∷ b6 ∷ b7 ∷ b8 ∷ b9 ∷ []) h =
    pack-unpack b0 b1 b2 b3 b4 b5 b6 b7 b8 b9 h.1
packed_back _ h = absurd (ground (arith, h))

-- The values of `leaf_credential_t`, and the arrays of ten bytes.
abbrev pub FitCred : Type 0
FitCred = (c : Cred) × IsCred c

abbrev pub TenBytes : Type 0
TenBytes = (b : List ℕ) × IsPacked b

abbrev pub packed : FitCred → TenBytes
packed c = (leaf_pack_credential c.0, pack-IsPacked c.0)

-- Packing is an equivalence between the credentials whose fields fit their types and the strings
-- of ten bytes: no two credentials have the same bytes, and every ten bytes are those of one.
pub leaf_pack_credential-IsEquiv : IsEquiv packed
leaf_pack_credential-IsEquiv = (iso_to_equiv both_ways).1
  where
    both_ways : Iso FitCred TenBytes
    both_ways = record {
      fun = packed;
      inv = λ b. (leaf_unpack_credential b.0, unpack-IsCred b.0 b.1);
      rinv = λ b. Σ_prop_path IsPacked-prop (packed_back b.0 b.1);
      linv = λ c. Σ_prop_path IsCred-prop (
          ap leaf_unpack_credential (sym (append-nil (leaf_pack_credential c.0)))
          ∙ unpack-pack c.0 [] c.1);
    }
