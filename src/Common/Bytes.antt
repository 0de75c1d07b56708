-- ===== src/Common/Bytes.antt =====
-- Byte strings: bytes are numbers below 256, and arrays are lists of them.
use Prim.Native.Nat.{ℕ, ◌+◌, ◌*◌, ◌/◌, ◌%◌, ◌^◌, ◌<◌, min, bit_or, bit_xor}
use mathlib.Core.Path.{◌≡◌}
use mathlib.Core.List.{List, [], ◌∷◌}
use native.Mathlib.Omega.{arith}
use osdp_reader_test_project.Common.Lists.{length}
use osdp_reader_test_project.Common.Bits.{bit_or-shift}

abbrev pub All {ℓ} : {A : Type ℓ} → (A → Type 0) → List A → Type 0
All P [] = Unit
All P (x ∷ xs) = P x × All P xs

abbrev pub IsByte : ℕ → Type 0
IsByte x = x < 256

abbrev pub IsBytes : List ℕ → Type 0
IsBytes xs = All IsByte xs

-- `(uint8_t)x`.
abbrev pub u8 : ℕ → ℕ
u8 x = x % 256

-- The low two, three and four bytes of a number, the lowest first:
-- `x & 0xFF`, `(x >> 8) & 0xFF`, …
abbrev pub le16 : ℕ → List ℕ
le16 x = u8 x ∷ u8 (x / 2 ^ 8) ∷ []

abbrev pub le24 : ℕ → List ℕ
le24 x = u8 x ∷ u8 (x / 2 ^ 8) ∷ u8 (x / 2 ^ 16) ∷ []

abbrev pub le32 : ℕ → List ℕ
le32 x = u8 x ∷ u8 (x / 2 ^ 8) ∷ u8 (x / 2 ^ 16) ∷ u8 (x / 2 ^ 24) ∷ []

-- `b0 | (b1 << 8)` and `b0 | (b1 << 8) | (b2 << 16) | (b3 << 24)`.
pub from_le16 : ℕ → ℕ → ℕ
from_le16 a b = bit_or a (b * 2 ^ 8)

pub from_le32 : ℕ → ℕ → ℕ → ℕ → ℕ
from_le32 a b c d = bit_or (bit_or (bit_or a (b * 2 ^ 8)) (c * 2 ^ 16)) (d * 2 ^ 24)

pub from_le16_lem : (a b : ℕ) → IsByte a → from_le16 a b ≡ a + b * 256
unfolding from_le16
from_le16_lem a b h = bit_or-shift 8 a b h

pub from_le32_lem :
    (a b c d : ℕ)
    → IsByte a
    → IsByte b
    → IsByte c
    → from_le32 a b c d ≡ a + b * 256 + c * 65536 + d * 16777216
unfolding from_le32
from_le32_lem a b c d p q r = rw (bit_or-shift 8 a b p) (
    rw (bit_or-shift 16 (a + b * 256) c (omega arith))
      (bit_or-shift 24 (a + b * 256 + c * 65536) d (omega arith)))

pub xor_bytes : List ℕ → List ℕ → List ℕ
xor_bytes [] ys = []
xor_bytes (x ∷ xs) [] = []
xor_bytes (x ∷ xs) (y ∷ ys) = bit_xor x y ∷ xor_bytes xs ys

pub length-xor_bytes : (xs ys : List ℕ) → length (xor_bytes xs ys) ≡ min (length xs) (length ys)
unfolding xor_bytes
length-xor_bytes [] ys = omega arith
length-xor_bytes (x ∷ xs) [] = omega arith
length-xor_bytes (x ∷ xs) (y ∷ ys) = omega (arith, length-xor_bytes xs ys)
