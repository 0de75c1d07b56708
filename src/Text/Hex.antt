-- ===== src/Text/Hex.antt =====
-- components/app_console/console.c and components/webui/webui.c: bytes as hexadecimal digits. The
-- two files have the same parse_hex_byte.
use osdp_reader_test_project.Common.{
  ℕ, ◌+◌, ◌-◌, ◌*◌, ◌/◌, ◌%◌, ◌^◌, ◌<◌, ◌≡◌, refl, ap, ap₂, Bool, true, false, not, ◌&&◌, Option,
  none, some, List, [], ◌∷◌, length, leb, ◌==◌, ==_iff, if◌then◌else◌, bit_or, arith,
}
use osdp_reader_test_project.Common.Bits.{holds_below, holds_below_lem}
use osdp_reader_test_project.Common.Bytes.{All, IsBytes}
use osdp_reader_test_project.Text.{hex_digit, isspace, print_hex}

-- The value of a digit, and `none` for -1.
pub hex_value : ℕ → Option ℕ
hex_value c =
    if leb b'0' c && leb c b'9'
    then some (c - b'0')
    else if leb b'a' c && leb c b'f'
    then some (c - b'a' + 10)
    else if leb b'A' c && leb c b'F'
    then some (c - b'A' + 10)
    else none

pub parse_hex_byte : ℕ → ℕ → Option ℕ
parse_hex_byte s0 s1 = elim (hex_value s0) [
  | none ↦ none
  | some hi ↦ elim (hex_value s1) [ none ↦ none | some lo ↦ some (bit_or (hi * 2 ^ 4) lo) ]
]

-- `out[i] = b`, or a return on the first byte that is none.
pub store_byte : Option ℕ → Option (List ℕ) → Option (List ℕ)
store_byte none rest = none
store_byte (some b) none = none
store_byte (some b) (some bs) = some (b ∷ bs)

-- The loop of `parse_hex_blob` over digits whose number is even.
pub hex_loop : List ℕ → Option (List ℕ)
hex_loop [] = some []
hex_loop (_ ∷ []) = none
hex_loop (s0 ∷ s1 ∷ hex) = store_byte (parse_hex_byte s0 s1) (hex_loop hex)

pub parse_hex_blob : List ℕ → ℕ → Option (List ℕ)
parse_hex_blob hex out_len = if not (length hex == out_len * 2) then none else hex_loop hex

is_byte : Option ℕ → ℕ → Bool
is_byte none b = false
is_byte (some a) b = a == b

is_byte_lem : (o : Option ℕ) (b : ℕ) → is_byte o b ≡ true → o ≡ some b
unfolding is_byte
is_byte_lem none b h = absurd (ground (arith, h))
is_byte_lem (some a) b h = ap some ((==_iff a b).0 h)

parse_hex_byte-printed :
    (b : ℕ) → b < 256 → parse_hex_byte (hex_digit (b / 16)) (hex_digit (b % 16)) ≡ some b
unfolding parse_hex_byte hex_value hex_digit is_byte holds_below
parse_hex_byte-printed b h = is_byte_lem _ b (
    holds_below_lem (λ b. is_byte (parse_hex_byte (hex_digit (b / 16)) (hex_digit (b % 16))) b) 256
      refl b h)

pub length-print_hex : (bs : List ℕ) → length (print_hex bs) ≡ length bs * 2
unfolding print_hex
length-print_hex [] = refl
length-print_hex (b ∷ bs) = omega (arith, length-print_hex bs)

hex_loop-printed : (bs : List ℕ) → IsBytes bs → hex_loop (print_hex bs) ≡ some bs
unfolding hex_loop print_hex store_byte
hex_loop-printed [] h = refl
hex_loop-printed (b ∷ bs) h =
    ap₂ store_byte (parse_hex_byte-printed b h.0) (hex_loop-printed bs h.1)

-- Bytes printed as "%02x" are parsed back as they were.
pub parse_hex_blob-printed :
    (bs : List ℕ) → IsBytes bs → parse_hex_blob (print_hex bs) (length bs) ≡ some bs
unfolding parse_hex_blob
parse_hex_blob-printed bs h =
    let e : (length (print_hex bs) == length bs * 2) ≡ true =
      (==_iff _ _).1 (length-print_hex bs) in
    rw e (hex_loop-printed bs h)

hex_digit_no_space : (d : ℕ) → isspace (hex_digit d) ≡ false
unfolding isspace hex_digit
hex_digit_no_space d = ground arith

pub no_spaces-print_hex : (bs : List ℕ) → All (λ c. isspace c ≡ false) (print_hex bs)
unfolding print_hex
no_spaces-print_hex [] = tt
no_spaces-print_hex (b ∷ bs) =
    (hex_digit_no_space (b / 16), (hex_digit_no_space (b % 16), no_spaces-print_hex bs))
