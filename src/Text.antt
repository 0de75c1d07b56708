-- ===== src/Text.antt =====
-- The C library's functions on texts that the console and the web UI call, over the bytes of a
-- string without its terminator.
pub mod Decimal
pub mod Hex
use osdp_reader_test_project.Common.{
  ℕ, zero, suc, ◌+◌, ◌-◌, ◌*◌, ◌/◌, ◌%◌, ◌^◌, Bool, true, false, not, ◌&&◌, ◌||◌, Option, none,
  some, List, [], ◌∷◌, ◌++◌, get_or, drop, ltb, leb, ◌==◌, if◌then◌else◌,
}
use Prim.Native.Char.{code}
use Prim.Native.String.{String}

-- The bytes of a literal of the source.
abbrev pub chars : String → List ℕ
chars String.[] = []
chars (String.◌∷◌ c s) = code c ∷ chars s

-- `isspace` in the C locale.
unfoldable pub isspace : ℕ → Bool
isspace c = c == 32 || (leb 9 c && leb c 13)

-- The value of a digit in the bases up to 36, and 255 for what is none.
unfoldable pub digit_of : ℕ → ℕ
digit_of c =
    if leb b'0' c && leb c b'9'
    then c - 48
    else if leb b'a' c && leb c b'z'
    then c - 87
    else if leb b'A' c && leb c b'Z'
    then c - 55
    else 255

pub digits : ℕ → ℕ → List ℕ → ℕ
digits base acc [] = acc
digits base acc (c ∷ cs) =
    let rest = digits base (acc * base + digit_of c) cs in
    if ltb (digit_of c) base then rest else acc

unfoldable pub skip_spaces : List ℕ → List ℕ
skip_spaces [] = []
skip_spaces (c ∷ cs) = if isspace c then skip_spaces cs else c ∷ cs

-- The value of the digits at the start, and `none` if there is none.
pub digits_of : ℕ → List ℕ → Option ℕ
digits_of base s = if ltb (digit_of (get_or s 0 0)) base then some (digits base 0 s) else none

-- Base 0: the prefix says which.
pub prefixed : List ℕ → Option ℕ
prefixed s =
    if not (get_or s 0 0 == b'0')
    then digits_of 10 s
    else if (get_or s 1 0 == b'x' || get_or s 1 0 == b'X') && ltb (digit_of (get_or s 2 0)) 16
    then digits_of 16 (drop 2 s)
    else digits_of 8 s

-- Whether there is a minus sign, and the number after the sign.
pub signed_number : (List ℕ → Option ℕ) → List ℕ → Bool × Option ℕ
signed_number number s =
    let t = skip_spaces s in
    if get_or t 0 0 == b'-'
    then (true, number (drop 1 t))
    else if get_or t 0 0 == b'+'
    then (false, number (drop 1 t))
    else (false, number t)

-- `strtoul` on a `long` of 32 bits; without digits it is 0.
pub clamp_unsigned : Bool → ℕ → ℕ
clamp_unsigned negative v =
    if leb (2 ^ 32) v then 2 ^ 32 - 1 else if negative then (2 ^ 32 - v) % 2 ^ 32 else v

pub to_unsigned : Bool × Option ℕ → ℕ
to_unsigned (negative, none) = 0
to_unsigned (negative, some v) = clamp_unsigned negative v

pub strtoul : List ℕ → ℕ
strtoul s = to_unsigned (signed_number prefixed s)

-- `strtol` on a `long` of 32 bits, as the 32 bits of the result; `none` where it reads no digit.
pub clamp_signed : Bool → ℕ → ℕ
clamp_signed negative v =
    if negative
    then (if leb (2 ^ 31) v then 2 ^ 31 else (2 ^ 32 - v) % 2 ^ 32)
    else if leb (2 ^ 31) v
    then 2 ^ 31 - 1
    else v

pub to_signed : Bool × Option ℕ → Option ℕ
to_signed (negative, none) = none
to_signed (negative, some v) = some (clamp_signed negative v)

pub strtol : (List ℕ → Option ℕ) → List ℕ → Option ℕ
strtol number s = to_signed (signed_number number s)

-- `atoi`.
pub atoi : List ℕ → ℕ
atoi s = elim (strtol (digits_of 10) s) [ none ↦ 0 | some v ↦ v ]

-- "%lu", with fuel for the number of digits.
pub decimal : ℕ → ℕ → List ℕ
decimal zero n = (b'0' + n % 10) ∷ []
decimal (suc fuel) n =
    let rest = decimal fuel (n / 10) in
    if ltb n 10 then (b'0' + n) ∷ [] else rest ++ ((b'0' + n % 10) ∷ [])

abbrev pub print_unsigned : ℕ → List ℕ
print_unsigned n = decimal 10 n

-- "%02x" on a byte.
pub hex_digit : ℕ → ℕ
hex_digit n = if ltb n 10 then b'0' + n else b'a' + (n - 10)

pub print_hex : List ℕ → List ℕ
print_hex [] = []
print_hex (b ∷ bs) = hex_digit (b / 16) ∷ hex_digit (b % 16) ∷ print_hex bs
