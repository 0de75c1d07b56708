-- ===== src/Text/Decimal.antt =====
-- Decimal numbers, printed and read back.
use osdp_reader_test_project.Common.{
  ℕ, zero, suc, ◌+◌, ◌-◌, ◌*◌, ◌/◌, ◌%◌, ◌^◌, ◌≤◌, ◌<◌, ◌≡◌, refl, ap, sym, ◌∙◌, ◌⊎◌, inl, inr, min,
  true, false, ◌&&◌, ◌||◌, Option, some, List, [], ◌∷◌, ◌++◌, length, length-append, append_assoc,
  append-nil, get_or, ltb, leb, ◌==◌, if◌then◌else◌, arith, Bool-cases,
}
use native.Mathlib.Nat.{pow-suc}
use osdp_reader_test_project.Common.Bytes.{All}
use osdp_reader_test_project.Text.{
  isspace, to_unsigned, to_signed, digit_of, digits, skip_spaces, digits_of, prefixed,
  signed_number, clamp_unsigned, strtoul, clamp_signed, strtol, decimal, print_unsigned,
}

digit_of_digit : (d : ℕ) → d < 10 → digit_of (48 + d) ≡ d
unfolding digit_of
digit_of_digit d h = ground (arith, h)

digits-digit :
    (a d : ℕ) (r : List ℕ) → d < 10 → digits 10 a ((48 + d) ∷ r) ≡ digits 10 (a * 10 + d) r
unfolding digits
digits-digit a d r h =
    let e = digit_of_digit d h in
    let in_base : ltb (digit_of (48 + d)) 10 ≡ true = ground (arith, e, h) in rw (in_base, e) refl

div_below : (n k : ℕ) → n < 10 ^ suc k → n / 10 < 10 ^ k
div_below n k h = omega (arith, h, pow-suc 10 k)

-- The digits of `n` and a text after them, read on from 0 and from `n`.
pub digits-decimal :
    (fuel n : ℕ) (r : List ℕ)
    → n < 10 ^ suc fuel
    → digits 10 0 (decimal fuel n ++ r) ≡ digits 10 n r
unfolding decimal
digits-decimal zero n r h =
    let ten : n < 10 = h in
    digits-digit 0 (n % 10) r (omega arith)
    ∙ ap (λ k. digits 10 k r) (let e : 0 * 10 + n % 10 ≡ n = omega (arith, ten) in e)
digits-decimal (suc fuel) n r h = elim (Bool-cases (ltb n 10)) [
  | inl e ↦
      let ten : n < 10 = ground (arith, e) in
      rw e (
        digits-digit 0 n r ten
        ∙ ap (λ k. digits 10 k r) (let q : 0 * 10 + n ≡ n = omega arith in q))
  | inr e ↦ rw e (
      ap (digits 10 0) (append_assoc (decimal fuel (n / 10)) ((48 + n % 10) ∷ []) r)
      ∙ digits-decimal fuel (n / 10) ((48 + n % 10) ∷ r) (div_below n (suc fuel) h)
      ∙ digits-digit (n / 10) (n % 10) r (omega arith)
      ∙ ap (λ k. digits 10 k r) (let q : n / 10 * 10 + n % 10 ≡ n = omega arith in q))
]

-- The first digit is 0 of 0 alone.
pub decimal_first :
    (fuel n : ℕ)
    → n < 10 ^ suc fuel
    → (c : ℕ) × (cs : List ℕ) × (decimal fuel n ≡ c ∷ cs) × (48 ≤ c) × (c ≤ 57) × (0 < n → 48 < c)
unfolding decimal
decimal_first zero n h =
    let ten : n < 10 = h in
    (48 + n % 10, [], refl, omega arith, omega arith, λ pos. omega (arith, ten, pos))
decimal_first (suc fuel) n h = elim (Bool-cases (ltb n 10)) [
  | inl e ↦
      let ten : n < 10 = ground (arith, e) in
      (48 + n, [], rw e refl, omega arith, omega (arith, ten), λ pos. omega (arith, pos))
  | inr e ↦
      let ten : 10 ≤ n = ground (arith, e) in
      let (c, cs, q, lo, hi, nonzero) = decimal_first fuel (n / 10) (div_below n (suc fuel) h) in
      (c, cs ++ ((48 + n % 10) ∷ []), rw (e, q) refl, lo, hi, λ pos. nonzero (omega (arith, ten)))
]

-- The text goes on with no digit and no letter, or ends.
abbrev pub Stops : List ℕ → Type 0
Stops r = digit_of (get_or r 0 0) ≡ 255

digits_stop : (base a : ℕ) (r : List ℕ) → base ≤ 36 → Stops r → digits base a r ≡ a
unfolding digits
digits_stop base a [] b h = refl
digits_stop base a (c ∷ cs) b h =
    let e : ltb (digit_of c) base ≡ false = ground (arith, h, b) in rw e refl

pub print_unsigned_first :
    (n : ℕ)
    → n < 10 ^ 11
    → (c : ℕ) × (cs : List ℕ) × (print_unsigned n ≡ c ∷ cs) × (48 ≤ c) × (c ≤ 57) × (0 < n → 48 < c)
print_unsigned_first n h = decimal_first 10 n h

not_x : (c : ℕ) → digit_of c ≡ 255 → (c == 120 || c == 88) ≡ false
unfolding digit_of
not_x c h = ground (arith, h)

zero_octal : (r : List ℕ) → Stops r → digits_of 8 (48 ∷ r) ≡ some 0
unfolding digits_of digits digit_of
zero_octal r h = ap some (digits_stop 8 0 r (omega arith) h)

prefixed-zero : (r : List ℕ) → Stops r → prefixed (48 ∷ r) ≡ some 0
unfolding prefixed
prefixed-zero r h = rw (not_x (get_or r 0 0) h) (zero_octal r h)

prefixed-digit :
    (c : ℕ) (cs : List ℕ) → 48 < c → c ≤ 57 → prefixed (c ∷ cs) ≡ some (digits 10 0 (c ∷ cs))
unfolding prefixed digits_of digit_of
prefixed-digit c cs lo hi =
    let not_zero : (c == 48) ≡ false = ground (arith, lo) in
    let is_digit : (leb 48 c && leb c 57) ≡ true = ground (arith, lo, hi) in
    let in_base : ltb (c - 48) 10 ≡ true = ground (arith, lo, hi) in
    rw (not_zero, is_digit, in_base) refl

pub prefixed-decimal :
    (n : ℕ) (r : List ℕ) → n < 10 ^ 11 → Stops r → prefixed (print_unsigned n ++ r) ≡ some n
unfolding decimal
prefixed-decimal zero r small h = prefixed-zero r h
prefixed-decimal (suc n) r small h =
    let (c, cs, e, lo, hi, nonzero) = print_unsigned_first (suc n) small in
    ap (λ s. prefixed (s ++ r)) e
    ∙ prefixed-digit c (cs ++ r) (nonzero (omega arith)) hi
    ∙ sym (ap (λ s. some (digits 10 0 (s ++ r))) e)
    ∙ ap some (digits-decimal 10 (suc n) r small ∙ digits_stop 10 (suc n) r (omega arith) h)

signed_number-digit :
    (number : List ℕ → Option ℕ) (c : ℕ) (cs : List ℕ)
    → 48 ≤ c
    → signed_number number (c ∷ cs) ≡ (false, number (c ∷ cs))
unfolding signed_number skip_spaces isspace
signed_number-digit number c cs lo =
    let no_space : (c == 32 || (leb 9 c && leb c 13)) ≡ false = ground (arith, lo) in
    let no_minus : (c == 45) ≡ false = ground (arith, lo) in
    let no_plus : (c == 43) ≡ false = ground (arith, lo) in rw (no_space, no_minus, no_plus) refl

pub signed_number-decimal :
    (n : ℕ) (r : List ℕ)
    → n < 10 ^ 11
    → Stops r
    → signed_number prefixed (print_unsigned n ++ r) ≡ (false, some n)
signed_number-decimal n r small h =
    let (c, cs, e, lo, hi, nonzero) = print_unsigned_first n small in
    ap (λ s. signed_number prefixed (s ++ r)) e
    ∙ signed_number-digit prefixed c (cs ++ r) lo
    ∙ ap (λ v. (false, v)) (sym (ap (λ s. prefixed (s ++ r)) e) ∙ prefixed-decimal n r small h)

-- A number printed as "%lu" is read back as it was by `strtoul`, whatever other text follows.
pub strtoul-decimal :
    (n : ℕ) (r : List ℕ) → n < 2 ^ 32 → Stops r → strtoul (print_unsigned n ++ r) ≡ n
unfolding strtoul to_unsigned clamp_unsigned
strtoul-decimal n r small h =
    let fits : leb (2 ^ 32) n ≡ false = ground (arith, small) in
    ap to_unsigned (signed_number-decimal n r (omega (arith, small)) h) ∙ rw fits refl

-- `strtol` reads it back as it was below 2 ^ 31, and as 2 ^ 31 - 1 from there on.
pub strtol-decimal :
    (n : ℕ) (r : List ℕ)
    → n < 2 ^ 32
    → Stops r
    → strtol prefixed (print_unsigned n ++ r) ≡ some (min n (2 ^ 31 - 1))
unfolding strtol to_signed clamp_signed
strtol-decimal n r small h =
    ap to_signed (signed_number-decimal n r (omega (arith, small)) h)
    ∙ ap some (clamp (Bool-cases (leb (2 ^ 31) n)))
  where
    clamp :
        (leb (2 ^ 31) n ≡ true) ⊎ (leb (2 ^ 31) n ≡ false)
        → (if leb (2 ^ 31) n then 2 ^ 31 - 1 else n) ≡ min n (2 ^ 31 - 1)
    clamp (inl e) =
        let big : 2 ^ 31 ≤ n = ground (arith, e) in
        rw e (let q : 2 ^ 31 - 1 ≡ min n (2 ^ 31 - 1) = omega (arith, big) in q)
    clamp (inr e) =
        let low : n < 2 ^ 31 = ground (arith, e) in
        rw e (let q : n ≡ min n (2 ^ 31 - 1) = omega (arith, low) in q)

-- A number printed is read back.
pub strtoul-print_unsigned : (n : ℕ) → n < 2 ^ 32 → strtoul (print_unsigned n) ≡ n
unfolding digit_of
strtoul-print_unsigned n small =
    ap strtoul (sym (append-nil (print_unsigned n))) ∙ strtoul-decimal n [] small refl

All-append : (P : ℕ → Type 0) (xs ys : List ℕ) → All P xs → All P ys → All P (xs ++ ys)
All-append P [] ys h k = k
All-append P (x ∷ xs) ys h k = (h.0, All-append P xs ys h.1 k)

pub length-decimal : (fuel n : ℕ) → length (decimal fuel n) ≤ suc fuel
unfolding decimal
length-decimal zero n = omega arith
length-decimal (suc fuel) n = elim (Bool-cases (ltb n 10)) [
  | inl e ↦ rw e (omega arith)
  | inr e ↦ rw e (
      omega (
        arith,
        length-append (decimal fuel (n / 10)) ((48 + n % 10) ∷ []),
        length-decimal fuel (n / 10),
      ))
]

-- What holds of every digit holds of the digits of a number.
pub All-decimal :
    (P : ℕ → Type 0) → ((d : ℕ) → d < 10 → P (48 + d)) → (fuel n : ℕ) → All P (decimal fuel n)
unfolding decimal
All-decimal P holds zero n = (holds (n % 10) (omega arith), tt)
All-decimal P holds (suc fuel) n = elim (Bool-cases (ltb n 10)) [
  | inl e ↦ rw e (holds n (ground (arith, e)), tt)
  | inr e ↦ rw e (
      All-append P (decimal fuel (n / 10)) ((48 + n % 10) ∷ []) (All-decimal P holds fuel (n / 10))
        (holds (n % 10) (omega arith), tt))
]

digit_no_space : (d : ℕ) → d < 10 → isspace (48 + d) ≡ false
unfolding isspace
digit_no_space d h = ground arith

pub print_unsigned-IsWord :
    (n : ℕ)
    → n < 2 ^ 32
    → (0 < length (print_unsigned n)) × All (λ c. isspace c ≡ false) (print_unsigned n)
print_unsigned-IsWord n small =
    let (c, cs, e, lo, hi, nonzero) = print_unsigned_first n (omega (arith, small)) in
    (rw e (omega arith), All-decimal (λ c. isspace c ≡ false) digit_no_space 10 n)
