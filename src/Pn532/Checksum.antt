-- ===== src/Pn532/Checksum.antt =====
-- components/pn532/pn532.c: the checksum of a frame.
use osdp_reader_test_project.Common.{
  ℕ, ◌+◌, ◌-◌, ◌%◌, ◌<◌, ◌≡◌, ◌∙◌, true, List, [], ◌∷◌, ◌++◌, ==_iff, arith,
}
use osdp_reader_test_project.Common.Bytes.{u8, IsByte}
use osdp_reader_test_project.Pn532.{sum_loop, body_checks}

unfoldable pub total : List ℕ → ℕ
total [] = 0
total (x ∷ xs) = x + total xs

pub total-append : (xs ys : List ℕ) → total (xs ++ ys) ≡ total xs + total ys
unfolding total
total-append [] ys = omega arith
total-append (x ∷ xs) ys = omega (arith, total-append xs ys)

pub sum_loop_lem : (dcs : ℕ) (xs : List ℕ) → dcs < 256 → sum_loop dcs xs ≡ (dcs + total xs) % 256
unfolding sum_loop total
sum_loop_lem dcs [] small = omega arith
sum_loop_lem dcs (x ∷ xs) small = sum_loop_lem (u8 (dcs + x)) xs (omega arith) ∙ omega arith

total-around :
    (before after : List ℕ) (x : ℕ) → total (before ++ (x ∷ after)) ≡ total before + total after + x
unfolding total
total-around before after x = omega (arith, total-append before (x ∷ after))

-- The checksum that `send_frame` computes for a body is one that `read_response` accepts, and with
-- that checksum it refuses a body in which one byte is another.
pub body_checks_single :
    (before after : List ℕ) (x y : ℕ)
    → IsByte x
    → IsByte y
    → (body_checks (before ++ (x ∷ after)) (u8 (0x100 - sum_loop 0 (before ++ (x ∷ after)))) ≡ true)
      × (body_checks (before ++ (y ∷ after)) (u8 (0x100 - sum_loop 0 (before ++ (x ∷ after))))
            ≡ true
          → y ≡ x)
unfolding body_checks
body_checks_single before after x y p q =
    let sx = sum_loop_lem 0 (before ++ (x ∷ after)) (omega arith) in
    let sy = sum_loop_lem 0 (before ++ (y ∷ after)) (omega arith) in
    let tx = total-around before after x in
    let ty = total-around before after y in
    ((==_iff _ 0).1 (omega (arith, sx)), λ e. omega (arith, (==_iff _ 0).0 e, sx, sy, tx, ty, p, q))
