-- ===== src/Pn532/Chip/Frames.antt =====
-- components/pn532/pn532.c: the frames that the chip takes and the ones that the driver reads.
use osdp_reader_test_project.Common.{
  ℕ, ◌+◌, ◌-◌, ◌≤◌, ◌≡◌, refl, ap, ◌∙◌, sym, true, some, List, [], ◌∷◌, ◌++◌, length, length-append,
  append_assoc, take, take-append_left, ◌==◌, ==_iff, mem_eq, arith, leb,
}
use osdp_reader_test_project.Common.Bytes.{u8}
use osdp_reader_test_project.Pn532.{sum_loop, frame_of}
use osdp_reader_test_project.Pn532.Checksum.{total, total-append, sum_loop_lem}
use osdp_reader_test_project.Pn532.Chip.{body_of}

-- The checksum of `send_frame` makes the sum of the body and of itself zero.
pub sum-closed : (xs : List ℕ) → u8 (sum_loop 0 xs + u8 (0x100 - sum_loop 0 xs)) ≡ 0
sum-closed xs = omega (arith, sum_loop_lem 0 xs (omega arith))

sum-appended : (xs : List ℕ) (d : ℕ) → u8 (sum_loop 0 (xs ++ (d ∷ []))) ≡ u8 (sum_loop 0 xs + d)
unfolding total
sum-appended xs d = omega (
  arith,
  sum_loop_lem 0 xs (omega arith),
  sum_loop_lem 0 (xs ++ (d ∷ [])) (omega arith),
  total-append xs (d ∷ []),
)

-- What `frame_of` puts after the body.
abbrev pub trailer : List ℕ → List ℕ
trailer body = u8 (0x100 - sum_loop 0 body) ∷ 0x00 ∷ []

module _ (body : List ℕ) where
  take-trailer : take (length body) (body ++ trailer body) ≡ body
  take-trailer = take-append_left (length body) body (trailer body) refl

  take_checked :
      take (length body + 1) (body ++ trailer body) ≡ body ++ (u8 (0x100 - sum_loop 0 body) ∷ [])
  take_checked =
      let d = u8 (0x100 - sum_loop 0 body) in
      ap (take (length body + 1)) (sym (append_assoc body (d ∷ []) (0x00 ∷ [])))
      ∙ take-append_left (length body + 1) (body ++ (d ∷ [])) (0x00 ∷ [])
          (length-append body (d ∷ []))

  -- The chip finds the body in the frame of every body that `send_frame` takes.
  pub body_of-frame_of : length body ≤ 254 → body_of (frame_of body) ≡ some body
  unfolding body_of frame_of mem_eq
  body_of-frame_of short =
      let len : u8 (length body) ≡ length body = omega arith in
      let lcs : u8 (u8 (length body) + u8 (0x100 - length body)) == 0 ≡ true =
        (==_iff _ 0).1 (omega arith) in
      let room : leb (length body + 2) (length (body ++ trailer body)) ≡ true =
        ground (arith, length-append body (trailer body)) in
      let sum : u8 (sum_loop 0 (take (length body + 1) (body ++ trailer body))) == 0 ≡ true =
        (==_iff _ 0).1
          (ap (λ xs. u8 (sum_loop 0 xs)) take_checked ∙ sum-appended body _ ∙ sum-closed body) in
      rw (lcs) (rw (len) (rw (room, sum, take-trailer) refl))
