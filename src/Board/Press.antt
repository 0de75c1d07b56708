-- ===== src/Board/Press.antt =====
-- components/board/board_io.c: a press of the mode button.
use osdp_reader_test_project.Common.{
  ℕ, ◌-◌, ◌/◌, ◌≤◌, ◌<◌, ◌≡◌, refl, ap, ◌∙◌, true, false, List, [], ◌∷◌, arith,
}
use osdp_reader_test_project.Reader.Types.{btn_short, btn_long, btn_factory_reset}
use osdp_reader_test_project.Board.{Panel, latch, button_step}

-- The samples while the button is down, at the given times.
pub hold : List ℕ → Panel → Panel
hold [] b = b
hold (us ∷ times) b = hold times (button_step false us b)

hold_lem : (times : List ℕ) (b : Panel) → b.prev ≡ false → hold times b ≡ b
unfolding hold button_step
hold_lem [] b down = refl
hold_lem (us ∷ times) b down =
    let same : button_step false us b ≡ b = ground (arith, down) in
    ap (hold times) same ∙ hold_lem times b down

press_lem :
    (down up : ℕ) (times : List ℕ) (b : Panel)
    → b.prev ≡ true
    → 0 < down
    → button_step true up (hold times (button_step false down b)) ≡ (
        let c = latch ((up - down) / 1000) (record b { press_us = 0; prev = false }) in
        record c { prev = true })
press_lem down up times b high some_time =
    let pressed : Panel = record b { press_us = down; prev = false } in
    let first : button_step false down b ≡ pressed = unfold button_step in ground (arith, high) in
    ap (λ c. button_step true up (hold times c)) first
    ∙ ap (button_step true up) (hold_lem times pressed refl)
    ∙ (unfold button_step in ground (arith, some_time))

-- A press, from the falling edge to the release, with any number of samples between, latches an
-- event by its length in milliseconds: none below 50 and from 1000 to 1999, a short press from 50
-- to 999, a long one from 2000 to 9999, and a factory reset from 10000.
pub press_latches :
    (down up : ℕ) (times : List ℕ) (b : Panel)
    → b.prev ≡ true
    → 0 < down
    → let ms = (up - down) / 1000 in
      let e = (button_step true up (hold times (button_step false down b))).button_event in
      (ms < 50 → e ≡ b.button_event)
      × (50 ≤ ms → ms < 1000 → e ≡ btn_short)
      × (1000 ≤ ms → ms < 2000 → e ≡ b.button_event)
      × (2000 ≤ ms → ms < 10000 → e ≡ btn_long)
      × (10000 ≤ ms → e ≡ btn_factory_reset)
unfolding latch
press_latches down up times b high some_time =
    rw (press_lem down up times b high some_time) (ground arith)
