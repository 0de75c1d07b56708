-- ===== src/Board.antt =====
-- components/board/board_io.c: the indicator patterns and the mode button.
pub mod Press
pub mod Patterns
pub mod Tests
use osdp_reader_test_project.Common.{
  ℕ, zero, suc, ◌-◌, ◌/◌, Bool, true, false, not, ◌&&◌, List, [], ◌∷◌, ◌++◌, ltb, leb, ◌==◌,
  if◌then◌else◌,
}
use osdp_reader_test_project.Reader.Types.{
  Indicator, ind_off, ind_idle, ind_armed_read, ind_armed_write, ind_grant, ind_deny, ind_wrote_ok,
  ind_error, Button, btn_none, btn_short, btn_long, btn_factory_reset,
}

-- What the indicator task does to the outside: the colour, the buzzer, and a delay in ms.
pub data Out : Type 0 where
  rgb : ℕ → ℕ → ℕ → Out
  buzzer : Bool → Out
  wait : ℕ → Out

-- The statics of board_io.c and the locals of its two tasks. Time is in microseconds.
pub record Panel : Type 0 where
  pub pattern : Indicator
  pub button_event : Button
  pub resting : Indicator
  pub blink : Bool
  pub prev : Bool
  pub press_us : ℕ

pub board_led_set : Bool → Bool → List Out
board_led_set true true = rgb 32 24 0 ∷ []
board_led_set true false = rgb 0 32 0 ∷ []
board_led_set false true = rgb 32 0 0 ∷ []
board_led_set false false = rgb 0 0 0 ∷ []

pub times : ℕ → List Out → List Out
times zero xs = []
times (suc n) xs = xs ++ times n xs

pub play_grant : List Out
play_grant = rgb 0 64 0 ∷ buzzer true ∷ wait 120 ∷ buzzer false ∷ wait 700 ∷ rgb 0 0 0 ∷ []

pub play_deny : List Out
play_deny = times 2 (rgb 64 0 0 ∷ buzzer true ∷ wait 100 ∷ rgb 0 0 0 ∷ buzzer false ∷ wait 100 ∷ [])

pub play_wrote_ok : List Out
play_wrote_ok =
    times 3 (rgb 0 32 32 ∷ buzzer true ∷ wait 80 ∷ rgb 0 0 0 ∷ buzzer false ∷ wait 80 ∷ [])

pub play_error : List Out
play_error =
    buzzer true ∷ (times 6 (rgb 64 0 0 ∷ wait 80 ∷ rgb 0 0 0 ∷ wait 80 ∷ []) ++ (buzzer false ∷ []))

-- `atomic_store(&s_pattern, p)` of `board_indicate`.
pub set_pattern : Indicator → Panel → Panel
set_pattern p b = record b { pattern = p }

-- An iteration of `indicator_task` for the pattern that it has loaded, up to the store that may
-- end it.
pub show : Indicator → Panel → List Out × Panel
show ind_off b = (rgb 0 0 0 ∷ buzzer false ∷ wait 100 ∷ [], b)
show ind_idle b =
    let lit = not b.blink in
    (
      rgb 0 0 (if lit then 8 else 0) ∷ buzzer false ∷ wait 1500 ∷ [],
      record b { resting = ind_idle; blink = lit },
    )
show ind_armed_read b =
    (rgb 0 32 0 ∷ buzzer false ∷ wait 200 ∷ [], record b { resting = ind_armed_read })
show ind_armed_write b =
    let lit = not b.blink in
    (
      rgb (if lit then 32 else 0) (if lit then 16 else 0) 0 ∷ buzzer false ∷ wait 500 ∷ [],
      record b { resting = ind_armed_write; blink = lit },
    )
show ind_grant b = (play_grant, b)
show ind_deny b = (play_deny, b)
show ind_wrote_ok b = (play_wrote_ok, b)
show ind_error b = (play_error, b)

-- `atomic_store(&s_pattern, s_resting)` at the end of a pattern that is an event.
pub revert : Indicator → Panel → Panel
revert ind_grant b = set_pattern b.resting b
revert ind_deny b = set_pattern b.resting b
revert ind_wrote_ok b = set_pattern b.resting b
revert ind_error b = set_pattern b.resting b
revert _ b = b

-- What `button_task` latches for a press that was held for so many milliseconds.
pub latch : ℕ → Panel → Panel
latch held_ms b =
    if leb 50 held_ms && ltb held_ms 1000
    then record b { button_event = btn_short }
    else if leb 2000 held_ms && ltb held_ms 10000
    then record b { button_event = btn_long }
    else if leb 10000 held_ms
    then record b { button_event = btn_factory_reset }
    else b

-- An iteration of `button_task`: the level of the pin, and the time where it is asked for.
pub button_step : Bool → ℕ → Panel → Panel
button_step now us b =
    let released = latch ((us - b.press_us) / 1000) (record b { press_us = 0 }) in
    if b.prev && not now
    then record b { press_us = us; prev = now }
    else if not b.prev && (now && not (b.press_us == 0))
    then record released { prev = now }
    else record b { prev = now }

pub board_button_poll : Panel → Button × Panel
board_button_poll b = (b.button_event, record b { button_event = btn_none })
