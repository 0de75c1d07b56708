-- ===== src/Board/Tests.antt =====
-- The theorems on components/board at concrete data.
use osdp_reader_test_project.Common.{
  ◌-◌, ◌/◌, ◌≤◌, ◌<◌, ◌≡◌, refl, inl, true, false, [], ◌∷◌, arith,
}
use osdp_reader_test_project.Reader.Types.{
  ind_grant, ind_armed_read, ind_armed_write, btn_none, btn_short, btn_long, btn_factory_reset,
}
use osdp_reader_test_project.Board.{Panel, button_step, show, revert}
use osdp_reader_test_project.Board.Press.{hold, press_latches}
use osdp_reader_test_project.Board.Patterns.{indicate_all, indications_lost}

abbrev panel : Panel
panel = record {
  pattern = ind_grant;
  button_event = btn_none;
  resting = ind_armed_read;
  blink = false;
  prev = true;
  press_us = 0;
}

press_latches_example :
    let ms = (3000000 - 500000) / 1000 in
    let e =
      (button_step true 3000000
        (hold (520000 ∷ 540000 ∷ []) (button_step false 500000 panel))).button_event in
    (ms < 50 → e ≡ btn_none)
    × (50 ≤ ms → ms < 1000 → e ≡ btn_short)
    × (1000 ≤ ms → ms < 2000 → e ≡ btn_none)
    × (2000 ≤ ms → ms < 10000 → e ≡ btn_long)
    × (10000 ≤ ms → e ≡ btn_factory_reset)
press_latches_example = press_latches 500000 3000000 (520000 ∷ 540000 ∷ []) panel refl (omega arith)

indications_lost_example :
    (revert ind_grant (indicate_all (ind_armed_write ∷ []) (show ind_grant panel).1)).pattern
    ≡ ind_armed_read
indications_lost_example = indications_lost ind_grant (ind_armed_write ∷ []) panel (inl refl)
