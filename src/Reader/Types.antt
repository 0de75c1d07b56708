-- ===== src/Reader/Types.antt =====
-- The enumerations of components/board/include/board_io.h and mode_controller.h, and an event.
use osdp_reader_test_project.Common.{ℕ, ◌≡◌, ◌↔◌, Bool, true, false, List, arith}
use osdp_reader_test_project.Leaf.Credential.{Cred}

-- `reader_mode_t`.
pub data Mode : Type 0 where
  idle read write : Mode

-- `indicator_pattern_t`.
pub data Indicator : Type 0 where
  ind_off ind_idle ind_armed_read ind_armed_write ind_grant ind_deny ind_wrote_ok ind_error :
      Indicator

-- `button_event_t`.
pub data Button : Type 0 where
  btn_none btn_short btn_long btn_factory_reset : Button

-- `reader_event_kind_t`.
pub data EventKind : Type 0 where
  evt_card_read_ok evt_card_read_fail evt_card_write_ok evt_card_write_fail evt_mode_changed :
      EventKind

-- `reader_event_t`.
pub record Event : Type 0 where
  pub kind : EventKind
  pub mode : Mode
  pub cred : Cred
  pub uid : List ℕ
  pub uid_len : ℕ

-- `==` on `reader_mode_t`.
unfoldable pub mode_eq : Mode → Mode → Bool
mode_eq idle idle = true
mode_eq read read = true
mode_eq write write = true
mode_eq _ _ = false

pub mode_eq_iff : (a b : Mode) → (mode_eq a b ≡ true) ↔ (a ≡ b)
unfolding mode_eq
mode_eq_iff a b = ground arith
