-- ===== src/Osdp.antt =====
-- main/osdp_pd.c: the peripheral device between the reader's events and the panel. libosdp is a
-- parameter: the commands that it hands over, and the reports that it takes or refuses.
pub mod Reports
pub mod Config
mod Tests
use osdp_reader_test_project.Common.{
  ℕ, ◌+◌, ◌*◌, ◌/◌, ◌%◌, ◌^◌, Bool, true, false, not, Option, none, some, List, [], ◌∷◌, ◌++◌, ◌==◌,
  if◌then◌else◌,
}
use osdp_reader_test_project.Common.Bytes.{u8}
use osdp_reader_test_project.Esp.{Outcome, ok, err, fault}
use osdp_reader_test_project.Io.{Io, ◌then_with◌}
use osdp_reader_test_project.Text.{chars}
use osdp_reader_test_project.Settings.{Settings}
use osdp_reader_test_project.Leaf.Credential.{Cred}
use osdp_reader_test_project.Reader.Types.{
  Mode, idle, read, write, Indicator, ind_idle, ind_armed_read, ind_armed_write, ind_grant,
  ind_deny, EventKind, evt_card_read_ok, evt_card_read_fail, evt_card_write_ok, evt_card_write_fail,
  evt_mode_changed, Event,
}
use osdp_reader_test_project.Reader.{
  Queues, Reader, board_indicate, mode_event, mode_get, mode_post_event,
}

-- `osdp_pd_is_online`: bit 0 of the status mask of libosdp, once there is a context.
pub osdp_pd_is_online : Option ℕ → Bool
osdp_pd_is_online none = false
osdp_pd_is_online (some status) = not (status % 2 == 0)

module _ {W : Type 0} (nvs : Settings W) where
  pub osdp_pd_save_config : ℕ → ℕ → Io W (Unit {0})
  osdp_pd_save_config address baud = nvs.open_ns (chars "osdp") true then_with λ _.
      nvs.set_i32 (chars "osdp") (chars "address") address then_with λ _.
      nvs.set_i32 (chars "osdp") (chars "baud") baud then_with λ _. nvs.commit (chars "osdp")

  -- `if (nvs_get_i32(h, key, &a) == ESP_OK) *address = a;`
  pub or_default : ℕ → Io W ℕ → W → ℕ × W
  or_default d m w =
      let (r, w') = m w in elim r [ ok a ↦ (a, w') | err _ ↦ (d, w') | fault ↦ (d, w') ]

  -- The two numbers of an open namespace.
  pub read_config : W → (ℕ × ℕ) × W
  read_config w =
      let (address, w₁) = or_default 0x65 (nvs.get_i32 (chars "osdp") (chars "address")) w in
      let (baud, w₂) = or_default 9600 (nvs.get_i32 (chars "osdp") (chars "baud")) w₁ in
      ((address, baud), w₂)

  -- The address and the baud rate.
  pub osdp_pd_load_config : W → (ℕ × ℕ) × W
  osdp_pd_load_config w =
      let (r, w') = nvs.open_ns (chars "osdp") false w in
      elim r [ ok _ ↦ read_config w' | err _ ↦ ((0x65, 9600), w') | fault ↦ ((0x65, 9600), w') ]

-- The commands of the panel that the handler tells apart.
pub data Command : Type 0 where
  cmd_led : ℕ → Command
  cmd_buzzer : ℕ → Command
  cmd_other : Command

-- The reader with the buzzer of its board.
pub record PdState (Q : Type 0) : Type 0 where
  pub reader : Reader Q
  pub buzzer : Bool

-- `osdp_led_color_e`: red is 1, green 2.
pub indicator_for : ℕ → Mode → Indicator
indicator_for on_color mode =
    if on_color == 1
    then ind_deny
    else if on_color == 2
    then ind_grant
    else elim mode [ read ↦ ind_armed_read | write ↦ ind_armed_write | idle ↦ ind_idle ]

module _ {Q : Type 0} where
  pub pd_cmd_handler : Command → PdState Q → PdState Q
  pd_cmd_handler (cmd_led on_color) u = record u {
    reader = board_indicate (indicator_for on_color (mode_get u.reader)) u.reader;
  }
  pd_cmd_handler (cmd_buzzer control_code) u = record u { buzzer = not (control_code == 0) }
  pd_cmd_handler cmd_other u = u

-- `struct osdp_event` of a card read: its length in bits, and the payload.
pub record CardRead : Type 0 where
  pub reader_no : ℕ
  pub length_bits : ℕ
  pub payload : List ℕ

-- The event that is built for a credential.
pub card_read_event : Cred → CardRead
card_read_event c = record {
  reader_no = 0;
  length_bits = 10 * 8;
  payload =
      u8 c.facility
      ∷ u8 (c.facility / 2 ^ 8)
      ∷ u8 c.card_id
      ∷ u8 (c.card_id / 2 ^ 8)
      ∷ u8 (c.card_id / 2 ^ 16)
      ∷ u8 (c.card_id / 2 ^ 24)
      ∷ u8 c.issue_date
      ∷ u8 (c.issue_date / 2 ^ 8)
      ∷ u8 (c.issue_date / 2 ^ 16)
      ∷ u8 (c.issue_date / 2 ^ 24)
      ∷ [];
}

module _ {P : Type 0} (submit : CardRead → P → Bool × P) where
  -- `osdp_pd_submit_event` of libosdp, whose result nothing looks at.
  pub post_card_read : Cred → P → P
  post_card_read c pd = (submit (card_read_event c) pd).1

  -- What an event of the reader becomes on the bus: the `switch` of the event loop.
  pub report : EventKind → Cred → P → P
  report evt_card_read_ok c pd = post_card_read c pd
  report evt_card_read_fail c pd = pd
  report evt_card_write_ok c pd = pd
  report evt_card_write_fail c pd = pd
  report evt_mode_changed c pd = pd

  -- The loop that empties the queue: the reports in the order of the events.
  pub drain_queue : List Event → P → P
  drain_queue [] pd = pd
  drain_queue (e ∷ es) pd = drain_queue es (report e.kind e.cred pd)

-- The part of an iteration before it: the mode event where the state of the link has changed.
pub link_changed : {Q : Type 0} → Queues Q → Bool → Bool × Reader Q → Bool × Reader Q
link_changed queues online (last_online, r) =
    let r' = mode_post_event queues (mode_event (mode_get r)) r in
    elim online [
      | true ↦ if last_online then (last_online, r) else (true, r')
      | false ↦ if last_online then (false, r') else (last_online, r)
    ]
