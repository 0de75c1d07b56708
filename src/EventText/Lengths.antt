-- ===== src/EventText/Lengths.antt =====
-- components/webui/webui.c: the texts fit the buffer of the page's event task.
use osdp_reader_test_project.Common.{
  ◌≤◌, ◌≡◌, ◌++◌, length, take, take_all, length-take, length-append, min, arith,
}
use osdp_reader_test_project.Text.{chars, print_unsigned, print_hex}
use osdp_reader_test_project.Text.Decimal.{length-decimal}
use osdp_reader_test_project.Text.Hex.{length-print_hex}
use osdp_reader_test_project.Leaf.Credential.{Cred}
use osdp_reader_test_project.Reader.Types.{
  Mode, idle, read, write, EventKind, evt_card_read_ok, evt_card_read_fail, evt_card_write_ok,
  evt_card_write_fail, evt_mode_changed, Event,
}
use osdp_reader_test_project.EventText.{
  mode_word, kind_word, uid_to_hex, head_text, uid_text, cred_text, tail_text, event_json, pushed,
}

length-uid_text : (e : Event) → length (uid_text e) ≤ 22
unfolding uid_text uid_to_hex
length-uid_text e =
    let bytes = take (min e.uid_len 7) e.uid in
    omega (
      arith,
      length-append (print_hex bytes) (chars "\""),
      length-print_hex bytes,
      length-take (min e.uid_len 7) e.uid,
    )

length-cred_text : (c : Cred) → length (cred_text c) ≤ 60
unfolding cred_text
length-cred_text c =
    let date = print_unsigned c.issue_date ++ chars "}" in
    let id = print_unsigned c.card_id ++ (chars ",\"date\":" ++ date) in
    omega (
      arith,
      length-append (print_unsigned c.facility) (chars ",\"id\":" ++ id),
      length-append (print_unsigned c.card_id) (chars ",\"date\":" ++ date),
      length-append (print_unsigned c.issue_date) (chars "}"),
      length-decimal 10 c.facility,
      length-decimal 10 c.card_id,
      length-decimal 10 c.issue_date,
    )

length-head_text : (k : EventKind) → length (head_text k) ≤ 21
unfolding head_text kind_word
length-head_text evt_card_read_ok = omega arith
length-head_text evt_card_read_fail = omega arith
length-head_text evt_card_write_ok = omega arith
length-head_text evt_card_write_fail = omega arith
length-head_text evt_mode_changed = omega arith

length-mode_text : (m : Mode) → length (chars "\"value\":\"" ++ (mode_word m ++ chars "\"}")) ≤ 22
unfolding mode_word
length-mode_text idle = omega arith
length-mode_text read = omega arith
length-mode_text write = omega arith

length-tail_text : (k : EventKind) (e : Event) → length (tail_text k e) ≤ 82
unfolding tail_text
length-tail_text evt_card_read_ok e = omega (
  arith,
  length-append (uid_text e) (cred_text e.cred),
  length-uid_text e,
  length-cred_text e.cred,
)
length-tail_text evt_card_write_ok e = omega (
  arith,
  length-append (uid_text e) (cred_text e.cred),
  length-uid_text e,
  length-cred_text e.cred,
)
length-tail_text evt_card_read_fail e =
    omega (arith, length-append (uid_text e) (chars "}"), length-uid_text e)
length-tail_text evt_card_write_fail e =
    omega (arith, length-append (uid_text e) (chars "}"), length-uid_text e)
length-tail_text evt_mode_changed e = omega (arith, length-mode_text e.mode)

-- No event is cut off by the buffer of 256 bytes that the web task prints it into, whatever its
-- UID and its credential: at most 103 are used.
pub pushed-event_json : (e : Event) → (pushed e ≡ event_json e) × (length (event_json e) ≤ 103)
unfolding pushed event_json
pushed-event_json e =
    let sizes = length-append (head_text e.kind) (tail_text e.kind e) in
    let head = length-head_text e.kind in
    let rest = length-tail_text e.kind e in
    (
      take_all 255 (head_text e.kind ++ tail_text e.kind e) (omega (arith, sizes, head, rest)),
      omega (arith, sizes, head, rest),
    )
