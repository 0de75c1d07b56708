-- ===== src/EventText.antt =====
-- components/app_console/console.c and components/webui/webui.c: an event of the reader as a line of
-- JSON. The two files print the same texts; the console has `=` before them and a newline after.
pub mod Lengths
use osdp_reader_test_project.Common.{ℕ, List, [], ◌∷◌, ◌++◌, take, min}
use osdp_reader_test_project.Text.{chars, print_unsigned, print_hex}
use osdp_reader_test_project.Leaf.Credential.{Cred}
use osdp_reader_test_project.Reader.Types.{
  Mode, idle, read, write, EventKind, evt_card_read_ok, evt_card_read_fail, evt_card_write_ok,
  evt_card_write_fail, evt_mode_changed, Event,
}

pub mode_word : Mode → List ℕ
mode_word idle = chars "idle"
mode_word read = chars "read"
mode_word write = chars "write"

pub kind_word : EventKind → List ℕ
kind_word evt_card_read_ok = chars "card_read"
kind_word evt_card_read_fail = chars "read_fail"
kind_word evt_card_write_ok = chars "write_ok"
kind_word evt_card_write_fail = chars "write_fail"
kind_word evt_mode_changed = chars "mode"

-- At most seven bytes of the UID, as "%02x".
pub uid_to_hex : List ℕ → ℕ → List ℕ
uid_to_hex uid len = print_hex (take (min len 7) uid)

pub head_text : EventKind → List ℕ
head_text k = chars "{\"type\":\"" ++ (kind_word k ++ chars "\",")

pub uid_text : Event → List ℕ
uid_text e = chars "\"uid\":\"" ++ (uid_to_hex e.uid e.uid_len ++ chars "\"")

pub cred_text : Cred → List ℕ
cred_text c =
    chars ",\"facility\":"
    ++ (print_unsigned c.facility
        ++ (chars ",\"id\":"
            ++ (print_unsigned c.card_id
                ++ (chars ",\"date\":" ++ (print_unsigned c.issue_date ++ chars "}")))))

-- What follows the type, by the kind of the event.
pub tail_text : EventKind → Event → List ℕ
tail_text evt_card_read_ok e = uid_text e ++ cred_text e.cred
tail_text evt_card_write_ok e = uid_text e ++ cred_text e.cred
tail_text evt_card_read_fail e = uid_text e ++ chars "}"
tail_text evt_card_write_fail e = uid_text e ++ chars "}"
tail_text evt_mode_changed e = chars "\"value\":\"" ++ (mode_word e.mode ++ chars "\"}")

pub event_json : Event → List ℕ
event_json e = head_text e.kind ++ tail_text e.kind e

-- `snprintf` into 256 bytes: 255 of the text at most.
pub pushed : Event → List ℕ
pushed e = take 255 (event_json e)

pub emit_event_json : Event → List ℕ
emit_event_json e = b'=' ∷ (event_json e ++ (10 ∷ []))
