-- ===== src/WebUi.antt =====
-- components/webui/webui.c: the commands of the web page. They act on the same globals as the
-- console's. The sending of a reply and the server are not modelled.
pub mod Enroll
pub mod Socket
mod Tests
use osdp_reader_test_project.Common.{
  ℕ, zero, suc, ◌+◌, ◌-◌, ◌%◌, ◌^◌, Bool, true, false, not, ◌&&◌, ◌||◌, Option, none, some, List,
  [], ◌∷◌, ◌++◌, length, ltb, leb, ◌==◌, if◌then◌else◌, mem_eq,
}
use osdp_reader_test_project.Esp.{Outcome, is_ok}
use osdp_reader_test_project.Text.{chars, strtol, prefixed}
use osdp_reader_test_project.Text.Hex.{hex_loop}
use osdp_reader_test_project.Settings.{Settings}
use osdp_reader_test_project.Osdp.{osdp_pd_save_config}
use osdp_reader_test_project.Leaf.{Nvs, leaf_set_site_key}
use osdp_reader_test_project.Leaf.Credential.{Cred}
use osdp_reader_test_project.Reader.Types.{Mode, idle, read, write}
use osdp_reader_test_project.Reader.{Queues, mode_set, mode_set_write_request}
use osdp_reader_test_project.Console.{Console}

-- The text after a prefix.
pub strip : List ℕ → List ℕ → Option (List ℕ)
strip [] hay = some hay
strip (n ∷ ns) [] = none
strip (n ∷ ns) (c ∷ cs) = if n == c then strip ns cs else none

pub or_else_try : Option (List ℕ) → Option (List ℕ) → Option (List ℕ)
or_else_try (some r) _ = some r
or_else_try none r = r

-- `strstr`, and the step over what it has found.
pub strstr : List ℕ → List ℕ → Option (List ℕ)
strstr needle [] = strip needle []
strstr needle (c ∷ cs) = or_else_try (strip needle (c ∷ cs)) (strstr needle cs)

pub skip_colon : List ℕ → List ℕ
skip_colon [] = []
skip_colon (c ∷ cs) = if c == 32 || c == 58 || c == 9 then skip_colon cs else c ∷ cs

-- `return *p ? p : NULL;`
pub or_null : List ℕ → Option (List ℕ)
or_null [] = none
or_null (c ∷ cs) = some (c ∷ cs)

pub value_at : Option (List ℕ) → Option (List ℕ)
value_at none = none
value_at (some r) = or_null (skip_colon r)

-- The text from the value of a key on; the key with its quotes has room for 31 bytes.
pub find_key : List ℕ → List ℕ → Option (List ℕ)
find_key json key =
    if leb 32 (length key + 2) then none else value_at (strstr (34 ∷ (key ++ (34 ∷ []))) json)

-- The loop of `get_str`, with room for so many bytes: what is copied, and what follows.
pub copy_str : ℕ → List ℕ → List ℕ × List ℕ
copy_str room [] = ([], [])
copy_str zero (c ∷ cs) = ([], c ∷ cs)
copy_str (suc room) (c ∷ cs) =
    let (out, rest) = copy_str room cs in if c == 34 then ([], c ∷ cs) else (c ∷ out, rest)

pub closed : List ℕ × List ℕ → Option (List ℕ)
closed (out, []) = none
closed (out, c ∷ _) = if c == 34 then some out else none

pub quoted : ℕ → Option (List ℕ) → Option (List ℕ)
quoted out_len none = none
quoted out_len (some []) = none
quoted out_len (some (c ∷ cs)) = if c == 34 then closed (copy_str (out_len - 1) cs) else none

pub get_str : List ℕ → List ℕ → ℕ → Option (List ℕ)
get_str json key out_len = quoted out_len (find_key json key)

pub number_at : Option (List ℕ) → Option ℕ
number_at none = none
number_at (some p) = strtol prefixed p

pub get_int : List ℕ → List ℕ → Option ℕ
get_int json key = number_at (find_key json key)

pub data WsReply : Type 0 where
  ws_error : List ℕ → WsReply
  ws_ack : List ℕ → List ℕ → WsReply

-- `date` stays 0 where there is none.
pub or_zero : Option ℕ → ℕ
or_zero none = 0
or_zero (some v) = v

-- The credential of the three numbers; the first two have to be there.
pub web_cred : Option ℕ → Option ℕ → Option ℕ → Option Cred
web_cred none id date = none
web_cred (some fac) none date = none
web_cred (some fac) (some id) date =
    some (record {
      facility = fac % 2 ^ 16;
      card_id = id % 2 ^ 32;
      issue_date = or_zero date % 2 ^ 32;
    })

module _ {Q W V : Type 0} (queues : Queues Q) (nvs : Nvs W) (store : Settings V) where
  abbrev pub Handled : Type 0
  Handled = WsReply × Console Q W V

  pub ws_mode : Option (List ℕ) → Console Q W V → Handled
  ws_mode none s = (ws_error (chars "mode: missing value"), s)
  ws_mode (some val) s =
      if mem_eq val (chars "idle")
      then (ws_ack (chars "mode") val, record s { reader = mode_set queues idle s.reader })
      else if mem_eq val (chars "read")
      then (ws_ack (chars "mode") val, record s { reader = mode_set queues read s.reader })
      else if mem_eq val (chars "write")
      then (ws_ack (chars "mode") val, record s { reader = mode_set queues write s.reader })
      else (ws_error (chars "mode: unknown value"), s)

  pub ws_enroll : Option Cred → Console Q W V → Handled
  ws_enroll none s = (ws_error (chars "enroll: need facility and id"), s)
  ws_enroll (some c) s = (
    ws_ack (chars "enroll") (chars "queued; tap card"),
    record s { reader = mode_set queues write (mode_set_write_request c s.reader) },
  )

  pub ws_store_key : Option (List ℕ) → Console Q W V → Handled
  ws_store_key none s = (ws_error (chars "key_set: bad hex"), s)
  ws_store_key (some k) s =
      let (r, h) = leaf_set_site_key nvs k s.host in
      (
        if is_ok r
            then ws_ack (chars "key_set") (chars "ok")
            else ws_error (chars "key_set: nvs write failed"),
        record s { host = h },
      )

  pub ws_key_set : Option (List ℕ) → Console Q W V → Handled
  ws_key_set none s = (ws_error (chars "key_set: need 32 hex chars"), s)
  ws_key_set (some hex) s =
      if not (length hex == 32)
      then (ws_error (chars "key_set: need 32 hex chars"), s)
      else ws_store_key (hex_loop hex) s

  pub ws_osdp_set : Option ℕ → Option ℕ → Console Q W V → Handled
  ws_osdp_set (some addr) (some baud) s =
      let (r, v) = osdp_pd_save_config store addr baud s.settings in
      if leb (2 ^ 31) addr || ltb 126 addr
      then (ws_error (chars "osdp_set: invalid address"), s)
      else (
        if is_ok r
            then ws_ack (chars "osdp_set") (chars "ok; reboot to apply")
            else ws_error (chars "osdp_set: nvs write failed"),
        record s { settings = v },
      )
  ws_osdp_set _ _ s = (ws_error (chars "osdp_set: need address and baud"), s)

  pub run_ws : List ℕ → List ℕ → Console Q W V → Handled
  run_ws json cmd s =
      if mem_eq cmd (chars "mode")
      then ws_mode (get_str json (chars "value") 16) s
      else if mem_eq cmd (chars "enroll")
      then ws_enroll
          (web_cred (get_int json (chars "facility")) (get_int json (chars "id"))
            (get_int json (chars "date")))
          s
      else if mem_eq cmd (chars "key_set")
      then ws_key_set (get_str json (chars "key") 33) s
      else if mem_eq cmd (chars "osdp_set")
      then ws_osdp_set (get_int json (chars "address")) (get_int json (chars "baud")) s
      else if mem_eq cmd (chars "reboot")
      then (ws_ack (chars "reboot") (chars "in 100ms"), record s { restarted = true })
      else (ws_error (chars "unknown cmd"), s)

  pub handle_ws_command : List ℕ → Console Q W V → Handled
  handle_ws_command json s = elim (get_str json (chars "cmd") 16) [
    | none ↦ (ws_error (chars "missing cmd"), s)
    | some cmd ↦ run_ws json cmd s
  ]
