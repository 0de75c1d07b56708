-- ===== src/Console.antt =====
-- components/app_console/console.c: the commands of the serial console. A reply stands for the
-- line that is printed, with the values in it.
pub mod Tokens
pub mod Enroll
pub mod Lines
pub mod Keys
mod Tests
use osdp_reader_test_project.Common.{
  ℕ, zero, suc, ◌+◌, ◌%◌, ◌^◌, Bool, true, false, not, ◌&&◌, ◌||◌, Option, none, some, List, [],
  ◌∷◌, ◌++◌, length, take, replicate, get_or, ltb, leb, ◌==◌, if◌then◌else◌, mem_eq,
}
use osdp_reader_test_project.Esp.{Outcome, ok, err, fault, is_ok}
use osdp_reader_test_project.Desfire.State.{Host, Platform}
use osdp_reader_test_project.Text.{chars, isspace, skip_spaces, strtoul, atoi}
use osdp_reader_test_project.Text.Hex.{parse_hex_blob}
use osdp_reader_test_project.Settings.{Settings}
use osdp_reader_test_project.Osdp.{osdp_pd_save_config, osdp_pd_load_config}
use osdp_reader_test_project.Netconfig.{wifi_save_creds}
use osdp_reader_test_project.Leaf.{Nvs, leaf_set_site_key, leaf_get_site_key}
use osdp_reader_test_project.Leaf.Credential.{Cred, leaf_pack_credential, leaf_unpack_credential}
use osdp_reader_test_project.Reader.Types.{Mode, idle, read, write}
use osdp_reader_test_project.Reader.{Queues, Reader, mode_get, mode_set, mode_set_write_request}

-- What the commands act on: the mode controller, the key store with the world of the drivers,
-- and the settings in the NVS.
pub record Console (Q W V : Type 0) : Type 0 where
  pub reader : Reader Q
  pub host : Host W
  pub settings : V
  pub restarted : Bool

pub data Reply : Type 0 where
  mode_is : Mode → Reply
  mode_now : List ℕ → Reply
  mode_unknown : List ℕ → Reply
  enroll_usage : Reply
  enroll_queued : Cred → Reply
  osdp_usage : Reply
  osdp_status : ℕ × ℕ → Reply
  osdp_setup_usage : Reply
  osdp_invalid_address : Reply
  osdp_not_saved : Reply
  osdp_saved : Reply
  key_usage : Reply
  key_set_usage : Reply
  key_not_hex : Reply
  key_not_saved : Reply
  key_saved : List ℕ → Reply
  key_not_set : Reply
  key_print : List ℕ → Reply
  wifi_usage : Reply
  wifi_setup_usage : Reply
  wifi_not_saved : Reply
  wifi_saved : Reply
  unknown_sub : List ℕ → Reply
  self_test_mismatch : Reply
  self_test_passed : Reply
  rebooting : Reply
  printed : List ℕ → Reply
  unknown_command : List ℕ → Reply

pub null : List ℕ → Bool
null [] = true
null (_ ∷ _) = false

-- The text up to the next space, and from it on.
pub word : List ℕ → List ℕ
word [] = []
word (c ∷ cs) = if isspace c then [] else c ∷ word cs

pub after_word : List ℕ → List ℕ
after_word [] = []
after_word (c ∷ cs) = if isspace c then c ∷ cs else after_word cs

-- `argv`, with room for so many. The spaces after a word become its terminator when the next one
-- is looked for, so the last word that there is room for goes on to the end of the line.
pub split_args : ℕ → List ℕ → List (List ℕ)
split_args zero line = []
split_args (suc zero) line = let t = skip_spaces line in if null t then [] else t ∷ []
split_args (suc (suc n)) line =
    let t = skip_spaces line in
    let rest = split_args (suc n) (after_word t) in if null t then [] else word t ∷ rest

-- `argv[i]`, where `i < argc`.
pub arg : List (List ℕ) → ℕ → List ℕ
arg argv i = get_or argv i []

-- `!strcmp(argv[i], s)`.
abbrev pub is_arg : List (List ℕ) → ℕ → List ℕ → Bool
is_arg argv i s = mem_eq (arg argv i) s

-- The credential of the arguments; the casts keep 16 and 32 bits.
pub enroll_cred : List (List ℕ) → Cred
enroll_cred argv = record {
  facility = strtoul (arg argv 1) % 2 ^ 16;
  card_id = strtoul (arg argv 2) % 2 ^ 32;
  issue_date = if length argv == 4 then strtoul (arg argv 3) % 2 ^ 32 else 0;
}

module _ {Q W V : Type 0} (queues : Queues Q) (nvs : Nvs W) (store : Settings V) where
  abbrev pub Answered : Type 0
  Answered = Reply × Console Q W V

  abbrev pub in_mode : Mode → Console Q W V → Console Q W V
  in_mode m s = record s { reader = mode_set queues m s.reader }

  pub cmd_mode : List (List ℕ) → Console Q W V → Answered
  cmd_mode argv s =
      if ltb (length argv) 2
      then (mode_is (mode_get s.reader), s)
      else if is_arg argv 1 (chars "idle")
      then (mode_now (arg argv 1), in_mode idle s)
      else if is_arg argv 1 (chars "read")
      then (mode_now (arg argv 1), in_mode read s)
      else if is_arg argv 1 (chars "write")
      then (mode_now (arg argv 1), in_mode write s)
      else (mode_unknown (arg argv 1), s)

  pub cmd_enroll : List (List ℕ) → Console Q W V → Answered
  cmd_enroll argv s =
      let c = enroll_cred argv in
      if ltb (length argv) 3 || ltb 4 (length argv) then (enroll_usage, s) else (
        enroll_queued c,
        record s { reader = mode_set queues write (mode_set_write_request c s.reader) },
      )

  -- An `int` is negative from 2 ^ 31 on.
  pub osdp_setup : List (List ℕ) → Console Q W V → Answered
  osdp_setup argv s =
      let addr = atoi (arg argv 2) in
      let (r, v) = osdp_pd_save_config store addr (atoi (arg argv 3)) s.settings in
      if not (length argv == 4)
      then (osdp_setup_usage, s)
      else if leb (2 ^ 31) addr || ltb 126 addr
      then (osdp_invalid_address, s)
      else (if is_ok r then osdp_saved else osdp_not_saved, record s { settings = v })

  pub cmd_osdp : List (List ℕ) → Console Q W V → Answered
  cmd_osdp argv s =
      let (config, v) = osdp_pd_load_config store s.settings in
      if ltb (length argv) 2
      then (osdp_usage, s)
      else if is_arg argv 1 (chars "status")
      then (osdp_status config, record s { settings = v })
      else if is_arg argv 1 (chars "setup")
      then osdp_setup argv s
      else (unknown_sub (arg argv 1), s)

  pub key_set : List (List ℕ) → Console Q W V → Answered
  key_set argv s =
      if not (length argv == 3) then (key_set_usage, s) else elim (parse_hex_blob (arg argv 2) 16) [
        | none ↦ (key_not_hex, s)
        | some k ↦
            let (r, h) = leaf_set_site_key nvs k s.host in
            (if is_ok r then key_saved (take 4 k) else key_not_saved, record s { host = h })
      ]

  pub key_show : Console Q W V → Answered
  key_show s =
      let (r, h) = leaf_get_site_key nvs s.host in
      elim r [
        | ok k ↦ (key_print (take 4 k), record s { host = h })
        | err _ ↦ (key_not_set, record s { host = h })
        | fault ↦ (key_not_set, record s { host = h })
      ]

  pub cmd_key : List (List ℕ) → Console Q W V → Answered
  cmd_key argv s =
      if ltb (length argv) 2
      then (key_usage, s)
      else if is_arg argv 1 (chars "set")
      then key_set argv s
      else if is_arg argv 1 (chars "show")
      then key_show s
      else (unknown_sub (arg argv 1), s)

  pub cmd_wifi : List (List ℕ) → Console Q W V → Answered
  cmd_wifi argv s =
      let (r, v) = wifi_save_creds store (arg argv 2) (arg argv 3) s.settings in
      if ltb (length argv) 2
      then (wifi_usage, s)
      else if is_arg argv 1 (chars "setup")
      then (if not (length argv == 4)
          then (wifi_setup_usage, s)
          else (if is_ok r then wifi_saved else wifi_not_saved, record s { settings = v }))
      else if is_arg argv 1 (chars "status")
      then (printed (chars "wifi status"), s)
      else (unknown_sub (arg argv 1), s)

  pub cmd_nfc : List (List ℕ) → Console Q W V → Answered
  cmd_nfc argv s =
      if ltb (length argv) 2
      then (printed (chars "nfc: usage: nfc status"), s)
      else if is_arg argv 1 (chars "status")
      then (printed (chars "nfc status"), s)
      else (unknown_sub (arg argv 1), s)

  pub cmd_self_test : Console Q W V → Answered
  cmd_self_test s =
      let c1 : Cred = record { facility = 0x1234; card_id = 0x567890AB; issue_date = 0x11223344 } in
      let c2 = leaf_unpack_credential (leaf_pack_credential c1) in
      (
        if c1.facility == c2.facility
              && c1.card_id == c2.card_id
              && (c1.issue_date == c2.issue_date)
            then self_test_passed
            else self_test_mismatch,
        s,
      )

  -- `s_cmds`, looked up by `argv[0]`.
  pub run_command : List (List ℕ) → Console Q W V → Answered
  run_command argv s =
      if is_arg argv 0 (chars "help") || is_arg argv 0 (chars "?")
      then (printed (chars "help"), s)
      else if is_arg argv 0 (chars "status")
      then (printed (chars "status"), s)
      else if is_arg argv 0 (chars "self_test")
      then cmd_self_test s
      else if is_arg argv 0 (chars "mode")
      then cmd_mode argv s
      else if is_arg argv 0 (chars "enroll")
      then cmd_enroll argv s
      else if is_arg argv 0 (chars "key")
      then cmd_key argv s
      else if is_arg argv 0 (chars "osdp")
      then cmd_osdp argv s
      else if is_arg argv 0 (chars "nfc")
      then cmd_nfc argv s
      else if is_arg argv 0 (chars "wifi")
      then cmd_wifi argv s
      else if is_arg argv 0 (chars "reboot")
      then (rebooting, record s { restarted = true })
      else (unknown_command (arg argv 0), s)

  -- A line of spaces only has no reply.
  pub dispatch : List ℕ → Console Q W V → Option Reply × Console Q W V
  dispatch line s =
      let argv = split_args 8 line in
      let (r, s') = run_command argv s in if length argv == 0 then (none, s) else (some r, s')
