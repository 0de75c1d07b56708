-- ===== src/NfcTask.antt =====
-- main/nfc_task.c: the loop of `nfc_task`, one iteration at a time.
pub mod Presence
pub mod Outcomes
pub mod Life
pub mod Tests
use osdp_reader_test_project.Common.{
  ℕ, ◌+◌, Bool, true, false, not, ◌&&◌, Option, none, some, List, [], ◌∷◌, take, length, ltb, ◌==◌,
  if◌then◌else◌,
}
use osdp_reader_test_project.Esp.{Esp, Outcome, ok, err, fault, not_found}
use osdp_reader_test_project.Desfire.State.{Platform, Host}
use osdp_reader_test_project.Leaf.{Nvs, leaf_read, leaf_personalize}
use osdp_reader_test_project.Leaf.Credential.{Cred}
use osdp_reader_test_project.Reader.Types.{
  Mode, idle, read, write, Indicator, ind_grant, ind_deny, ind_wrote_ok, ind_error, Button,
  EventKind, evt_card_read_ok, evt_card_read_fail, evt_card_write_ok, evt_card_write_fail, Event,
}
use osdp_reader_test_project.Reader.{
  Queues, Reader, no_cred, board_indicate, mode_get, mode_post_event, mode_handle_button,
  mode_take_write_request,
}

-- The NFC front end behind nfc_hal.h: a poll for a target, with its UID, and the release.
pub record Front (W : Type 0) : Type 0 where
  pub find_target : ℕ → W → Outcome (List ℕ) × W
  pub release : W → W

-- The locals of `nfc_task` and the globals that it works on.
pub record Task (W Q : Type 0) : Type 0 where
  pub card_in_field : Bool
  pub empty_count : ℕ
  pub reader : Reader Q
  pub host : Host W

-- The credential that is written when nothing is queued.
abbrev pub dummy_cred : Cred
dummy_cred = record { facility = 0x0001; card_id = 0xCAFEBABE; issue_date = 0 }

abbrev pub card_event : EventKind → Mode → Cred → List ℕ → Event
card_event kind m cred uid = record {
  kind = kind;
  mode = m;
  cred = cred;
  uid = take 7 uid;
  uid_len = length uid;
}

pub cred_or_dummy : Option Cred → Cred
cred_or_dummy none = dummy_cred
cred_or_dummy (some c) = c

module _ {Q : Type 0} (queues : Queues Q) where
  -- The event and the pattern of a read, by how `leaf_read` ended.
  pub report_read : List ℕ → Outcome Cred → Reader Q → Outcome (Reader Q)
  report_read uid (ok cred) r = ok (
      board_indicate ind_grant
        (mode_post_event queues (card_event evt_card_read_ok read cred uid) r))
  report_read uid (err e) r = ok (
      board_indicate ind_deny
        (mode_post_event queues (card_event evt_card_read_fail read no_cred uid) r))
  report_read uid fault r = fault

  pub report_write : List ℕ → Cred → Outcome (List ℕ) → Reader Q → Outcome (Reader Q)
  report_write uid cred (ok _) r = ok (
      board_indicate ind_wrote_ok
        (mode_post_event queues (card_event evt_card_write_ok write cred uid) r))
  report_write uid cred (err e) r = ok (
      board_indicate ind_error
        (mode_post_event queues (card_event evt_card_write_fail write no_cred uid) r))
  report_write uid cred fault r = fault

module _ {W Q : Type 0} (front : Front W) where
  -- The end of the branch of a new card, with `nfc_release`.
  pub served : Outcome (Reader Q) → Host W → Outcome (Task W Q)
  served (ok r) h = ok (record {
    card_in_field = true;
    empty_count = 0;
    reader = r;
    host = record h { world = front.release h.world };
  })
  served (err e) h = err e
  served fault h = fault

module _ {W Q : Type 0} where
  -- `e == ESP_ERR_NOT_FOUND`.
  pub count_empty : Task W Q → Task W Q
  count_empty t =
      if t.card_in_field
      then record t {
        empty_count = t.empty_count + 1;
        card_in_field = not (ltb 3 (t.empty_count + 1));
      }
      else t

module _ {W Q : Type 0} (p : Platform W) (nvs : Nvs W) (queues : Queues Q) (front : Front W) where
  -- What is done with a card that has just come into the field, by the mode.
  pub serve_card : Mode → List ℕ → List ℕ → Reader Q → Host W → Outcome (Reader Q) × Host W
  serve_card idle junk uid r h = (ok r, h)
  serve_card read junk uid r h =
      let (e, h') = leaf_read p nvs uid h in (report_read queues uid e r, h')
  serve_card write junk uid r h =
      let (c, r') = mode_take_write_request r in
      let (e, h') = leaf_personalize p nvs junk uid (cred_or_dummy c) h in
      (report_write queues uid (cred_or_dummy c) e r', h')

  -- What the iteration does with the result of the poll.
  pub after_poll : List ℕ → Outcome (List ℕ) → Task W Q → Outcome (Task W Q)
  after_poll junk (ok uid) t =
      if not t.card_in_field
      then (let (r, h) = serve_card (mode_get t.reader) junk uid t.reader t.host in
          served front r h)
      else ok t
  after_poll junk (err not_found) t = ok (count_empty t)
  after_poll junk (err _) t = ok t
  after_poll junk fault t = fault

  -- One iteration: the button, the poll with a buffer of 10 bytes, and its result. A factory reset
  -- does not return.
  pub nfc_iteration : Button → List ℕ → Task W Q → Outcome (Task W Q)
  nfc_iteration b junk t =
      let r = mode_handle_button queues b t.reader in
      let (found, w) = front.find_target 10 t.host.world in
      let h = t.host in
      if r.restarted
      then ok (record t { reader = r })
      else after_poll junk found (record t { reader = r; host = record h { world = w } })
