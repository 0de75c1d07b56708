-- ===== src/NfcTask/Tests.antt =====
-- The theorems on main/nfc_task.c at concrete data.
use osdp_reader_test_project.Common.{ℕ, ◌≡◌, refl, true, false, List, [], ◌∷◌, arith}
use osdp_reader_test_project.Esp.{ok}
use osdp_reader_test_project.Desfire.State.{◌>>=◌}
use osdp_reader_test_project.Leaf.{leaf_read, leaf_get_site_key, or_return}
use osdp_reader_test_project.Reader.Types.{read, ind_deny, evt_card_read_fail, Event}
use osdp_reader_test_project.Reader.{no_cred, post_all, mode_post_event, mode_get}
use osdp_reader_test_project.NfcTask.{Task, card_event, report_read, served, serve_card, after_poll}
use osdp_reader_test_project.NfcTask.Presence.{
  seen, missed, failed, misses, run_polls, served_once, misses_add_up,
}
use osdp_reader_test_project.NfcTask.Outcomes.{Denied, read_mode_denies}
use osdp_reader_test_project.NfcTask.Life.{Round, pressed_all, nfc_task, nfc_task-dead}
use osdp_reader_test_project.Reader.Types.{btn_none, btn_long, btn_short}
use osdp_reader_test_project.Reader.{Reader}
use osdp_reader_test_project.Esp.{err, timeout}
use osdp_reader_test_project.Samples.{platform, nvs, queues, front, task, cred}

abbrev uid : List ℕ
uid = 4 ∷ 5 ∷ 6 ∷ 7 ∷ []

served_once_example :
    run_polls platform nvs queues front []
      (missed ∷ seen uid ∷ failed ∷ missed ∷ [])
      (task true read)
    ≡ ok (let t = task true read in record t { empty_count = 2 })
unfolding misses
served_once_example =
    served_once platform nvs queues front [] (missed ∷ seen uid ∷ failed ∷ missed ∷ [])
      (task true read) refl (omega arith)

misses_add_up_example :
    run_polls platform nvs queues front []
      (missed ∷ seen uid ∷ missed ∷ missed ∷ missed ∷ seen uid ∷ [])
      (task true read)
    ≡ after_poll platform nvs queues front []
        (ok uid)
        (let t = task true read in record t { card_in_field = false; empty_count = 4 })
unfolding misses
misses_add_up_example =
    misses_add_up platform nvs queues front [] (missed ∷ seen uid ∷ missed ∷ missed ∷ []) uid
      (task true read) refl refl

abbrev denied : Task ℕ (List Event)
denied =
    let t = task false read in
    let r = t.reader in
    record t {
      card_in_field = true;
      reader = record r {
        indicator = ind_deny;
        subs = post_all queues (card_event evt_card_read_fail read no_cred uid) r.subs;
      };
    }

read_mode_denies_example :
    Denied platform nvs queues front uid (task false read).reader denied.reader
unfolding after_poll serve_card served report_read mode_get mode_post_event leaf_read
    leaf_get_site_key or_return ◌>>=◌
read_mode_denies_example =
    read_mode_denies platform nvs queues front [] uid (task false read) {t' = denied} refl refl refl

abbrev rounds : List Round
rounds = (btn_none, []) ∷ (btn_long, []) ∷ (btn_none, []) ∷ (btn_short, []) ∷ []

nfc_task-dead_example :
    (r : Reader (List Event)) × (nfc_task platform nvs queues front
        (λ w. (err timeout, 9))
        rounds
        (task false read)
      ≡ ok (
          let t = task false read in
          record t { reader = r; host = let h = t.host in record h { world = 9 } }))
    × (r.mode ≡ pressed_all rounds read)
    × (r.write_pending ≡ true)
    × (r.write_cred ≡ cred)
nfc_task-dead_example =
    nfc_task-dead platform nvs queues front (λ w. (err timeout, 9)) rounds (task false read) timeout
      9 refl refl
