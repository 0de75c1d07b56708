-- ===== src/Console/Tests.antt =====
-- The theorems on components/app_console at concrete data.
use osdp_reader_test_project.Common.{
  ◌++◌, ℕ, ◌≡◌, refl, arith, some, List, [], ◌∷◌, take, if◌then◌else◌,
}
use osdp_reader_test_project.Leaf.Credential.{IsCred}
use osdp_reader_test_project.Reader.Types.{write}
use osdp_reader_test_project.Reader.{mode_get, mode_take_write_request}
use osdp_reader_test_project.Common.Bytes.{IsBytes}
use osdp_reader_test_project.Esp.{is_ok}
use osdp_reader_test_project.Leaf.{leaf_set_site_key}
use osdp_reader_test_project.Console.Keys.{key_words, dispatch-key_set}
use osdp_reader_test_project.Console.{key_saved, key_not_saved, enroll_queued, dispatch}
use osdp_reader_test_project.Console.Tokens.{join}
use osdp_reader_test_project.Console.Enroll.{enroll_words}
use osdp_reader_test_project.Console.Lines.{console_round}
use osdp_reader_test_project.Console.Lines.Typed.{console_round-armed}
use osdp_reader_test_project.Samples.{queues, nvs, settings, console, cred}

cred-IsCred : IsCred cred
cred-IsCred = record {
  facility_fits = omega arith;
  card_id_fits = omega arith;
  issue_date_fits = omega arith;
}

console_round-armed_example :
    let (reply, s') =
      console_round queues nvs settings
        (some (join (enroll_words cred) ++ (13 ∷ 10 ∷ [])))
        console in
    (reply ≡ some (enroll_queued cred))
    × (mode_get s'.reader ≡ write)
    × ((mode_take_write_request s'.reader).0 ≡ some cred)
console_round-armed_example =
    console_round-armed queues nvs settings cred (13 ∷ 10 ∷ []) console cred-IsCred
      (refl, (refl, tt))

abbrev site_key : List ℕ
site_key =
    0x00 ∷ 0x11 ∷ 0x22 ∷ 0x33 ∷ 0x44 ∷ 0x55 ∷ 0x66 ∷ 0x77 ∷ 0x88 ∷ 0x99 ∷ 0xAA ∷ 0xBB ∷ 0xCC ∷ 0xDD
    ∷ 0xEE ∷ 0xFF ∷ []

site_key-IsBytes : IsBytes site_key
site_key-IsBytes = (
  omega arith,
  (
    omega arith,
    (
      omega arith,
      (
        omega arith,
        (
          omega arith,
          (
            omega arith,
            (
              omega arith,
              (
                omega arith,
                (
                  omega arith,
                  (
                    omega arith,
                    (
                      omega arith,
                      (omega arith, (omega arith, (omega arith, (omega arith, (omega arith, tt))))),
                    ),
                  ),
                ),
              ),
            ),
          ),
        ),
      ),
    ),
  ),
)

dispatch-key_set_example :
    let (r, h) = leaf_set_site_key nvs site_key console.host in
    dispatch queues nvs settings (join (key_words site_key)) console ≡ (
      some (if is_ok r then key_saved (take 4 site_key) else key_not_saved),
      record console { host = h },
    )
dispatch-key_set_example =
    dispatch-key_set queues nvs settings site_key console refl site_key-IsBytes
