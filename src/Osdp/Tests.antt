-- ===== src/Osdp/Tests.antt =====
-- The theorems on main/osdp_pd.c at concrete data.
use osdp_reader_test_project.Common.{
  ℕ, refl, ap, Option, none, some, List, false, ◌&&◌, mem_eq, mem_eq_refl, if◌then◌else◌, ◌≡◌,
  arith, [], ◌∷◌, ◌++◌, map, true, Bool, length, ltb, take,
}
use osdp_reader_test_project.Leaf.Credential.{IsCred}
use osdp_reader_test_project.Reader.Types.{read, evt_card_read_ok, evt_card_read_fail, Event}
use osdp_reader_test_project.Esp.{Outcome, ok, err, nvs_not_found}
use osdp_reader_test_project.Settings.{Settings}
use osdp_reader_test_project.Osdp.{CardRead, drain_queue, osdp_pd_save_config, osdp_pd_load_config}
use osdp_reader_test_project.Osdp.Config.{KeepsNumbers, osdp_pd_load_config-saved}
use osdp_reader_test_project.Osdp.Reports.{IsPool, decode, cards_read, drain_queue-decoded}
use osdp_reader_test_project.Samples.{cred}

cred-IsCred : IsCred cred
cred-IsCred = record {
  facility_fits = omega arith;
  card_id_fits = omega arith;
  issue_date_fits = omega arith;
}

abbrev read_ok : Event
read_ok = record { kind = evt_card_read_ok; mode = read; cred = cred; uid = []; uid_len = 0 }

abbrev read_fail : Event
read_fail = record { kind = evt_card_read_fail; mode = read; cred = cred; uid = []; uid_len = 0 }

-- A pool with room for two events.
abbrev offer : Bool → CardRead → List CardRead → Bool × List CardRead
offer true r pool = (true, pool ++ (r ∷ []))
offer false r pool = (false, pool)

abbrev submit : CardRead → List CardRead → Bool × List CardRead
submit r pool = offer (ltb (length pool) 2) r pool

submit-IsPool : IsPool submit (λ pool. pool) 2
submit-IsPool = record {
  takes = λ r pool l.
      let e : ltb (length pool) 2 ≡ true = ground (arith, l) in
      (ap (λ b. (offer b r pool).0) e, ap (λ b. (offer b r pool).1) e);
  refuses = λ r pool l.
      let e : ltb (length pool) 2 ≡ false = ground (arith, l) in
      (ap (λ b. (offer b r pool).0) e, ap (λ b. (offer b r pool).1) e);
}

abbrev three_cards : List Event
three_cards = read_ok ∷ read_fail ∷ read_ok ∷ read_ok ∷ []

drain_queue-decoded_example :
    map decode (drain_queue submit three_cards []) ≡ [] ++ take 2 (cards_read three_cards)
drain_queue-decoded_example =
    drain_queue-decoded submit-IsPool three_cards []
      (cred-IsCred, (cred-IsCred, (cred-IsCred, (cred-IsCred, tt))))

-- A store that is the function from its keys to their numbers.
abbrev Numbers : Type 0
Numbers = List ℕ → List ℕ → Option ℕ

abbrev put : List ℕ → List ℕ → ℕ → Numbers → Numbers
put ns key v w n k = if mem_eq n ns && mem_eq k key then some v else w n k

abbrev number : Option ℕ → Outcome ℕ
number none = err nvs_not_found
number (some v) = ok v

abbrev numbers : Settings Numbers
numbers = record {
  open_ns = λ ns rw w. (ok tt, w);
  set_i32 = λ ns key v w. (ok tt, put ns key v w);
  get_i32 = λ ns key w. (number (w ns key), w);
  set_str = λ ns key v w. (ok tt, w);
  get_str = λ ns key cap w. (err nvs_not_found, w);
  commit = λ ns w. (ok tt, w);
}

put_same : (ns key : List ℕ) (v : ℕ) (w : Numbers) → put ns key v w ns key ≡ some v
put_same ns key v w = rw (mem_eq_refl ns, mem_eq_refl key) refl

put_other :
    (ns key other : List ℕ) (v : ℕ) (w : Numbers)
    → mem_eq other key ≡ false
    → put ns key v w ns other ≡ w ns other
put_other ns key other v w e = rw (mem_eq_refl ns, e) refl

numbers-KeepsNumbers : KeepsNumbers numbers (λ w. w)
numbers-KeepsNumbers = record {
  opens = λ ns rw w. (w, refl, refl);
  commits = λ ns w. (w, refl, refl);
  sets = λ ns key v w.
      (put ns key v w, refl, put_same ns key v w, λ other e. put_other ns key other v w e);
  gets = λ ns key v w e. (w, ap (λ o. (number o, w)) e, refl);
}

osdp_pd_load_config-saved_example :
    ((osdp_pd_save_config numbers 0x21 115200 (λ ns key. none)).0 ≡ ok tt)
    × ((osdp_pd_load_config numbers (osdp_pd_save_config numbers 0x21 115200 (λ ns key. none)).1).0
        ≡ (0x21, 115200))
osdp_pd_load_config-saved_example =
    osdp_pd_load_config-saved numbers numbers-KeepsNumbers 0x21 115200 (λ ns key. none)
