-- ===== src/Netconfig/Tests.antt =====
-- The theorems on components/netconfig at concrete data.
use osdp_reader_test_project.Netconfig.{wifi_save_creds}
use osdp_reader_test_project.Settings.{Settings}
use osdp_reader_test_project.Esp.{Outcome, ok, err, invalid_size, nvs_not_found}
use osdp_reader_test_project.Text.{chars}
use osdp_reader_test_project.Netconfig.Start.{RadioCall, Radio, Checked, Wlan, netconfig_init}
use osdp_reader_test_project.Netconfig.Start.Joins.{IsRadio, sta_calls, Settled}
use osdp_reader_test_project.Netconfig.Start.Saved.{KeepsTexts, netconfig_init-saved}
use osdp_reader_test_project.Common.{
  ◌≡◌, refl, ap, ◌∙◌, ℕ, true, Option, none, some, ◌++◌, length, ltb, mem_eq, mem_eq_refl, ◌&&◌,
  if◌then◌else◌, ◌<◌, ◌+◌, ◌*◌, ◌-◌, ◌≤◌, false, List, [], ◌∷◌, arith,
}
use osdp_reader_test_project.Netconfig.{
  Station, StationEvent, sta_start, sta_disconnected, sta_got_ip, on_events,
}
use osdp_reader_test_project.Netconfig.Retries.{addresses, starts, connects-bounded}

abbrev station : Station
station = record {
  sta_connected = false;
  retry_count = 0;
  bit_connected = false;
  bit_failed = false;
  connects = 0;
}

abbrev events : List StationEvent
events = sta_start ∷ sta_disconnected ∷ sta_got_ip ∷ sta_disconnected ∷ []

connects-bounded_example :
    ((on_events events station).connects ≤ 0 + starts events + 5 * addresses events + (5 - 0))
    × ((on_events events station).retry_count ≤ 5)
connects-bounded_example = connects-bounded events station (omega arith)

-- An NVS that is the function from its keys to their texts.
abbrev Texts : Type 0
Texts = List ℕ → List ℕ → Option (List ℕ)

abbrev put : List ℕ → List ℕ → List ℕ → Texts → Texts
put ns key text v n k = if mem_eq n ns && mem_eq k key then some text else v n k

abbrev fitted : ℕ → Option (List ℕ) → Outcome (List ℕ)
fitted room none = err nvs_not_found
fitted room (some text) = if ltb (length text) room then ok text else err invalid_size

abbrev texts : Settings Texts
texts = record {
  open_ns = λ ns rw v. (ok tt, v);
  set_i32 = λ ns key x v. (ok tt, v);
  get_i32 = λ ns key v. (err nvs_not_found, v);
  set_str = λ ns key text v. (ok tt, put ns key text v);
  get_str = λ ns key room v. (fitted room (v ns key), v);
  commit = λ ns v. (ok tt, v);
}

fitted_there : (room : ℕ) (text : List ℕ) → length text < room → fitted room (some text) ≡ ok text
fitted_there room text fits =
    let e : ltb (length text) room ≡ true = ground (arith, fits) in rw e refl

texts-KeepsTexts : KeepsTexts texts (λ v. v)
texts-KeepsTexts = record {
  opens = λ ns rw v. (v, refl, refl);
  commits = λ ns v. (v, refl, refl);
  sets = λ ns key text v. (
    put ns key text v,
    refl,
    rw (mem_eq_refl ns, mem_eq_refl key) refl,
    λ other e. rw (mem_eq_refl ns, e) refl,
  );
  gets = λ ns key text room v e fits.
      (v, ap (λ o. (fitted room o, v)) e ∙ ap (λ r. (r, v)) (fitted_there room text fits), refl);
}

-- A radio that writes its calls down, accepts them, and does not connect.
abbrev radio : Radio (List RadioCall)
radio = record {
  call = λ c w. (true, w ++ (c ∷ []));
  wait_bits = λ w. (false, w);
  read_mac = λ w. 1 ∷ 2 ∷ 3 ∷ 4 ∷ 5 ∷ 6 ∷ [];
}

radio-IsRadio : IsRadio radio (λ w. w) (1 ∷ 2 ∷ 3 ∷ 4 ∷ 5 ∷ 6 ∷ [])
radio-IsRadio = record {
  accepts = λ c w. refl;
  tells = λ c w. refl;
  waits = λ w. refl;
  reads = λ w. refl;
}

abbrev off : Wlan (List RadioCall)
off = record { world = []; ap_mode = false }

abbrev booted : Checked (Outcome (Unit {0})) × (Texts × Wlan (List RadioCall))
booted =
    netconfig_init radio texts
      ((wifi_save_creds texts (chars "home") (chars "secret") (λ ns key. none)).1, off)

netconfig_init-saved_example :
    (w : List RadioCall) × (w ≡ sta_calls radio-IsRadio (chars "home") (chars "secret"))
    × Settled radio-IsRadio off w (radio.wait_bits w).0 (booted.0, booted.1.1)
netconfig_init-saved_example =
    netconfig_init-saved texts-KeepsTexts radio-IsRadio (chars "home") (chars "secret")
      (λ ns key. none) off (omega arith) (omega arith) (omega arith)
