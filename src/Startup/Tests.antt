-- ===== src/Startup/Tests.antt =====
-- The theorems on main/app_main.c at concrete data.
use osdp_reader_test_project.Common.{
  ℕ, ◌+◌, ◌++◌, ◌≡◌, refl, ap, Bool, true, false, Option, none, some, List, [], length, ltb,
  if◌then◌else◌,
}
use mathlib.Core.Path.{subst}
use osdp_reader_test_project.Esp.{Outcome, ok, err, esp_fail, nvs_not_found}
use osdp_reader_test_project.Leaf.{Nvs, leaf_get_site_key}
use osdp_reader_test_project.Leaf.KeyStore.{KeepsKey}
use osdp_reader_test_project.Reader.Types.{read, idle, Event}
use osdp_reader_test_project.Netconfig.Start.{Checked, returned}
use osdp_reader_test_project.Samples.{session, key, queues, reader}
use osdp_reader_test_project.Startup.{
  FlashCode, flash_ok, no_free_pages, flash_failed, Flash, Rtos, Boot, app_main,
}
use osdp_reader_test_project.Startup.SiteKey.{found_or_dev}
use osdp_reader_test_project.Startup.Main.{IsFlash, all_tasks, web_up, left, app_main-keyed}

-- A flash that may be full, with the blob of the key.
abbrev Store : Type 0
Store = Bool × Option (List ℕ)

abbrev read_open : Option (List ℕ) → Outcome (Unit {0})
read_open none = err nvs_not_found
read_open (some k) = ok tt

abbrev blob : ℕ → Option (List ℕ) → Outcome (List ℕ)
blob room none = err nvs_not_found
blob room (some k) = if ltb room (length k) then err nvs_not_found else ok k

abbrev store : Nvs Store
store = record {
  open_store = λ rw w. (if rw then ok tt else read_open w.1, w);
  set_blob = λ k w. (ok tt, (w.0, some k));
  get_blob = λ room w. (blob room w.1, w);
  commit = λ w. (ok tt, w);
}

store-KeepsKey : KeepsKey store (λ w. w.1)
store-KeepsKey = record {
  opens = λ w. (w, refl, refl);
  reads = λ w k e. (w, ap (λ o. (read_open o, w)) e, e);
  lacks = λ w e. (w, ap (λ o. (read_open o, w)) e, e);
  sets = λ k w. ((w.0, some k), refl, refl);
  gets = λ room w k e. (w, ap (λ o. (blob room o, w)) e, e);
  commits = λ w. (w, refl, refl);
}

abbrev flash : Flash Store
flash = record {
  init = λ w. (if w.0 then no_free_pages else flash_ok, w);
  erase = λ w. (true, (false, none));
}

flash-IsFlash : IsFlash flash (λ w. w.1)
flash-IsFlash = record { keeps_stored = λ w. refl; erases = λ w. (refl, refl); inits = λ w. refl }

abbrev no_network : ℕ → Checked (Outcome (Unit {0})) × ℕ
no_network n = (returned (err esp_fail), n)

-- The tasks are counted; the HTTP server does not start.
abbrev rtos : Rtos ℕ
rtos = record { create = λ t n. (true, n + 1); httpd_start = λ n. (false, n) }

-- The flash is full, and the key in it is lost.
abbrev before : Boot (List Event) Store ℕ
before = record {
  host = record {
    session = session false;
    mac_key = key;
    last_status = 0;
    world = (true, some key);
  };
  reader = reader read;
  network = 0;
  tasks = [];
}

abbrev started : Checked (Unit {0}) × Boot (List Event) Store ℕ
started = app_main queues flash store no_network rtos before

abbrev IsFull : FlashCode → Type 0
IsFull flash_failed = ⊥
IsFull _ = Unit

not_failed : no_free_pages ≡ flash_failed → ⊥
not_failed e = subst IsFull e tt

app_main-keyed_example :
    (started.0 ≡ returned tt)
    × (started.1.tasks ≡ [] ++ all_tasks (web_up rtos 0))
    × (started.1.reader.mode ≡ idle)
    × ((leaf_get_site_key store started.1.host).0
        ≡ ok (found_or_dev (left flash-IsFlash (true, some key))))
app_main-keyed_example =
    app_main-keyed flash-IsFlash queues store-KeepsKey no_network rtos (λ t n. refl) before
      (err esp_fail) 0 not_failed refl
