-- ===== src/Netconfig.antt =====
-- components/netconfig/netconfig.c: the credentials of the Wi-Fi network, and the events of the
-- station.
pub mod Retries
pub mod Start
mod Tests
use osdp_reader_test_project.Common.{
  ℕ, suc, ◌+◌, Bool, true, false, not, Option, none, some, List, [], ◌∷◌, length, ltb, ◌==◌,
  if◌then◌else◌,
}
use osdp_reader_test_project.Esp.{Outcome, ok, err, fault, esp_fail}
use osdp_reader_test_project.Io.{Io, ◌then_with◌}
use osdp_reader_test_project.Text.{chars}
use osdp_reader_test_project.Settings.{Settings}

module _ {W : Type 0} (nvs : Settings W) where
  pub wifi_save_creds : List ℕ → List ℕ → Io W (Unit {0})
  wifi_save_creds ssid pass = nvs.open_ns (chars "wifi") true then_with λ _.
      nvs.set_str (chars "wifi") (chars "ssid") ssid then_with λ _.
      nvs.set_str (chars "wifi") (chars "pass") pass then_with λ _. nvs.commit (chars "wifi")

  -- The texts, where both are there and the first is not empty.
  pub load_wifi_creds : ℕ → ℕ → W → Option (List ℕ × List ℕ) × W
  load_wifi_creds ssid_buf pass_buf w =
      let (r, w') =
        (nvs.open_ns (chars "wifi") false then_with λ _.
        nvs.get_str (chars "wifi") (chars "ssid") ssid_buf then_with λ ssid.
        nvs.get_str (chars "wifi") (chars "pass") pass_buf then_with λ pass w. (ok (ssid, pass), w))
          w in
      (
        elim r [
          | ok creds ↦ if length creds.0 == 0 then none else some creds
          | err _ ↦ none
          | fault ↦ none
        ],
        w',
      )

-- The globals of netconfig.c, the bits of its event group, and how often it has asked for a
-- connection.
pub record Station : Type 0 where
  pub sta_connected : Bool
  pub retry_count : ℕ
  pub bit_connected : Bool
  pub bit_failed : Bool
  pub connects : ℕ

abbrev pub max_retry : ℕ
max_retry = 5

-- The events that the two handlers tell apart.
pub data StationEvent : Type 0 where
  sta_start sta_disconnected sta_got_ip other_event : StationEvent

pub on_wifi_event : StationEvent → Station → Station
on_wifi_event sta_start s = record s { connects = s.connects + 1 }
on_wifi_event sta_disconnected s =
    if ltb s.retry_count max_retry
    then record s {
      sta_connected = false;
      retry_count = s.retry_count + 1;
      connects = s.connects + 1;
    }
    else record s { sta_connected = false; bit_failed = true }
on_wifi_event _ s = s

pub on_ip_event : StationEvent → Station → Station
on_ip_event sta_got_ip s = record s { retry_count = 0; sta_connected = true; bit_connected = true }
on_ip_event _ s = s

-- Both handlers are registered; each looks at the events of its own base.
pub on_event : StationEvent → Station → Station
on_event sta_got_ip s = on_ip_event sta_got_ip s
on_event e s = on_wifi_event e s

pub on_events : List StationEvent → Station → Station
on_events [] s = s
on_events (e ∷ es) s = on_events es (on_event e s)

-- The answer of `start_sta`, from the bits that it has waited for.
pub sta_started : Station → Outcome (Unit {0})
sta_started s = if s.bit_connected then ok tt else err esp_fail
