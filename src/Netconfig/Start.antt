-- ===== src/Netconfig/Start.antt =====
-- components/netconfig/netconfig.c: bringing up the station or the access point.
pub mod Joins
pub mod Saved
use osdp_reader_test_project.Common.{
  ℕ, ◌-◌, Bool, true, false, Option, none, some, List, [], ◌∷◌, ◌++◌, take, slice, if◌then◌else◌,
}
use osdp_reader_test_project.Esp.{Outcome, ok, err, fault, esp_fail}
use osdp_reader_test_project.Text.{chars, print_hex}
use osdp_reader_test_project.Settings.{Settings}
use osdp_reader_test_project.Netconfig.{load_wifi_creds}

-- The calls of ESP-IDF that configure and start the radio and mDNS, with what they are given.
pub data RadioCall : Type 0 where
  set_mode_sta set_mode_ap start stop mdns : RadioCall
  config_sta : (ssid pass : List ℕ) → RadioCall
  config_ap : (ssid : List ℕ) → RadioCall

-- The radio: a call, which may be refused; the wait for the event bits, which says whether the
-- station has connected; and the bytes of the MAC.
pub record Radio (W : Type 0) : Type 0 where
  pub call : RadioCall → W → Bool × W
  pub wait_bits : W → Bool × W
  pub read_mac : W → List ℕ

-- A body that ESP_ERROR_CHECK ends with an abort, or that returns.
pub data Checked (A : Type 0) : Type 0 where
  returned : A → Checked A
  aborted : Checked A

-- `strncpy(dst, src, sizeof(dst) - 1)` into zeroed bytes.
abbrev pub strncpy_less : ℕ → List ℕ → List ℕ
strncpy_less size src = take (size - 1) src

-- The SSID of the access point, of the last three bytes of the MAC.
pub ap_ssid : List ℕ → List ℕ
ap_ssid mac = chars "leaf-reader-" ++ print_hex (slice 3 3 mac)

-- The radio, and the global `s_ap_mode`.
pub record Wlan (W : Type 0) : Type 0 where
  pub world : W
  pub ap_mode : Bool

abbrev pub Setup : Type 0 → Type 0 → Type 0
Setup W A = Wlan W → Checked A × Wlan W

infixl 5 ◌checked_then◌
pub ◌checked_then◌ : {W A B : Type 0} → Setup W A → (A → Setup W B) → Setup W B
◌checked_then◌ m f n = let (r, n') = m n in elim r [ returned a ↦ f a n' | aborted ↦ (aborted, n') ]

module _ {W : Type 0} (radio : Radio W) where
  -- A call whose status is dropped, and one under ESP_ERROR_CHECK.
  pub dropped : RadioCall → Setup W (Unit {0})
  dropped c n = let (_, w) = radio.call c n.world in (returned tt, record n { world = w })

  pub must : RadioCall → Setup W (Unit {0})
  must c n =
      let (good, w) = radio.call c n.world in
      (if good then returned tt else aborted, record n { world = w })

  pub start_sta : List ℕ → List ℕ → Setup W (Outcome (Unit {0}))
  start_sta ssid pass = must set_mode_sta checked_then λ _.
      must (config_sta (strncpy_less 32 ssid) (strncpy_less 64 pass)) checked_then λ _.
      must start checked_then λ _ n.
      let (connected, w) = radio.wait_bits n.world in
      (returned (if connected then ok tt else err esp_fail), record n { world = w })

  pub start_ap : Setup W (Outcome (Unit {0}))
  start_ap n =
      (must set_mode_ap checked_then λ _.
      must (config_ap (ap_ssid (radio.read_mac n.world))) checked_then λ _.
      must start checked_then λ _.
      dropped mdns checked_then λ _ n'. (returned (ok tt), record n' { ap_mode = true }))
        n

  -- The part of `netconfig_init` after the set-up of ESP-IDF: the station, and the access point
  -- where it fails or there are no credentials.
  pub or_serve : Outcome (Unit {0}) → Setup W (Outcome (Unit {0}))
  or_serve (ok _) n = (returned (ok tt), n)
  or_serve _ n = (dropped stop checked_then λ _. start_ap) n

  pub join_or_serve : Option (List ℕ × List ℕ) → Setup W (Outcome (Unit {0}))
  join_or_serve none = start_ap
  join_or_serve (some (ssid, pass)) = start_sta ssid pass checked_then or_serve

  module _ {V : Type 0} (nvs : Settings V) where
    pub netconfig_init : V × Wlan W → Checked (Outcome (Unit {0})) × (V × Wlan W)
    netconfig_init (v, n) =
        let (creds, v') = load_wifi_creds nvs 33 65 v in
        let (r, n') = join_or_serve creds n in (r, (v', n'))
