-- ===== src/Netconfig/Start/Saved.antt =====
-- components/netconfig/netconfig.c: from the credentials that are saved to the network joined.
use osdp_reader_test_project.Common.{
  ℕ, ◌≤◌, ◌<◌, ◌≡◌, refl, ap, sym, ◌∙◌, Bool, true, false, Option, none, some, List, ◌++◌, length,
  ◌==◌, mem_eq, if◌then◌else◌, arith,
}
use mathlib.Core.Path.{subst}
use osdp_reader_test_project.Esp.{Outcome, ok, err, fault}
use osdp_reader_test_project.Io.{then_ok}
use osdp_reader_test_project.Text.{chars}
use osdp_reader_test_project.Settings.{Settings}
use osdp_reader_test_project.Netconfig.{wifi_save_creds, load_wifi_creds}
use osdp_reader_test_project.Netconfig.Start.{RadioCall, Radio, Wlan, join_or_serve, netconfig_init}
use osdp_reader_test_project.Netconfig.Start.Joins.{IsRadio, sta_calls, Settled, join_or_serve_lem}

-- What the documentation says of texts in an NVS that has room: what is set is got, if it fits the
-- buffer with its end, until it is set again.
pub record KeepsTexts {V : Type 0} (nvs : Settings V)
    (stored : V → List ℕ → List ℕ → Option (List ℕ)) : Type 0 where
  pub opens :
      (ns : List ℕ) (rw : Bool) (v : V)
      → (v' : V) × (nvs.open_ns ns rw v ≡ (ok tt, v')) × (stored v' ≡ stored v)
  pub commits :
      (ns : List ℕ) (v : V) → (v' : V) × (nvs.commit ns v ≡ (ok tt, v')) × (stored v' ≡ stored v)
  pub sets :
      (ns key text : List ℕ) (v : V)
      → (v' : V) × (nvs.set_str ns key text v ≡ (ok tt, v'))
        × (stored v' ns key ≡ some text)
        × ((other : List ℕ) → mem_eq other key ≡ false → stored v' ns other ≡ stored v ns other)
  pub gets :
      (ns key text : List ℕ) (room : ℕ) (v : V)
      → stored v ns key ≡ some text
      → length text < room
      → (v' : V) × (nvs.get_str ns key room v ≡ (ok text, v')) × (stored v' ≡ stored v)

module _ {V : Type 0} {nvs : Settings V} {stored : V → List ℕ → List ℕ → Option (List ℕ)}
    (keeps : KeepsTexts nvs stored) where
  abbrev wifi : List ℕ
  wifi = chars "wifi"

  saved :
      (ssid pass : List ℕ) (v : V)
      → (v' : V) × (wifi_save_creds nvs ssid pass v ≡ (ok tt, v'))
        × (stored v' wifi (chars "ssid") ≡ some ssid)
        × (stored v' wifi (chars "pass") ≡ some pass)
  unfolding wifi_save_creds mem_eq
  saved ssid pass v =
      let (v₁, opened, _) = keeps.opens wifi true v in
      let (v₂, set₁, is_ssid, _) = keeps.sets wifi (chars "ssid") ssid v₁ in
      let (v₃, set₂, is_pass, others) = keeps.sets wifi (chars "pass") pass v₂ in
      let (v₄, done, same₄) = keeps.commits wifi v₃ in
      (
        v₄,
        then_ok (nvs.open_ns wifi true) _ v v₁ tt opened
            ∙ then_ok (nvs.set_str wifi (chars "ssid") ssid) _ v₁ v₂ tt set₁
            ∙ then_ok (nvs.set_str wifi (chars "pass") pass) _ v₂ v₃ tt set₂
            ∙ done,
        ap (λ f. f wifi (chars "ssid")) same₄ ∙ others (chars "ssid") refl ∙ is_ssid,
        ap (λ f. f wifi (chars "pass")) same₄ ∙ is_pass,
      )

  loaded :
      (ssid pass : List ℕ) (v : V)
      → stored v wifi (chars "ssid") ≡ some ssid
      → stored v wifi (chars "pass") ≡ some pass
      → 0 < length ssid
      → length ssid ≤ 32
      → length pass ≤ 64
      → (load_wifi_creds nvs 33 65 v).0 ≡ some (ssid, pass)
  unfolding load_wifi_creds
  loaded ssid pass v is_ssid is_pass there short₁ short₂ =
      let (v₁, opened, same₁) = keeps.opens wifi false v in
      let (v₂, got₁, same₂) =
        keeps.gets wifi (chars "ssid") ssid 33 v₁ (ap (λ f. f wifi (chars "ssid")) same₁ ∙ is_ssid)
          (omega arith) in
      let (v₃, got₂, _) =
        keeps.gets wifi (chars "pass") pass 65 v₂
          (ap (λ f. f wifi (chars "pass")) (same₂ ∙ same₁) ∙ is_pass) (omega arith) in
      let full : length ssid == 0 ≡ false = ground arith in
      ap usable (
        then_ok (nvs.open_ns wifi false) _ v v₁ tt opened
        ∙ then_ok (nvs.get_str wifi (chars "ssid") 33) _ v₁ v₂ ssid got₁
        ∙ then_ok (nvs.get_str wifi (chars "pass") 65) _ v₂ v₃ pass got₂)
      ∙ rw full refl
    where
      usable : Outcome (List ℕ × List ℕ) × V → Option (List ℕ × List ℕ)
      usable x = elim x.0 as (λ _. Option (List ℕ × List ℕ)) [
        | ok creds ↦ if length creds.0 == 0 then none else some creds
        | err _ ↦ none
        | fault ↦ none
      ]

  module _ {W : Type 0} {radio : Radio W} {told : W → List RadioCall} {mac : List ℕ}
      (laws : IsRadio radio told mac) where
    -- Over an NVS that has room and a radio that accepts its calls: after credentials are saved, a
    -- start tells the station to join their network, with 31 bytes of the SSID and 63 of the
    -- password at most; if it has connected when the wait is over, nothing more is told, and if
    -- not, the station is stopped, the access point is started and `s_ap_mode` is set.
    pub netconfig_init-saved :
        (ssid pass : List ℕ) (v : V) (n : Wlan W)
        → 0 < length ssid
        → length ssid ≤ 32
        → length pass ≤ 64
        → let started = netconfig_init radio nvs ((wifi_save_creds nvs ssid pass v).1, n) in
          (w : W) × (told w ≡ told n.world ++ sta_calls laws ssid pass)
          × Settled laws n w (radio.wait_bits w).0 (started.0, started.1.1)
    unfolding netconfig_init
    netconfig_init-saved ssid pass v n there short₁ short₂ =
        let (v', done, is_ssid, is_pass) = saved ssid pass v in
        let creds = loaded ssid pass v' is_ssid is_pass there short₁ short₂ in
        let (w, heard, settled) = join_or_serve_lem laws ssid pass n in
        let found : (load_wifi_creds nvs 33 65 (wifi_save_creds nvs ssid pass v).1).0
            ≡ some (ssid, pass) =
          ap (λ r. (load_wifi_creds nvs 33 65 r.1).0) done ∙ creds in
        (
          w,
          heard,
          subst (λ c. Settled laws n w (radio.wait_bits w).0 (join_or_serve radio c n)) (sym found)
              settled,
        )
