-- ===== src/Netconfig/Start/Joins.antt =====
-- components/netconfig/netconfig.c: which network the reader joins, or serves, after a start.
use osdp_reader_test_project.Common.{
  ℕ, ◌≡◌, refl, ap, sym, ◌∙◌, Bool, true, false, some, List, [], ◌∷◌, ◌++◌, append_assoc,
  append-nil, take, if◌then◌else◌,
}
use mathlib.Core.Path.{subst}
use osdp_reader_test_project.Esp.{Outcome, ok, err, esp_fail}
use osdp_reader_test_project.Netconfig.Start.{
  or_serve, RadioCall, set_mode_sta, set_mode_ap, start, stop, mdns, config_sta, config_ap, Radio,
  Checked, returned, aborted, Wlan, Setup, ◌checked_then◌, must, dropped, ap_ssid, start_sta,
  start_ap, join_or_serve,
}

-- What the driver relies on of the radio, where `told` is the calls that it has had: it accepts
-- each, and waiting is no call.
pub record IsRadio {W : Type 0} (radio : Radio W) (told : W → List RadioCall) (mac : List ℕ)
    : Type 0 where
  pub accepts : (c : RadioCall) (w : W) → (radio.call c w).0 ≡ true
  pub tells : (c : RadioCall) (w : W) → told (radio.call c w).1 ≡ told w ++ (c ∷ [])
  pub waits : (w : W) → told (radio.wait_bits w).1 ≡ told w
  pub reads : (w : W) → radio.read_mac w ≡ mac

module _ {W A B : Type 0} (m : Setup W A) (f : A → Setup W B) where
  resume : Checked A × Wlan W → Checked B × Wlan W
  resume x = elim x.0 as (λ _. Checked B × Wlan W) [
    | returned a ↦ f a x.1
    | aborted ↦ (aborted, x.1)
  ]

  then_returned : (n n' : Wlan W) (a : A) → m n ≡ (returned a, n') → (m checked_then f) n ≡ f a n'
  unfolding ◌checked_then◌ resume
  then_returned n n' a e = ap resume e

module _ {W : Type 0} {radio : Radio W} {told : W → List RadioCall} {mac : List ℕ}
    (laws : IsRadio radio told mac) where
  abbrev called : RadioCall → Wlan W → Wlan W
  called c n = record n { world = (radio.call c n.world).1 }

  must_lem : (c : RadioCall) (n : Wlan W) → must radio c n ≡ (returned tt, called c n)
  unfolding must
  must_lem c n = rw (laws.accepts c n.world) refl

  -- One more call after the calls `cs`.
  tells_after :
      (c : RadioCall) (cs : List RadioCall) (w w' : W)
      → told w' ≡ told w ++ cs
      → told (radio.call c w').1 ≡ told w ++ (cs ++ (c ∷ []))
  tells_after c cs w w' e =
      laws.tells c w' ∙ ap (λ l. l ++ (c ∷ [])) e ∙ append_assoc (told w) cs (c ∷ [])

  abbrev pub sta_calls : List ℕ → List ℕ → List RadioCall
  sta_calls ssid pass = set_mode_sta ∷ config_sta (take 31 ssid) (take 63 pass) ∷ start ∷ []

  abbrev pub ap_calls : List RadioCall
  ap_calls = set_mode_ap ∷ config_ap (ap_ssid mac) ∷ start ∷ mdns ∷ []

  start_ap_lem :
      (n : Wlan W)
      → (n' : Wlan W) × (start_ap radio n ≡ (returned (ok tt), n'))
        × (n'.ap_mode ≡ true)
        × (told n'.world ≡ told n.world ++ ap_calls)
  unfolding start_ap dropped
  start_ap_lem n =
      let config = config_ap (ap_ssid (radio.read_mac n.world)) in
      let n₁ = called set_mode_ap n in
      let n₂ = called config n₁ in
      let n₃ = called start n₂ in
      let n₄ = called mdns n₃ in
      let told₂ = tells_after config _ n.world n₁.world (laws.tells set_mode_ap n.world) in
      let told₄ =
        tells_after mdns _ n.world n₃.world (tells_after start _ n.world n₂.world told₂) in
      (
        record n₄ { ap_mode = true },
        then_returned (must radio set_mode_ap) _ n n₁ tt (must_lem set_mode_ap n)
            ∙ then_returned (must radio config) _ n₁ n₂ tt (must_lem config n₁)
            ∙ then_returned (must radio start) _ n₂ n₃ tt (must_lem start n₂)
            ∙ then_returned (dropped radio mdns) _ n₃ n₄ tt refl,
        refl,
        told₄
            ∙ ap (λ m. told n.world ++ (set_mode_ap ∷ config_ap (ap_ssid m) ∷ start ∷ mdns ∷ []))
                (laws.reads n.world),
      )

  -- The state of the radio in which `start_sta` waits.
  start_sta_lem :
      (ssid pass : List ℕ) (n : Wlan W)
      → (w : W) × (told w ≡ told n.world ++ sta_calls ssid pass)
        × (start_sta radio ssid pass n ≡ (
          returned (if (radio.wait_bits w).0 then ok tt else err esp_fail),
          record n { world = (radio.wait_bits w).1 },
        ))
  unfolding start_sta
  start_sta_lem ssid pass n =
      let config = config_sta (take 31 ssid) (take 63 pass) in
      let n₁ = called set_mode_sta n in
      let n₂ = called config n₁ in
      let n₃ = called start n₂ in
      let told₂ = tells_after config _ n.world n₁.world (laws.tells set_mode_sta n.world) in
      (
        n₃.world,
        tells_after start _ n.world n₂.world told₂,
        then_returned (must radio set_mode_sta) _ n n₁ tt (must_lem set_mode_sta n)
            ∙ then_returned (must radio config) _ n₁ n₂ tt (must_lem config n₁)
            ∙ then_returned (must radio start) _ n₂ n₃ tt (must_lem start n₂),
      )

  -- What a start leaves, where the station has waited in the state `w`: it has connected, or it is
  -- stopped and the access point is there.
  abbrev pub Settled : Wlan W → W → Bool → Checked (Outcome (Unit {0})) × Wlan W → Type 0
  Settled n w connected r =
      (r.0 ≡ returned (ok tt))
      × (r.1.ap_mode ≡ (if connected then n.ap_mode else true))
      × (told r.1.world ≡ told w ++ (if connected then [] else stop ∷ ap_calls))

  or_serve_lem :
      (n : Wlan W) (w : W) (connected : Bool)
      → Settled n w connected (
          or_serve radio
            (if connected then ok tt else err esp_fail)
            (record n { world = (radio.wait_bits w).1 }))
  unfolding or_serve dropped
  or_serve_lem n w true = (refl, refl, laws.waits w ∙ sym (append-nil (told w)))
  or_serve_lem n w false =
      let n₁ = record n { world = (radio.wait_bits w).1 } in
      let n₂ = called stop n₁ in
      let (n₃, ran, served, heard) = start_ap_lem n₂ in
      let e = then_returned (dropped radio stop) (λ _. start_ap radio) n₁ n₂ tt refl ∙ ran in
      (
        ap (λ r. r.0) e,
        ap (λ r. r.1.ap_mode) e ∙ served,
        ap (λ r. told r.1.world) e
            ∙ heard
            ∙ ap (λ l. l ++ ap_calls)
                (laws.tells stop n₁.world ∙ ap (λ l. l ++ (stop ∷ [])) (laws.waits w))
            ∙ append_assoc (told w) (stop ∷ []) ap_calls,
      )

  pub join_or_serve_lem :
      (ssid pass : List ℕ) (n : Wlan W)
      → (w : W) × (told w ≡ told n.world ++ sta_calls ssid pass)
        × Settled n w (radio.wait_bits w).0 (join_or_serve radio (some (ssid, pass)) n)
  unfolding join_or_serve
  join_or_serve_lem ssid pass n =
      let (w, heard, ran) = start_sta_lem ssid pass n in
      let e = then_returned (start_sta radio ssid pass) (or_serve radio) n _ _ ran in
      (
        w,
        heard,
        subst (Settled n w (radio.wait_bits w).0) (sym e) (or_serve_lem n w (radio.wait_bits w).0),
      )
