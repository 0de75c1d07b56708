-- ===== src/Netconfig/Retries.antt =====
-- components/netconfig/netconfig.c: how often the station asks for a connection.
use osdp_reader_test_project.Common.{
  ℕ, suc, ◌+◌, ◌*◌, ◌-◌, ◌≤◌, ◌<◌, ◌≡◌, ap, sym, inl, inr, true, false, List, [], ◌∷◌, ltb, arith,
  if◌then◌else◌, Bool-cases,
}
use mathlib.Core.Path.{subst}
use osdp_reader_test_project.Netconfig.{
  Station, StationEvent, sta_start, sta_disconnected, sta_got_ip, other_event, on_wifi_event,
  on_ip_event, on_event, on_events,
}

-- How often an event that gives a new set of retries comes, and how often the station starts.
pub addresses : List StationEvent → ℕ
addresses [] = 0
addresses (sta_got_ip ∷ es) = suc (addresses es)
addresses (_ ∷ es) = addresses es

pub starts : List StationEvent → ℕ
starts [] = 0
starts (sta_start ∷ es) = suc (starts es)
starts (_ ∷ es) = starts es

abbrev retried : Station → Station
retried s = record s {
  sta_connected = false;
  retry_count = s.retry_count + 1;
  connects = s.connects + 1;
}

retried_lem :
    (s : Station) → ltb s.retry_count 5 ≡ true → on_wifi_event sta_disconnected s ≡ retried s
unfolding on_wifi_event
retried_lem s e =
    ap (λ b. if b then retried s else record s { sta_connected = false; bit_failed = true }) e

abbrev given_up : Station → Station
given_up s = record s { sta_connected = false; bit_failed = true }

given_up_lem :
    (s : Station) → ltb s.retry_count 5 ≡ false → on_wifi_event sta_disconnected s ≡ given_up s
unfolding on_wifi_event
given_up_lem s e = ap (λ b. if b then retried s else given_up s) e

-- The bound, where the next state is `t`.
abbrev Bounded : List StationEvent → Station → Station → Type 0
Bounded es s t =
    ((on_events es t).connects ≤ s.connects + starts es + 5 * addresses es + (5 - s.retry_count))
    × ((on_events es t).retry_count ≤ 5)

-- Whatever the events, the station asks for a connection once for each start, and otherwise five
-- times at most for each address that it gets, and five times at most before the first.
pub connects-bounded :
    (es : List StationEvent) (s : Station)
    → s.retry_count ≤ 5
    → ((on_events es s).connects ≤ s.connects + starts es + 5 * addresses es + (5 - s.retry_count))
      × ((on_events es s).retry_count ≤ 5)
unfolding on_events on_event on_ip_event on_wifi_event addresses starts
connects-bounded [] s h = (omega arith, h)
connects-bounded (sta_start ∷ es) s h =
    let (c, r) = connects-bounded es (on_wifi_event sta_start s) h in (omega (arith, c), r)
connects-bounded (sta_got_ip ∷ es) s h =
    let (c, r) = connects-bounded es (on_event sta_got_ip s) (omega arith) in
    (omega (arith, c, h), r)
connects-bounded (other_event ∷ es) s h = connects-bounded es s h
connects-bounded (sta_disconnected ∷ es) s h = elim (Bool-cases (ltb s.retry_count 5)) [
  | inl e ↦
      let (c, r) = connects-bounded es (retried s) (ground (arith, e)) in
      let left : s.retry_count < 5 = ground (arith, e) in
      subst (Bounded es s) (sym (retried_lem s e)) (omega (arith, c, left), r)
  | inr e ↦ subst (Bounded es s) (sym (given_up_lem s e)) (connects-bounded es (given_up s) h)
]
