-- ===== src/Reader.antt =====
-- components/reader_core/mode_controller.c: the mode, the event bus, and the pending write.
pub mod Types
pub mod Bus
pub mod Writes
pub mod Setters
pub mod Modes
pub mod Tests
use osdp_reader_test_project.Common.{
  ℕ, ◌+◌, ◌%◌, ◌^◌, Bool, true, false, Option, none, some, List, [], ◌∷◌, ◌++◌, length, leb,
  if◌then◌else◌,
}
use osdp_reader_test_project.Leaf.Credential.{Cred}
use Types.{
  Mode, idle, read, write, mode_eq, Indicator, ind_idle, ind_armed_read, ind_armed_write, ind_error,
  Button, btn_none, btn_short, btn_long, btn_factory_reset, EventKind, evt_mode_changed, Event,
}

-- The FreeRTOS queues that hold the events of a subscriber: creation, which can fail, and a send
-- with no waiting, which fails on a full queue.
pub record Queues (Q : Type 0) : Type 0 where
  pub create : ℕ → Option Q
  pub send : Event → Q → Option Q

pub record Subscriber (Q : Type 0) : Type 0 where
  pub q : Q
  pub drops : ℕ

-- The globals of mode_controller.c; `indicator` is what board_io.c was told last, and
-- `restarted` says that a factory reset has erased the NVS and restarted the chip.
pub record Reader (Q : Type 0) : Type 0 where
  pub mode : Mode
  pub subs : List (Subscriber Q)
  pub write_cred : Cred
  pub write_pending : Bool
  pub indicator : Indicator
  pub restarted : Bool

abbrev pub max_subscribers : ℕ
max_subscribers = 4

-- The zeroes of `{ .kind = EVT_MODE_CHANGED, .mode = m }`.
abbrev pub no_cred : Cred
no_cred = record { facility = 0; card_id = 0; issue_date = 0 }

abbrev pub mode_event : Mode → Event
mode_event m = record { kind = evt_mode_changed; mode = m; cred = no_cred; uid = []; uid_len = 0 }

module _ {Q : Type 0} where
  abbrev pub board_indicate : Indicator → Reader Q → Reader Q
  board_indicate i r = record r { indicator = i }

  pub apply_indicator : Mode → Reader Q → Reader Q
  apply_indicator idle r = board_indicate ind_idle r
  apply_indicator read r = board_indicate ind_armed_read r
  apply_indicator write r = board_indicate ind_armed_write r

  unfoldable pub mode_get : Reader Q → Mode
  mode_get r = r.mode

  pub mode_set_write_request : Cred → Reader Q → Reader Q
  mode_set_write_request c r = record r { write_cred = c; write_pending = true }

  -- The credential goes through `out`.
  unfoldable pub mode_take_write_request : Reader Q → Option Cred × Reader Q
  mode_take_write_request r =
      if r.write_pending then (some r.write_cred, record r { write_pending = false }) else (none, r)

  pub mode_event_queue : Reader Q → Option Q
  mode_event_queue r = elim r.subs [ [] ↦ none | s ∷ _ ↦ some s.q ]

module _ {Q : Type 0} (queues : Queues Q) where
  -- One round of the loop of `mode_post_event`; `drops` is a `uint32_t`.
  pub post_to : Event → Subscriber Q → Subscriber Q
  post_to e s = elim (queues.send e s.q) [
    | some q' ↦ record s { q = q' }
    | none ↦ record s { drops = (s.drops + 1) % 2 ^ 32 }
  ]

  pub post_all : Event → List (Subscriber Q) → List (Subscriber Q)
  post_all e [] = []
  post_all e (s ∷ ss) = post_to e s ∷ post_all e ss

  unfoldable pub mode_post_event : Event → Reader Q → Reader Q
  mode_post_event e r = record r { subs = post_all e r.subs }

  pub mode_subscribe : Reader Q → Option Q × Reader Q
  mode_subscribe r =
      if leb max_subscribers (length r.subs) then (none, r) else elim (queues.create 8) [
        | none ↦ (none, r)
        | some q ↦ (some q, record r { subs = r.subs ++ (record { q = q; drops = 0 } ∷ []) })
      ]

  pub mode_set : Mode → Reader Q → Reader Q
  mode_set m r =
      if mode_eq r.mode m
      then r
      else mode_post_event (mode_event m) (apply_indicator m (record r { mode = m }))

  pub mode_init : Reader Q → Reader Q
  mode_init r = mode_set idle (record r { subs = []; write_pending = false })

  pub mode_handle_button : Button → Reader Q → Reader Q
  mode_handle_button btn_none r = r
  mode_handle_button btn_short r =
      if mode_eq (mode_get r) read then mode_set idle r else mode_set read r
  mode_handle_button btn_long r =
      if mode_eq (mode_get r) write then mode_set idle r else mode_set write r
  mode_handle_button btn_factory_reset r = record (board_indicate ind_error r) { restarted = true }
