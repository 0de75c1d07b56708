-- ===== src/Reader/Modes.antt =====
-- components/reader_core/mode_controller.c: the mode, the indicator, and the number of subscribers.
use osdp_reader_test_project.Common.{
  Bool, true, ◌||◌, false, ◌≤◌, ◌≡◌, refl, List, [], ◌∷◌, length, length-append, arith,
}
use osdp_reader_test_project.Leaf.Credential.{Cred}
use osdp_reader_test_project.Reader.Types.{
  Mode, idle, read, write, mode_eq, Indicator, ind_idle, ind_armed_read, ind_armed_write, Button,
  btn_none, btn_short, btn_long, btn_factory_reset, Event,
}
use osdp_reader_test_project.Reader.{
  Queues, Reader, max_subscribers, apply_indicator, post_all, mode_event, mode_post_event,
  mode_subscribe, mode_set, mode_init, mode_get, mode_handle_button, mode_set_write_request,
  mode_take_write_request,
}

-- The pattern that `apply_indicator` has for a mode.
abbrev pub armed : Mode → Indicator
armed idle = ind_idle
armed read = ind_armed_read
armed write = ind_armed_write

-- The mode that a press asks for.
abbrev pub pressed : Button → Mode → Mode
pressed btn_none m = m
pressed btn_short read = idle
pressed btn_short _ = read
pressed btn_long write = idle
pressed btn_long _ = write
pressed btn_factory_reset m = m

abbrev pub is_reset : Button → Bool
is_reset btn_factory_reset = true
is_reset _ = false

module _ {Q : Type 0} (queues : Queues Q) where
  length-post_all : (e : Event) (ss : List _) → length (post_all queues e ss) ≡ length ss
  unfolding post_all
  length-post_all e [] = refl
  length-post_all e (s ∷ ss) = omega (arith, length-post_all e ss)

  -- What `mode_set` leaves: the new mode, and, if it is a change, its indicator and one
  -- mode event posted to the bus; without a change it does nothing.
  pub mode_set_lem :
      (m : Mode) (r : Reader Q)
      → ((mode_set queues m r).mode ≡ m)
        × (r.mode ≡ m → mode_set queues m r ≡ r)
        × ((r.mode ≡ m → ⊥)
            → ((mode_set queues m r).indicator ≡ armed m)
              × ((mode_set queues m r).subs ≡ post_all queues (mode_event m) r.subs))
  unfolding mode_set mode_post_event apply_indicator mode_eq
  mode_set_lem idle r = ground arith
  mode_set_lem read r = ground arith
  mode_set_lem write r = ground arith

  -- `mode_init` leaves the mode idle.
  pub mode_init-idle : (r : Reader Q) → (mode_init queues r).mode ≡ idle
  unfolding mode_init
  mode_init-idle r = (mode_set_lem idle (record r { subs = []; write_pending = false })).0

  -- At the start, where the mode is idle already, `mode_init` gives the board no pattern.
  pub mode_init_silent :
      (r : Reader Q) → r.mode ≡ idle → (mode_init queues r).indicator ≡ r.indicator
  unfolding mode_init mode_set mode_eq
  mode_init_silent r h = ground arith

  -- The array `s_subs` has four places.
  abbrev IsBounded : Reader Q → Type 0
  IsBounded r = length r.subs ≤ max_subscribers

  mode_set-IsBounded : (m : Mode) (r : Reader Q) → IsBounded r → IsBounded (mode_set queues m r)
  unfolding mode_set mode_post_event apply_indicator mode_eq
  mode_set-IsBounded m r h = ground (arith, length-post_all (mode_event m) r.subs)

  subscribe-IsBounded : (r : Reader Q) → IsBounded r → IsBounded (mode_subscribe queues r).1
  unfolding mode_subscribe
  subscribe-IsBounded r h = grind (arith, length-append)

  -- A press sets the mode that it asks for, from every mode, and pressing again goes back to idle.
  pub handle_button_lem :
      (b : Button) (r : Reader Q) → (mode_handle_button queues b r).mode ≡ pressed b r.mode
  unfolding mode_handle_button mode_set mode_post_event apply_indicator mode_eq mode_get
  handle_button_lem b r = ground arith

  -- A press leaves the pending write alone, and only a factory reset restarts the chip.
  pub handle_button-kept :
      (b : Button) (r : Reader Q)
      → ((mode_handle_button queues b r).write_pending ≡ r.write_pending)
        × ((mode_handle_button queues b r).write_cred ≡ r.write_cred)
        × ((mode_handle_button queues b r).restarted ≡ (is_reset b || r.restarted))
  unfolding mode_handle_button mode_set mode_post_event apply_indicator mode_eq mode_get
  handle_button-kept b r = ground arith

-- The calls of the other components.
pub data ReaderOp : Type 0 where
  subscribe : ReaderOp
  set_mode : Mode → ReaderOp
  press : Button → ReaderOp
  post : Event → ReaderOp
  request : Cred → ReaderOp
  take_request : ReaderOp

module _ {Q : Type 0} (queues : Queues Q) where
  pub apply_op : ReaderOp → Reader Q → Reader Q
  apply_op subscribe r = (mode_subscribe queues r).1
  apply_op (set_mode m) r = mode_set queues m r
  apply_op (press b) r = mode_handle_button queues b r
  apply_op (post e) r = mode_post_event queues e r
  apply_op (request c) r = mode_set_write_request c r
  apply_op take_request r = (mode_take_write_request r).1

  pub apply_ops : List ReaderOp → Reader Q → Reader Q
  apply_ops [] r = r
  apply_ops (op ∷ ops) r = apply_ops ops (apply_op op r)

  apply_op-IsBounded :
      (op : ReaderOp) (r : Reader Q) → length r.subs ≤ 4 → length (apply_op op r).subs ≤ 4
  unfolding apply_op mode_handle_button mode_post_event mode_take_write_request
      mode_set_write_request
  apply_op-IsBounded subscribe r h = subscribe-IsBounded queues r h
  apply_op-IsBounded (set_mode m) r h = mode_set-IsBounded queues m r h
  apply_op-IsBounded (press btn_none) r h = h
  apply_op-IsBounded (press btn_short) r h =
      ground (arith, mode_set-IsBounded queues idle r h, mode_set-IsBounded queues read r h)
  apply_op-IsBounded (press btn_long) r h =
      ground (arith, mode_set-IsBounded queues idle r h, mode_set-IsBounded queues write r h)
  apply_op-IsBounded (press btn_factory_reset) r h = h
  apply_op-IsBounded (post e) r h = omega (arith, length-post_all queues e r.subs)
  apply_op-IsBounded (request c) r h = h
  apply_op-IsBounded take_request r h = ground arith

  ops_bounded :
      (ops : List ReaderOp) (r : Reader Q) → length r.subs ≤ 4 → length (apply_ops ops r).subs ≤ 4
  unfolding apply_ops
  ops_bounded [] r h = h
  ops_bounded (op ∷ ops) r h = ops_bounded ops (apply_op op r) (apply_op-IsBounded op r h)

  length-init : (r : Reader Q) → length (mode_init queues r).subs ≤ 4
  unfolding mode_init mode_set mode_post_event post_all apply_indicator
  length-init r = ground arith

  -- After `mode_init`, whatever calls follow, the writes to `s_subs` stay inside its four places.
  pub apply_ops-bounded :
      (ops : List ReaderOp) (r : Reader Q)
      → length (apply_ops ops (mode_init queues r)).subs ≤ max_subscribers
  apply_ops-bounded ops r = ops_bounded ops (mode_init queues r) (length-init r)
