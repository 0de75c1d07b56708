-- ===== src/NfcTask/Life.antt =====
-- main/nfc_task.c: the whole task, with the front end alive or dead.
use osdp_reader_test_project.Common.{
  ◌||◌, arith, ◌≡◌, refl, ap, ◌∙◌, true, false, Bool-cases, inl, inr, List, [], ◌∷◌, if◌then◌else◌,
}
use mathlib.Core.Path.{subst, sym}
use osdp_reader_test_project.Common.{ℕ}
use osdp_reader_test_project.Esp.{Esp, Outcome, ok, err, fault}
use osdp_reader_test_project.Io.{Io}
use osdp_reader_test_project.Desfire.State.{Platform}
use osdp_reader_test_project.Desfire.Commands.{desfire_init}
use osdp_reader_test_project.Leaf.{Nvs}
use osdp_reader_test_project.Reader.Types.{Mode, Button}
use osdp_reader_test_project.Reader.{Queues, Reader, mode_handle_button}
use osdp_reader_test_project.Reader.Modes.{pressed, handle_button_lem, handle_button-kept, is_reset}
use osdp_reader_test_project.NfcTask.{Front, Task, nfc_iteration}

-- What a round finds: the button, and what the uninitialised bytes of leaf_personalize hold.
abbrev pub Round : Type 0
Round = Button × List ℕ

module _ {Q : Type 0} (queues : Queues Q) where
  -- The loop of a task whose front end has failed to start. A factory reset does not return.
  pub dead_rounds : List Round → Reader Q → Reader Q
  dead_rounds [] r = r
  dead_rounds ((b, _) ∷ rounds) r =
      let rest = dead_rounds rounds (mode_handle_button queues b r) in
      if r.restarted then r else rest

module _ {W Q : Type 0} (p : Platform W) (nvs : Nvs W) (queues : Queues Q) (front : Front W) where
  pub live_rounds : List Round → Task W Q → Outcome (Task W Q)
  live_rounds [] t = ok t
  live_rounds ((b, junk) ∷ rounds) t =
      if t.reader.restarted then ok t else elim (nfc_iteration p nvs queues front b junk t) [
        | ok t' ↦ live_rounds rounds t'
        | err e ↦ err e
        | fault ↦ fault
      ]

  -- The task, for as many rounds as the list has.
  pub nfc_task : Io W (Unit {0}) → List Round → Task W Q → Outcome (Task W Q)
  nfc_task init rounds t =
      let h = t.host in
      let (started, w) = init h.world in
      let h' = record h { world = w } in
      elim started [
        | ok _ ↦
            live_rounds rounds
              (record t { card_in_field = false; empty_count = 0; host = desfire_init h' })
        | err _ ↦ ok (record t { reader = dead_rounds queues rounds t.reader; host = h' })
        | fault ↦ fault
      ]

-- The mode that the buttons of the rounds ask for, up to a factory reset.
pub pressed_all : List Round → Mode → Mode
pressed_all [] m = m
pressed_all ((b, _) ∷ rounds) m =
    let rest = pressed_all rounds (pressed b m) in if is_reset b then m else rest

pressed_reset : (b : Button) (m : Mode) → is_reset b ≡ true → pressed b m ≡ m
pressed_reset b m e = ground arith

module _ {Q : Type 0} (queues : Queues Q) where
  dead_rounds-restarted :
      (rounds : List Round) (r : Reader Q) → r.restarted ≡ true → dead_rounds queues rounds r ≡ r
  unfolding dead_rounds
  dead_rounds-restarted [] r e = refl
  dead_rounds-restarted (_ ∷ rounds) r e = rw e refl

  dead_rounds-step :
      (b : Button) (junk : List ℕ) (rounds : List Round) (r : Reader Q)
      → r.restarted ≡ false
      → dead_rounds queues ((b, junk) ∷ rounds) r
        ≡ dead_rounds queues rounds (mode_handle_button queues b r)
  unfolding dead_rounds
  dead_rounds-step b junk rounds r e =
      ap (λ c. if c then r else dead_rounds queues rounds (mode_handle_button queues b r)) e

  IsServed : List Round → Reader Q → Reader Q → Type 0
  IsServed rounds r r' =
      (r'.mode ≡ pressed_all rounds r.mode)
      × (r'.write_pending ≡ r.write_pending)
      × (r'.write_cred ≡ r.write_cred)

  dead_rounds-IsServed :
      (rounds : List Round) (r : Reader Q)
      → r.restarted ≡ false
      → IsServed rounds r (dead_rounds queues rounds r)
  unfolding dead_rounds pressed_all IsServed
  dead_rounds-IsServed [] r e = (refl, refl, refl)
  dead_rounds-IsServed ((b, junk) ∷ rounds) r e =
      let r' = mode_handle_button queues b r in
      let (pending, cred, again) = handle_button-kept queues b r in
      elim (Bool-cases (is_reset b)) [
        | inl reset ↦
            let same = dead_rounds-restarted rounds r' (again ∙ ap (λ c. c || r.restarted) reset) in
            subst (IsServed ((b, junk) ∷ rounds) r)
              (sym (dead_rounds-step b junk rounds r e ∙ same))
              (
                handle_button_lem queues b r
                    ∙ pressed_reset b r.mode reset
                    ∙ ap (λ c. if c then r.mode else pressed_all rounds (pressed b r.mode))
                        (sym reset),
                pending,
                cred,
              )
        | inr other ↦
            let (mode, kept, held) =
              dead_rounds-IsServed rounds r' (again ∙ ap (λ c. c || r.restarted) other ∙ e) in
            subst (IsServed ((b, junk) ∷ rounds) r) (sym (dead_rounds-step b junk rounds r e)) (
              mode
                  ∙ ap (pressed_all rounds) (handle_button_lem queues b r)
                  ∙ ap (λ c. if c then r.mode else pressed_all rounds (pressed b r.mode))
                      (sym other),
              kept ∙ pending,
              held ∙ cred,
            )
      ]

module _ {W Q : Type 0} (p : Platform W) (nvs : Nvs W) (queues : Queues Q) (front : Front W) where
  task_by : List Round → Task W Q → Outcome (Unit {0}) × W → Outcome (Task W Q)
  task_by rounds t x =
      let h = t.host in
      let h' = record h { world = x.1 } in
      elim x.0 as (λ _. Outcome (Task W Q)) [
        | ok _ ↦
            live_rounds p nvs queues front rounds
              (record t { card_in_field = false; empty_count = 0; host = desfire_init h' })
        | err _ ↦ ok (record t { reader = dead_rounds queues rounds t.reader; host = h' })
        | fault ↦ fault
      ]

  -- If the front end does not start, the task only serves the button: however many rounds it runs,
  -- it does not fail, the session and the card stay as they are, a queued write stays queued, and
  -- the mode is the one that the presses ask for, up to a factory reset.
  pub nfc_task-dead :
      (init : Io W (Unit {0})) (rounds : List Round) (t : Task W Q) (e : Esp) (w : W)
      → init t.host.world ≡ (err e, w)
      → t.reader.restarted ≡ false
      → (r : Reader Q) × (nfc_task p nvs queues front init rounds t
          ≡ ok (record t { reader = r; host = let h = t.host in record h { world = w } }))
        × (r.mode ≡ pressed_all rounds t.reader.mode)
        × (r.write_pending ≡ t.reader.write_pending)
        × (r.write_cred ≡ t.reader.write_cred)
  unfolding nfc_task task_by IsServed
  nfc_task-dead init rounds t e w failed fresh =
      let (mode, pending, cred) = dead_rounds-IsServed queues rounds t.reader fresh in
      (dead_rounds queues rounds t.reader, ap (task_by rounds t) failed, mode, pending, cred)
