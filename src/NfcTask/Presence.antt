-- ===== src/NfcTask/Presence.antt =====
-- main/nfc_task.c: a card that stays in the field, over the results of the polls.
use osdp_reader_test_project.Common.{
  ℕ, suc, ◌+◌, ◌≤◌, ◌≡◌, refl, true, false, List, [], ◌∷◌, ◌++◌, arith,
}
use osdp_reader_test_project.Esp.{Esp, Outcome, ok, err, fault, not_found}
use osdp_reader_test_project.Desfire.State.{Platform}
use osdp_reader_test_project.Leaf.{Nvs}
use osdp_reader_test_project.Reader.{Queues}
use osdp_reader_test_project.NfcTask.{Front, Task, count_empty, after_poll}

-- A poll that finds a target, finds none, or fails otherwise.
pub data Poll : Type 0 where
  seen : List ℕ → Poll
  missed : Poll
  failed : Poll

abbrev pub result_of : Poll → Outcome (List ℕ)
result_of (seen uid) = ok uid
result_of missed = err not_found
result_of failed = err Esp.esp_fail

unfoldable pub misses : List Poll → ℕ
misses [] = 0
misses (seen uid ∷ ps) = misses ps
misses (missed ∷ ps) = suc (misses ps)
misses (failed ∷ ps) = misses ps

module _ {W Q : Type 0} (p : Platform W) (nvs : Nvs W) (queues : Queues Q) (front : Front W) where
  then_poll : (Task W Q → Outcome (Task W Q)) → Outcome (Task W Q) → Outcome (Task W Q)
  then_poll f (ok t) = f t
  then_poll f (err e) = err e
  then_poll f fault = fault

  -- The polls of consecutive iterations, with no button pressed.
  pub run_polls : List ℕ → List Poll → Task W Q → Outcome (Task W Q)
  run_polls junk [] t = ok t
  run_polls junk (q ∷ qs) t =
      then_poll (run_polls junk qs) (after_poll p nvs queues front junk (result_of q) t)

  -- A card that has been served is not served again while fewer than four polls have missed it:
  -- the polls change nothing but the count of misses.
  pub served_once :
      (junk : List ℕ) (qs : List Poll) (t : Task W Q)
      → t.card_in_field ≡ true
      → t.empty_count + misses qs ≤ 3
      → run_polls junk qs t ≡ ok (record t { empty_count = t.empty_count + misses qs })
  unfolding run_polls then_poll misses after_poll count_empty
  served_once junk [] t present few = ground arith
  served_once junk (seen uid ∷ qs) t present few = ground (arith, served_once junk qs t present few)
  served_once junk (missed ∷ qs) t present few = ground (
    arith,
    served_once junk qs (record t { empty_count = t.empty_count + 1; card_in_field = true }),
  )
  served_once junk (failed ∷ qs) t present few = ground (arith, served_once junk qs t present few)

  run_polls-append :
      (junk : List ℕ) (qs rs : List Poll) (t : Task W Q)
      → run_polls junk (qs ++ rs) t ≡ then_poll (run_polls junk rs) (run_polls junk qs t)
  unfolding run_polls then_poll
  run_polls-append junk [] rs t = refl
  run_polls-append junk (q ∷ qs) rs t =
      go (run_polls-append junk qs rs) (after_poll p nvs queues front junk (result_of q) t)
    where
      go :
          ((t' : Task W Q)
            → run_polls junk (qs ++ rs) t' ≡ then_poll (run_polls junk rs) (run_polls junk qs t'))
          → (r : Outcome (Task W Q))
          → then_poll (run_polls junk (qs ++ rs)) r
            ≡ then_poll (run_polls junk rs) (then_poll (run_polls junk qs) r)
      go ih (ok t') = ih t'
      go ih (err e) = refl
      go ih fault = refl

  fourth_miss :
      (junk : List ℕ) (t : Task W Q)
      → t.card_in_field ≡ true
      → t.empty_count ≡ 3
      → after_poll p nvs queues front junk (err not_found) t
        ≡ ok (record t { card_in_field = false; empty_count = 4 })
  unfolding after_poll count_empty
  fourth_miss junk t present three = ground arith

  then_poll-nil : (junk : List ℕ) (r : Outcome (Task W Q)) → then_poll (run_polls junk []) r ≡ r
  unfolding then_poll run_polls
  then_poll-nil junk (ok t) = refl
  then_poll-nil junk (err e) = refl
  then_poll-nil junk fault = refl

  -- The misses need not be consecutive: the fourth one ends the presence of a card that polls in
  -- between have seen, and the next poll that sees it serves it again.
  pub misses_add_up :
      (junk : List ℕ) (qs : List Poll) (uid : List ℕ) (t : Task W Q)
      → t.card_in_field ≡ true
      → t.empty_count + misses qs ≡ 3
      → run_polls junk (qs ++ (missed ∷ seen uid ∷ [])) t
        ≡ after_poll p nvs queues front junk
            (ok uid)
            (record t { card_in_field = false; empty_count = 4 })
  misses_add_up junk qs uid t present three =
      let t' : Task W Q = record t { empty_count = t.empty_count + misses qs } in
      rw (run_polls-append junk qs (missed ∷ seen uid ∷ []) t) (
        rw (served_once junk qs t present (omega arith)) (
          unfold run_polls then_poll in
          rw (fourth_miss junk t' present three) (
            then_poll-nil junk (
              after_poll p nvs queues front junk (ok uid)
                (record t { card_in_field = false; empty_count = 4 })))))
