-- ===== src/Reader/Tests.antt =====
-- The theorems on components/reader_core/mode_controller.c at concrete data.
use osdp_reader_test_project.Common.{
  ◌+◌, ◌-◌, ◌≡◌, refl, true, false, some, List, [], ◌∷◌, ◌++◌, length, take, ltb, arith,
}
use osdp_reader_test_project.Reader.Types.{idle, read, Event}
use osdp_reader_test_project.Reader.{mode_event}
use osdp_reader_test_project.Reader.Writes.{
  put, take_out, run_requests, run_slot, run_requests_refines,
}
use osdp_reader_test_project.Reader.Bus.{IsQueue, post_each, post_each_lem}
use osdp_reader_test_project.Reader.{Reader}
use osdp_reader_test_project.Reader.Setters.{outside, changed, System}
use osdp_reader_test_project.Samples.{queues, subscriber, reader, cred}

run_requests_refines_example :
    run_requests (reader idle) (take_out ∷ take_out ∷ put cred ∷ take_out ∷ [])
    ≡ run_slot (some cred) (take_out ∷ take_out ∷ put cred ∷ take_out ∷ [])
run_requests_refines_example =
    run_requests_refines (reader idle) (take_out ∷ take_out ∷ put cred ∷ take_out ∷ [])

events : List Event
events = mode_event read ∷ mode_event idle ∷ []

queues-IsQueue : IsQueue queues (λ q. q) 8
queues-IsQueue = record {
  send_room = λ e q room.
      (q ++ (e ∷ []), (let b : ltb (length q) 8 ≡ true = ground (arith, room) in rw b refl), refl);
  send_full = λ e q full. let b : ltb (length q) 8 ≡ false = ground (arith, full) in rw b refl;
}

post_each_lem_example :
    ((post_each queues (mode_event read ∷ []) subscriber).q ≡ take 8 (mode_event read ∷ []))
    × ((post_each queues (mode_event read ∷ []) subscriber).drops ≡ 0 + (1 - 8))
post_each_lem_example =
    post_each_lem queues queues-IsQueue (mode_event read ∷ []) subscriber (omega arith)

-- One task has changed the mode, and another finds it so, before the first goes on.
abbrev halfway : System (List Event)
halfway = record {
  reader = record (reader idle) { mode = read };
  tasks = changed read ∷ outside ∷ [];
}
