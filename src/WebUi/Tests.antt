-- ===== src/WebUi/Tests.antt =====
-- The theorems on components/webui at concrete data.
use osdp_reader_test_project.Common.{◌≡◌, arith, some}
use osdp_reader_test_project.Text.{chars}
use osdp_reader_test_project.Leaf.Credential.{IsCred}
use osdp_reader_test_project.Reader.Types.{write}
use osdp_reader_test_project.Reader.{mode_get, mode_take_write_request}
use osdp_reader_test_project.WebUi.{ws_ack, handle_ws_command}
use osdp_reader_test_project.WebUi.Enroll.{enroll_message, clamped, handle_ws_command-clamped}
use osdp_reader_test_project.Common.{
  ℕ, Bool, true, false, List, [], ◌∷◌, ◌++◌, map, if◌then◌else◌, refl, sym, append-nil,
}
use osdp_reader_test_project.Reader.Types.{read, Event}
use osdp_reader_test_project.Reader.{mode_event}
use osdp_reader_test_project.EventText.{pushed}
use osdp_reader_test_project.WebUi.Socket.{Server, Web, push_events}
use osdp_reader_test_project.WebUi.Socket.Pushes.{IsServer, due, remaining, push_events-prefix}
use osdp_reader_test_project.Samples.{queues, nvs, settings, console, cred}

cred-IsCred : IsCred cred
cred-IsCred = record {
  facility_fits = omega arith;
  card_id_fits = omega arith;
  issue_date_fits = omega arith;
}

handle_ws_command-clamped_example :
    let (reply, s') = handle_ws_command queues nvs settings (enroll_message cred) console in
    (reply ≡ ws_ack (chars "enroll") (chars "queued; tap card"))
    × (mode_get s'.reader ≡ write)
    × ((mode_take_write_request s'.reader).0 ≡ some (clamped cred))
handle_ws_command-clamped_example =
    handle_ws_command-clamped queues nvs settings cred console cred-IsCred

-- A server that sends one text and no more; its state is the texts that were got.
abbrev one_text : List (List ℕ) → List ℕ → Bool × List (List ℕ)
one_text [] text = (true, text ∷ [])
one_text (x ∷ xs) text = (false, x ∷ xs)

abbrev server : Server (List (List ℕ))
server = record { send = λ fd text got. one_text got text }

one_text-got :
    (got : List (List ℕ)) (text : List ℕ)
    → (one_text got text).1 ≡ got ++ (if (one_text got text).0 then text ∷ [] else [])
one_text-got [] text = refl
one_text-got (x ∷ xs) text = sym (append-nil (x ∷ xs))

server-IsServer : IsServer server (λ got. got)
server-IsServer = record { delivers = λ fd text got. one_text-got got text }

abbrev page : Web (List Event) ℕ ℕ (List (List ℕ))
page = record { ws_fd = some 54; net = []; console = console }

abbrev events : List Event
events = mode_event read ∷ mode_event write ∷ []

push_events-prefix_example :
    let t = push_events server events page in
    (t.net ≡ [] ++ map pushed (due server (some 54) [] events))
    × (t.ws_fd ≡ remaining server (some 54) [] events)
    × (t.console ≡ console)
push_events-prefix_example = push_events-prefix server-IsServer events page
