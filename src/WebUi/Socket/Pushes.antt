-- ===== src/WebUi/Socket/Pushes.antt =====
-- components/webui/webui.c: which events a client gets.
use osdp_reader_test_project.Common.{
  ℕ, suc, ◌≡◌, refl, ap, sym, ◌∙◌, inl, inr, Bool, true, false, ◌&&◌, Bool-cases, Option, none,
  some, List, [], ◌∷◌, ◌++◌, append_assoc, append-nil, map, take, if◌then◌else◌,
}
use mathlib.Core.Path.{subst}
use osdp_reader_test_project.Reader.Types.{Event}
use osdp_reader_test_project.Console.{Console}
use osdp_reader_test_project.EventText.{pushed}
use osdp_reader_test_project.WebUi.Socket.{Server, Web, push_event, push_events}

-- What the driver relies on of the server, where `got` is the texts that a client has got: a text
-- that is sent is got, and one that is not is not.
pub record IsServer {N : Type 0} (server : Server N) (got : N → List (List ℕ)) : Type 0 where
  pub delivers :
      (fd : ℕ) (text : List ℕ) (n : N)
      → got (server.send fd text n).1
        ≡ got n ++ (if (server.send fd text n).0 then text ∷ [] else [])

module _ {N : Type 0} (server : Server N) where
  -- How many sends to the client succeed until the first that fails, and whether all do.
  pub accepted : ℕ → N → List Event → ℕ
  accepted fd n [] = 0
  accepted fd n (x ∷ es) =
      let (sent, n') = server.send fd (pushed x) n in
      let rest = accepted fd n' es in if sent then suc rest else 0

  pub all_accepted : ℕ → N → List Event → Bool
  all_accepted fd n [] = true
  all_accepted fd n (x ∷ es) =
      let (sent, n') = server.send fd (pushed x) n in
      let rest = all_accepted fd n' es in sent && rest

  -- What a client gets of the events, and what is then left of it.
  abbrev pub due : Option ℕ → N → List Event → List Event
  due none n es = []
  due (some fd) n es = take (accepted fd n es) es

  abbrev pub remaining : Option ℕ → N → List Event → Option ℕ
  remaining none n es = none
  remaining (some fd) n es = if all_accepted fd n es then some fd else none

  -- The same by the result of the first send.
  due_by : Event → List Event → ℕ → N → Bool → List Event
  due_by x es fd n sent =
      let rest = accepted fd (server.send fd (pushed x) n).1 es in
      take (if sent then suc rest else 0) (x ∷ es)

  remaining_by : List Event → ℕ → N → Bool → Option ℕ
  remaining_by es fd n' sent =
      let rest = all_accepted fd n' es in if sent && rest then some fd else none

module _ {Q W V N : Type 0} {server : Server N} {got : N → List (List ℕ)}
    (laws : IsServer server got) where
  abbrev web : Option ℕ → N → Console Q W V → Web Q W V N
  web fd n c = record { ws_fd = fd; net = n; console = c }

  -- Without a client nothing happens.
  push_events-none :
      (es : List Event) (n : N) (c : Console Q W V)
      → push_events server es (web none n c) ≡ web none n c
  unfolding push_events push_event
  push_events-none [] n c = refl
  push_events-none (x ∷ es) n c = push_events-none es n c

  -- The state after the pushes, where the client was `fd` and the server in the state `n`.
  abbrev IsPushed : Option ℕ → N → Console Q W V → List Event → Web Q W V N → Type 0
  IsPushed fd n c es t =
      (got t.net ≡ got n ++ map pushed (due server fd n es))
      × (t.ws_fd ≡ remaining server fd n es)
      × (t.console ≡ c)

  -- The first send by its result, the rest from there.
  after : Event → List Event → ℕ → N → Console Q W V → Bool → Web Q W V N
  after x es fd n c sent =
      push_events server es (web (if sent then some fd else none) (server.send fd (pushed x) n).1 c)

  IsAfter : Event → List Event → ℕ → N → Console Q W V → Bool → Type 0
  IsAfter x es fd n c sent =
      (got (after x es fd n c sent).net ≡ got n ++ map pushed (due_by server x es fd n sent))
      × ((after x es fd n c sent).ws_fd
          ≡ remaining_by server es fd (server.send fd (pushed x) n).1 sent)
      × ((after x es fd n c sent).console ≡ c)

  IsPushed-each :
      (es : List Event) (fd : ℕ) (n : N) (c : Console Q W V)
      → IsPushed (some fd) n c es (push_events server es (web (some fd) n c))
  unfolding push_events push_event accepted all_accepted after due_by remaining_by IsAfter
  IsPushed-each [] fd n c = (sym (append-nil (got n)), refl, refl)
  IsPushed-each (x ∷ es) fd n c =
      let n' = (server.send fd (pushed x) n).1 in
      let heard = laws.delivers fd (pushed x) n in
      let heard_as = λ (b : Bool) (e : (server.send fd (pushed x) n).0 ≡ b).
        heard ∙ ap (λ b. got n ++ (if b then pushed x ∷ [] else [])) e in
      let (rest_got, rest_fd, rest_console) = IsPushed-each es fd n' c in
      elim (Bool-cases (server.send fd (pushed x) n).0) [
        | inl e ↦ subst (IsAfter x es fd n c) (sym e) (
          rest_got
              ∙ ap (λ l. l ++ map pushed (due server (some fd) n' es)) (heard_as true e)
              ∙ append_assoc (got n) (pushed x ∷ []) (map pushed (due server (some fd) n' es)),
          rest_fd,
          rest_console,
        )
        | inr e ↦
            let quiet = push_events-none es n' c in
            subst (IsAfter x es fd n c) (sym e) (
              ap (λ t. got t.net) quiet ∙ heard_as false e,
              ap (λ t. t.ws_fd) quiet,
              ap (λ t. t.console) quiet,
            )
      ]

  -- A client gets exactly the events before the first whose send fails, in their order and with
  -- none left out: all of them where no send fails. It is the client afterwards if and only if no
  -- send failed. Without a client nothing is got and there is none afterwards. What the commands
  -- act on stays as it is.
  pub push_events-prefix :
      (es : List Event) (s : Web Q W V N)
      → let t = push_events server es s in
        (got t.net ≡ got s.net ++ map pushed (due server s.ws_fd s.net es))
        × (t.ws_fd ≡ remaining server s.ws_fd s.net es)
        × (t.console ≡ s.console)
  push_events-prefix es s = by_client s.ws_fd
    where
      by_client :
          (fd : Option ℕ)
          → IsPushed fd s.net s.console es (push_events server es (web fd s.net s.console))
      by_client none =
          let quiet = push_events-none es s.net s.console in
          (
            ap (λ t. got t.net) quiet ∙ sym (append-nil (got s.net)),
            ap (λ t. t.ws_fd) quiet,
            ap (λ t. t.console) quiet,
          )
      by_client (some fd) = IsPushed-each es fd s.net s.console
