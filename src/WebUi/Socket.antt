-- ===== src/WebUi/Socket.antt =====
-- components/webui/webui.c: the client of the web socket, its frames, and the events pushed to it.
pub mod Pushes
use osdp_reader_test_project.Common.{
  ℕ, Bool, true, false, ◌&&◌, ◌||◌, Option, none, some, List, [], ◌∷◌, ◌++◌, length, take, ltb,
  ◌==◌, if◌then◌else◌,
}
use osdp_reader_test_project.Text.{chars}
use osdp_reader_test_project.Settings.{Settings}
use osdp_reader_test_project.Leaf.{Nvs}
use osdp_reader_test_project.Reader.Types.{Event}
use osdp_reader_test_project.Reader.{Queues}
use osdp_reader_test_project.Console.{Console}
use osdp_reader_test_project.EventText.{pushed}
use osdp_reader_test_project.WebUi.{WsReply, ws_ack, ws_error, handle_ws_command}

-- The HTTP server: sending a text to a socket, which may fail.
pub record Server (N : Type 0) : Type 0 where
  pub send : ℕ → List ℕ → N → Bool × N

-- `s_ws_fd`, none while it is negative, with the server and what the commands act on.
pub record Web (Q W V N : Type 0) : Type 0 where
  pub ws_fd : Option ℕ
  pub net : N
  pub console : Console Q W V

-- What `handle_ws` is called for: the handshake, and a frame of text or of another type.
pub data Request : Type 0 where
  handshake : (fd : ℕ) → Request
  text_frame : (fd : ℕ) (payload : List ℕ) → Request
  other_frame : (fd : ℕ) (payload : List ℕ) → Request

-- The texts of `ws_ack` and `ws_error`, in a buffer of 160 bytes.
pub reply_text : WsReply → List ℕ
reply_text (ws_ack cmd detail) = take 159 (
    chars "{\"type\":\"ack\",\"cmd\":\""
    ++ (cmd ++ (chars "\",\"detail\":\"" ++ (detail ++ chars "\"}"))))
reply_text (ws_error msg) =
    take 159 (chars "{\"type\":\"error\",\"message\":\"" ++ (msg ++ chars "\"}"))

module _ {Q W V N : Type 0} (server : Server N) where
  -- One event in `event_push_task`: a send that fails drops the client.
  pub push_event : Event → Web Q W V N → Web Q W V N
  push_event e s = elim s.ws_fd [
    | none ↦ s
    | some fd ↦
        let (sent, n) = server.send fd (pushed e) s.net in
        record s { ws_fd = if sent then some fd else none; net = n }
  ]

  pub push_events : List Event → Web Q W V N → Web Q W V N
  push_events [] s = s
  push_events (e ∷ es) s = push_events es (push_event e s)

  module _ (queues : Queues Q) (nvs : Nvs W) (store : Settings V) where
    -- A text is a command; its reply is sent to the same socket.
    pub command_frame : ℕ → List ℕ → Web Q W V N → Web Q W V N
    command_frame fd json s =
        let (reply, c) = handle_ws_command queues nvs store json s.console in
        let (_, n) = server.send fd (reply_text reply) s.net in
        record s { ws_fd = some fd; net = n; console = c }

    -- A frame with no payload or more than 1024 bytes, or that is no text, is dropped.
    pub handle_ws : Request → Web Q W V N → Web Q W V N
    handle_ws (handshake fd) s = record s { ws_fd = some fd }
    handle_ws (text_frame fd payload) s =
        if (length payload == 0) || ltb 1024 (length payload) then s else command_frame fd payload s
    handle_ws (other_frame fd payload) s = s
