-- ===== src/Samples.antt =====
-- Concrete data for the tests: a card and its key store, queues of a fixed size, a radio.
use osdp_reader_test_project.Common.{
  ℕ, zero, suc, ◌+◌, Bool, true, false, none, some, List, [], ◌∷◌, ◌++◌, length, replicate, ltb,
  if◌then◌else◌,
}
use osdp_reader_test_project.Esp.{Outcome, ok, err, timeout}
use osdp_reader_test_project.Desfire.State.{Session, Platform, Host}
use osdp_reader_test_project.Leaf.{Nvs}
use osdp_reader_test_project.Leaf.Credential.{Cred}
use osdp_reader_test_project.Reader.Types.{Mode, idle, ind_idle, Event}
use osdp_reader_test_project.Reader.{Queues, Subscriber, Reader}
use osdp_reader_test_project.NfcTask.{Front, Task}
use osdp_reader_test_project.Settings.{Settings}
use osdp_reader_test_project.Console.{Console}

abbrev pub key : List ℕ
key = replicate 16 0

abbrev pub nonce : List ℕ
nonce = replicate 16 7

abbrev pub proof : List ℕ
proof = replicate 4 1 ++ (replicate 16 7 ++ replicate 12 0)

-- The card answers a first and a third exchange, as in an authentication, and no other.
abbrev pub reply : ℕ → Outcome (List ℕ) × ℕ
reply zero = (ok (replicate 16 3 ++ (0x91 ∷ 0xAF ∷ [])), 1)
reply (suc zero) = (err timeout, 2)
reply (suc (suc zero)) = (ok (proof ++ (0x91 ∷ 0x00 ∷ [])), 3)
reply (suc (suc (suc n))) = (err timeout, n + 4)

-- The ciphers of the sample do nothing.
abbrev pub platform : Platform ℕ
platform = record {
  aes_ecb = λ k x. x;
  cbc_encrypt = λ k iv x. x;
  cbc_decrypt = λ k iv x. x;
  fill_random = λ w. (nonce, w + 1);
  apdu_exchange = λ tx cap w. reply w;
}

abbrev pub session : Bool → Session
session live = record {
  key_no = 0;
  ti = 1 ∷ 2 ∷ 3 ∷ 4 ∷ [];
  k_ses_auth_enc = key;
  k_ses_auth_mac = key;
  cmd_ctr = 5;
  authenticated = live;
}

abbrev pub host : Bool → Host ℕ
host live = record { session = session live; mac_key = key; last_status = 0; world = 0 }

abbrev pub nvs : Nvs ℕ
nvs = record {
  open_store = λ rw w. (err timeout, w);
  set_blob = λ blob w. (ok tt, w);
  get_blob = λ cap w. (ok key, w);
  commit = λ w. (ok tt, w);
}

abbrev pub front : Front ℕ
front = record { find_target = λ cap w. (ok (4 ∷ 5 ∷ 6 ∷ 7 ∷ []), w); release = λ w. w }

-- A queue is the list of its events, of which there are 8 at most.
abbrev pub queues : Queues (List Event)
queues = record {
  create = λ n. some [];
  send = λ e q. if ltb (length q) 8 then some (q ++ (e ∷ [])) else none;
}

abbrev pub subscriber : Subscriber (List Event)
subscriber = record { q = []; drops = 0 }

abbrev pub cred : Cred
cred = record { facility = 0x1234; card_id = 0x89ABCDEF; issue_date = 20240131 }

abbrev pub reader : Mode → Reader (List Event)
reader m = record {
  mode = m;
  subs = subscriber ∷ [];
  write_cred = cred;
  write_pending = true;
  indicator = ind_idle;
  restarted = false;
}

abbrev pub task : Bool → Mode → Task ℕ (List Event)
task present m = record {
  card_in_field = present;
  empty_count = 0;
  reader = reader m;
  host = host true;
}

-- Settings that keep nothing.
abbrev pub settings : Settings ℕ
settings = record {
  open_ns = λ ns rw w. (ok tt, w);
  set_i32 = λ ns key v w. (ok tt, w + 1);
  get_i32 = λ ns key w. (err timeout, w);
  set_str = λ ns key v w. (ok tt, w + 1);
  get_str = λ ns key cap w. (err timeout, w);
  commit = λ ns w. (ok tt, w);
}

abbrev pub console : Console (List Event) ℕ ℕ
console = record { reader = reader idle; host = host false; settings = 0; restarted = false }
