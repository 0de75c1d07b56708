-- ===== src/Desfire/State.antt =====
-- The state of components/desfire and what it takes from outside: `desfire_session_t`, the globals
-- of desfire.c and desfire_auth.c, and mbedTLS, the random generator and the front end as
-- parameters. An operation returns its outcome and the new state.
use osdp_reader_test_project.Common.{ℕ, Bool, List}
use osdp_reader_test_project.Esp.{Outcome, ok, err, fault}

-- `desfire_session_t`.
pub record Session : Type 0 where
  pub key_no : ℕ
  pub ti : List ℕ
  pub k_ses_auth_enc : List ℕ
  pub k_ses_auth_mac : List ℕ
  pub cmd_ctr : ℕ
  pub authenticated : Bool

-- What the firmware links against. `W` is the state of the world: the card, the radio and the
-- random generator. The AES operations take the key first; in CBC mode the initial vector second.
-- The front end is given the frame and the capacity of the receive buffer.
pub record Platform (W : Type 0) : Type 0 where
  pub aes_ecb : List ℕ → List ℕ → List ℕ
  pub cbc_encrypt : List ℕ → List ℕ → List ℕ → List ℕ
  pub cbc_decrypt : List ℕ → List ℕ → List ℕ → List ℕ
  pub fill_random : W → List ℕ × W
  pub apdu_exchange : List ℕ → ℕ → W → Outcome (List ℕ) × W

-- `g_session`, `g_session_mac_key_full`, `s_last_status`, and the world.
pub record Host (W : Type 0) : Type 0 where
  pub session : Session
  pub mac_key : List ℕ
  pub last_status : ℕ
  pub world : W

abbrev pub Action : Type 0 → Type 0 → Type 0
Action W A = Host W → Outcome A × Host W

module _ {W A : Type 0} where
  abbrev pub pure : A → Action W A
  pure a h = (ok a, h)

infixl 5 ◌>>=◌ ◌>>◌
unfoldable pub ◌>>=◌ : {W A B : Type 0} → Action W A → (A → Action W B) → Action W B
◌>>=◌ m f h =
    let (r, h') = m h in elim r [ ok a ↦ f a h' | err e ↦ (err e, h') | fault ↦ (fault, h') ]

abbrev pub ◌>>◌ : {W A B : Type 0} → Action W A → Action W B → Action W B
m >> k = m >>= λ _. k
