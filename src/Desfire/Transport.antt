-- ===== src/Desfire/Transport.antt =====
-- components/desfire/desfire.c: the APDU wrapper and CMAC-mode commands.
pub mod Bounds
pub mod Refused
pub mod Exchange
pub mod Counter
use osdp_reader_test_project.Common.{
  ℕ, ◌+◌, ◌-◌, ◌/◌, ◌%◌, ◌^◌, Bool, true, false, not, ◌&&◌, ◌||◌, Option, none, some, List, [], ◌∷◌,
  ◌++◌, length, take, drop, slice, get_or, ltb, leb, ◌==◌, if◌then◌else◌, mem_eq,
}
use osdp_reader_test_project.Common.Bytes.{u8}
use osdp_reader_test_project.Esp.{Outcome, ok, err, fault, esp_fail, invalid_size, invalid_crc}
use osdp_reader_test_project.Desfire.State.{Session, Platform, Host, Action, ◌>>=◌, ◌>>◌, pure}
use osdp_reader_test_project.Desfire.Crypto.{desfire_cmac}

abbrev pub operation_ok : ℕ
operation_ok = 0x00

abbrev pub additional_frame : ℕ
additional_frame = 0xAF

-- The APDU that `desfire_xfer` builds: CLA, INS, P1, P2, Lc, the parameters, Le.
unfoldable pub apdu_of : ℕ → List ℕ → List ℕ
apdu_of cmd params = 0x90 ∷ cmd ∷ 0x00 ∷ 0x00 ∷ u8 (length params) ∷ (params ++ (0x00 ∷ []))

-- The bytes of the MAC that go on the wire, `full[1 + 2 * i]`.
unfoldable pub mac_truncate : List ℕ → List ℕ
mac_truncate full =
    get_or full 1 0
    ∷ get_or full 3 0
    ∷ get_or full 5 0
    ∷ get_or full 7 0
    ∷ get_or full 9 0
    ∷ get_or full 11 0
    ∷ get_or full 13 0
    ∷ get_or full 15 0
    ∷ []

-- `tag | cmd_ctr_le | TI | body`, with the command or the status as the tag.
pub mac_input : ℕ → Session → List ℕ → List ℕ
mac_input tag s body = tag ∷ u8 s.cmd_ctr ∷ u8 (s.cmd_ctr / 2 ^ 8) ∷ (take 4 s.ti ++ body)

pub room_of : Option ℕ → ℕ
room_of none = 0
room_of (some n) = n

module _ {W : Type 0} where
  -- `g_session.cmd_ctr++` on a `uint16_t`.
  unfoldable pub bump_ctr : Host W → Host W
  bump_ctr h =
      let s = h.session in record h { session = record s { cmd_ctr = (s.cmd_ctr + 1) % 2 ^ 16 } }

  -- What `desfire_xfer` makes of the bytes that came back.
  pub xfer_reply : ℕ → List ℕ → Action W (ℕ × List ℕ)
  xfer_reply resp_buf rx h =
      let n = length rx in
      if ltb n 2
      then (err esp_fail, record h { last_status = 0xFF })
      else if not (get_or rx (n - 2) 0 == 0x91)
      then (err esp_fail, record h { last_status = 0xFF })
      else if ltb resp_buf (n - 2)
      then (err esp_fail, record h { last_status = get_or rx (n - 1) 0 })
      else (
        ok (get_or rx (n - 1) 0, take (n - 2) rx),
        record h { last_status = get_or rx (n - 1) 0 },
      )

module _ {W : Type 0} where
  unfoldable pub xfer_received : ℕ → Outcome (List ℕ) → Action W (ℕ × List ℕ)
  xfer_received resp_buf (ok rx) h = xfer_reply resp_buf rx h
  xfer_received resp_buf (err e) h = (err esp_fail, record h { last_status = 0xFF })
  xfer_received resp_buf fault h = (fault, h)

module _ {W : Type 0} (p : Platform W) where
  -- `desfire_xfer`: -1 is the error; otherwise the status and the response data.
  unfoldable pub desfire_xfer : ℕ → List ℕ → ℕ → Action W (ℕ × List ℕ)
  desfire_xfer cmd params resp_buf h =
      if ltb 255 (length params)
      then (err esp_fail, h)
      else let (r, w) = p.apdu_exchange (apdu_of cmd params) 280 h.world in
        xfer_received resp_buf r (record h { world = w })

  -- The MAC over `tag | cmd_ctr_le | TI | body` that goes on the wire.
  pub session_mac : Host W → ℕ → List ℕ → List ℕ
  session_mac h tag body = mac_truncate (desfire_cmac p h (mac_input tag h.session body))

  -- The response of a CMAC-mode command whose caller wants the data.
  pub check_response : ℕ → List ℕ → Action W (List ℕ)
  check_response st resp h =
      let rd = length resp - 8 in
      if ltb (length resp) 8
      then (ok resp, h)
      else if ltb 256 (7 + rd)
      then (fault, h)
      else if mem_eq (drop rd resp) (session_mac h st (take rd resp))
      then (ok (take rd resp), h)
      else (err invalid_crc, h)

  -- Without a buffer (`resp_len` is NULL) the response is not looked at.
  pub look_at : Option ℕ → ℕ → List ℕ → Action W (List ℕ)
  look_at none st resp h = (ok [], h)
  look_at (some n) st resp h = check_response st resp h

  -- What follows the exchange in `cmac_append_and_send`.
  pub cmac_finish : Option ℕ → ℕ × List ℕ → Action W (List ℕ)
  cmac_finish out (st, resp) h =
      if not (st == operation_ok) && not (st == additional_frame)
      then (err esp_fail, h)
      else look_at out st resp (bump_ctr h)

  -- `out` is the capacity of the caller's buffer, or `none` where it passes NULL, 0, NULL. The
  -- local `params` has 256 bytes, and takes header, data and the 8 bytes of the MAC.
  pub cmac_append_and_send : ℕ → List ℕ → List ℕ → Option ℕ → Action W (List ℕ)
  cmac_append_and_send cmd header payload out h =
      let n = length header + length payload in
      if ltb 256 n
      then (err invalid_size, h)
      else if ltb 256 (n + 8)
      then (fault, h)
      else let body = header ++ payload in
        (desfire_xfer cmd (body ++ session_mac h cmd body) (room_of out) >>= cmac_finish out) h
