-- ===== src/Reader/Writes.antt =====
-- components/reader_core/mode_controller.c: the pending write request refines a slot for at most
-- one credential.
use osdp_reader_test_project.Common.{
  ◌≡◌, refl, ap, Option, none, some, List, [], ◌∷◌, arith, if◌then◌else◌,
}
use osdp_reader_test_project.Leaf.Credential.{Cred}
use osdp_reader_test_project.Reader.Types.{write, mode_eq}
use osdp_reader_test_project.Reader.{
  Queues, Reader, apply_indicator, mode_get, mode_post_event, mode_set, mode_set_write_request,
  mode_take_write_request,
}

-- What the console and the web page ask for, and what the NFC task does.
pub data SlotOp : Type 0 where
  put : Cred → SlotOp
  take_out : SlotOp

-- The abstract slot: a put replaces, a take empties. The list has the result of each take.
pub run_slot : Option Cred → List SlotOp → List (Option Cred)
run_slot s [] = []
run_slot s (put c ∷ ops) = run_slot (some c) ops
run_slot s (take_out ∷ ops) = s ∷ run_slot none ops

module _ {Q : Type 0} where
  abbrev pub slot : Reader Q → Option Cred
  slot r = if r.write_pending then some r.write_cred else none

  pub run_requests : Reader Q → List SlotOp → List (Option Cred)
  run_requests r [] = []
  run_requests r (put c ∷ ops) = run_requests (mode_set_write_request c r) ops
  run_requests r (take_out ∷ ops) =
      let (c, r') = mode_take_write_request r in c ∷ run_requests r' ops

  take_result : (r : Reader Q) → (mode_take_write_request r).0 ≡ slot r
  unfolding mode_take_write_request
  take_result r = ground arith

  take_empties : (r : Reader Q) → slot (mode_take_write_request r).1 ≡ none
  unfolding mode_take_write_request
  take_empties r = ground arith

  set_fills : (c : Cred) (r : Reader Q) → slot (mode_set_write_request c r) ≡ some c
  unfolding mode_set_write_request
  set_fills c r = refl

  -- Any sequence of requests and takes returns what the one-place slot returns: each take gets the
  -- last credential put since the take before it, once, or nothing.
  pub run_requests_refines :
      (r : Reader Q) (ops : List SlotOp) → run_requests r ops ≡ run_slot (slot r) ops
  unfolding run_requests run_slot
  run_requests_refines r [] = refl
  run_requests_refines r (put c ∷ ops) =
      rw (run_requests_refines (mode_set_write_request c r) ops, set_fills c r) refl
  run_requests_refines r (take_out ∷ ops) =
      rw (run_requests_refines (mode_take_write_request r).1 ops, take_empties r, take_result r)
        refl

module _ {Q : Type 0} (queues : Queues Q) where
  mode_set-keeps :
      (r : Reader Q)
      → ((mode_set queues write r).mode ≡ write)
        × ((mode_set queues write r).write_cred ≡ r.write_cred)
        × ((mode_set queues write r).write_pending ≡ r.write_pending)
  unfolding mode_set mode_post_event apply_indicator mode_eq
  mode_set-keeps r = ground arith

  -- A request, and then the write mode: the next take in that mode gets the credential.
  pub request-armed :
      (c : Cred) (r : Reader Q)
      → let r' = mode_set queues write (mode_set_write_request c r) in
        (mode_get r' ≡ write) × ((mode_take_write_request r').0 ≡ some c)
  unfolding mode_set_write_request mode_take_write_request mode_get
  request-armed c r =
      let k = mode_set-keeps (mode_set_write_request c r) in (k.0, rw (k.2) (ap some k.1))
