-- ===== src/NfcTask/Outcomes.antt =====
-- main/nfc_task.c: what a new card leads to, by the mode.
use osdp_reader_test_project.Common.{
  ℕ, ◌≡◌, Bool, false, List, arith, Bool-cases, inl, inr, if◌then◌else◌,
}
use osdp_reader_test_project.Esp.{Outcome, ok, err, fault, is_ok}
use osdp_reader_test_project.Desfire.State.{Platform, Host}
use osdp_reader_test_project.Leaf.{Nvs, leaf_read, leaf_personalize}
use osdp_reader_test_project.Leaf.Credential.{Cred}
use osdp_reader_test_project.Leaf.Read.{leaf_read_never_ok}
use osdp_reader_test_project.Reader.Types.{
  read, write, ind_deny, ind_wrote_ok, ind_error, evt_card_read_fail, evt_card_write_ok,
  evt_card_write_fail,
}
use osdp_reader_test_project.Reader.{
  Queues, Reader, no_cred, mode_get, post_all, mode_post_event, mode_take_write_request,
}
use osdp_reader_test_project.Reader.Writes.{slot}
use osdp_reader_test_project.NfcTask.{
  Front, Task, card_event, report_read, report_write, cred_or_dummy, dummy_cred, serve_card, served,
  after_poll,
}

module _ {W Q : Type 0} (p : Platform W) (nvs : Nvs W) (queues : Queues Q) (front : Front W) where
  -- What a card that is read in vain leaves: the pattern of a denial, and one failed-read event.
  abbrev pub Denied : List ℕ → Reader Q → Reader Q → Type 0
  Denied uid r r' =
      (r'.indicator ≡ ind_deny)
      × (r'.subs ≡ post_all queues (card_event evt_card_read_fail read no_cred uid) r.subs)

  report_read-Denied :
      (uid : List ℕ) (r : Reader Q) (e : Outcome Cred) (h : Host W) {t' : Task W Q}
      → is_ok e ≡ false
      → served front (report_read queues uid e r) h ≡ ok t'
      → Denied uid r t'.reader
  unfolding served report_read mode_post_event
  report_read-Denied uid r (ok c) h x q = cc
  report_read-Denied uid r (err e) h x q = ground arith
  report_read-Denied uid r fault h x q = ground arith

  -- In read mode every card that is presented is denied: the iteration shows the denial pattern
  -- and posts one failed-read event, and nothing else, to every subscriber.
  pub read_mode_denies :
      (junk uid : List ℕ) (t : Task W Q) {t' : Task W Q}
      → t.card_in_field ≡ false
      → t.reader.mode ≡ read
      → after_poll p nvs queues front junk (ok uid) t ≡ ok t'
      → Denied uid t.reader t'.reader
  unfolding after_poll serve_card mode_get
  read_mode_denies junk uid t {t'} fresh in_read q =
      report_read-Denied uid t.reader (leaf_read p nvs uid t.host).0 (leaf_read p nvs uid t.host).1
        {t' = t'} (leaf_read_never_ok p nvs uid t.host) (ground arith)

  -- What a card presented in write mode leaves.
  abbrev pub Wrote : List ℕ → Cred → Bool → Reader Q → Reader Q → Type 0
  Wrote uid c done r r' =
      (r'.write_pending ≡ false)
      × (r'.indicator ≡ (if done then ind_wrote_ok else ind_error))
      × (r'.subs
          ≡ post_all queues
              (if done
                then card_event evt_card_write_ok write c uid
                else card_event evt_card_write_fail write no_cred uid)
              r.subs)

  report_write-Wrote :
      (uid : List ℕ) (c : Cred) (r : Reader Q) (e : Outcome (List ℕ)) (h : Host W) {t' : Task W Q}
      → r.write_pending ≡ false
      → served front (report_write queues uid c e r) h ≡ ok t'
      → Wrote uid c (is_ok e) r t'.reader
  unfolding served report_write mode_post_event
  report_write-Wrote uid c r (ok _) h x q = ground arith
  report_write-Wrote uid c r (err e) h x q = ground arith
  report_write-Wrote uid c r fault h x q = ground arith

  -- In write mode the card is personalised with the queued credential, or with the dummy one if
  -- none is queued; the request is used up whether or not that succeeds, and the pattern and the
  -- one event that is posted say which it was.
  pub write_mode_lem :
      (junk uid : List ℕ) (t : Task W Q) {t' : Task W Q}
      → t.card_in_field ≡ false
      → t.reader.mode ≡ write
      → after_poll p nvs queues front junk (ok uid) t ≡ ok t'
      → let c = cred_or_dummy (slot t.reader) in
        Wrote uid c (is_ok (leaf_personalize p nvs junk uid c t.host).0) t.reader t'.reader
  unfolding after_poll serve_card mode_get mode_take_write_request cred_or_dummy
  write_mode_lem junk uid t {t'} fresh in_write q = elim (Bool-cases t.reader.write_pending) [
    | inl queued ↦ ground (
      arith,
      report_write-Wrote uid t.reader.write_cred r (result t.reader.write_cred).0
          (result t.reader.write_cred).1 {t' = t'},
    )
    | inr empty ↦ ground (
      arith,
      report_write-Wrote uid dummy_cred t.reader (result dummy_cred).0 (result dummy_cred).1
          {t' = t'},
    )
  ]
    where
      r : Reader Q
      r = let s = t.reader in record s { write_pending = false }

      result : Cred → Outcome (List ℕ) × Host W
      result c = leaf_personalize p nvs junk uid c t.host
