-- ===== src/Osdp/Reports.antt =====
-- main/osdp_pd.c: what the panel learns from the reports.
use osdp_reader_test_project.Common.{
  ℕ, ◌+◌, ◌-◌, ◌≤◌, ◌<◌, ◌≡◌, refl, ap, sym, ◌∙◌, true, false, Bool, List, [], ◌∷◌, ◌++◌, map,
  length, length-append, take, take-nil, take-cons, arith, append_assoc, append-nil,
}
use native.Mathlib.Decide.{dec_lt}
use mathlib.Core.List.{map-append}
use mathlib.Core.Path.{subst}
use osdp_reader_test_project.Common.Bytes.{All}
use osdp_reader_test_project.Leaf.Credential.{
  Cred, IsCred, leaf_pack_credential, leaf_unpack_credential,
}
use osdp_reader_test_project.Leaf.Credential.RoundTrip.{unpack-pack}
use osdp_reader_test_project.Reader.Types.{
  EventKind, evt_card_read_ok, evt_card_read_fail, evt_card_write_ok, evt_card_write_fail,
  evt_mode_changed, Event,
}
use osdp_reader_test_project.Osdp.{CardRead, card_read_event, post_card_read, report, drain_queue}

-- The payload is the credential as the card has it.
pub card_read_event-packed : (c : Cred) → (card_read_event c).payload ≡ leaf_pack_credential c
unfolding card_read_event leaf_pack_credential
card_read_event-packed c = refl

-- The credential of an event that is a card read.
pub card_of : EventKind → Cred → List Cred
card_of evt_card_read_ok c = c ∷ []
card_of _ c = []

pub cards_read : List Event → List Cred
cards_read [] = []
cards_read (e ∷ es) = card_of e.kind e.cred ++ cards_read es

abbrev pub decode : CardRead → Cred
decode r = leaf_unpack_credential r.payload

decode-card_read_event : (c : Cred) → IsCred c → decode (card_read_event c) ≡ c
decode-card_read_event c h =
    ap leaf_unpack_credential (card_read_event-packed c ∙ sym (append-nil (leaf_pack_credential c)))
    ∙ unpack-pack c [] h

-- What the driver relies on of libosdp, whose pool of `room` events holds those that wait for the
-- next poll of the panel: an event is queued where there is room, and refused where there is none.
pub record IsPool {P : Type 0} (submit : CardRead → P → Bool × P) (pool : P → List CardRead)
    (room : ℕ) : Type 0 where
  pub takes :
      (r : CardRead) (pd : P)
      → length (pool pd) < room
      → ((submit r pd).0 ≡ true) × (pool (submit r pd).1 ≡ pool pd ++ (r ∷ []))
  pub refuses :
      (r : CardRead) (pd : P)
      → room ≤ length (pool pd)
      → ((submit r pd).0 ≡ false) × (pool (submit r pd).1 ≡ pool pd)

module _ {P : Type 0} {submit : CardRead → P → Bool × P} {pool : P → List CardRead} {room : ℕ}
    (laws : IsPool submit pool room) where
  -- The pool, decoded, has the first of the credentials that it has room for.
  Keeps : List Cred → P → P → Type 0
  Keeps cs pd end =
      map decode (pool end) ≡ map decode (pool pd) ++ take (room - length (pool pd)) cs

  decode-post_card_read :
      (c : Cred) (pd : P)
      → IsCred c
      → length (pool pd) < room
      → (map decode (pool (post_card_read submit c pd)) ≡ map decode (pool pd) ++ (c ∷ []))
        × (length (pool (post_card_read submit c pd)) ≡ length (pool pd) + 1)
  unfolding post_card_read
  decode-post_card_read c pd h l =
      let (_, held) = laws.takes (card_read_event c) pd l in
      (
        ap (map decode) held
            ∙ map-append decode (pool pd) (card_read_event c ∷ [])
            ∙ ap (λ x. map decode (pool pd) ++ (x ∷ [])) (decode-card_read_event c h),
        ap length held ∙ length-append (pool pd) (card_read_event c ∷ []),
      )

  drain-report :
      (k : EventKind) (c : Cred) (es : List Event) (pd : P)
      → IsCred c
      → ((pd : P) → Keeps (cards_read es) pd (drain_queue submit es pd))
      → Keeps (card_of k c ++ cards_read es) pd (drain_queue submit es (report submit k c pd))
  unfolding report card_of Keeps post_card_read
  drain-report evt_card_read_ok c es pd h rest = elim (dec_lt (length (pool pd)) room) [
    | yes l ↦ ground (
      arith,
      decode-post_card_read c pd h l,
      rest (post_card_read submit c pd),
      take-cons (room - length (pool pd)) c (cards_read es),
      append_assoc (map decode (pool pd)) (c ∷ [])
          (take (room - length (pool pd) - 1) (cards_read es)),
    )
    | no full ↦
        let same = (laws.refuses (card_read_event c) pd (omega (arith, full))).1 in
        let none_left : room - length (pool pd) ≡ 0 = omega (arith, full) in
        subst
          (λ q.
            map decode (pool (drain_queue submit es (post_card_read submit c pd)))
            ≡ map decode q ++ take (room - length q) (cards_read es))
          same (rest (post_card_read submit c pd))
        ∙ ap (λ n. map decode (pool pd) ++ take n (cards_read es)) none_left
        ∙ ap (λ n. map decode (pool pd) ++ take n (c ∷ cards_read es)) (sym none_left)
  ]
  drain-report evt_card_read_fail c es pd h rest = rest pd
  drain-report evt_card_write_ok c es pd h rest = rest pd
  drain-report evt_card_write_fail c es pd h rest = rest pd
  drain-report evt_mode_changed c es pd h rest = rest pd

  -- While the queue is emptied, the credentials of the cards that were read, and of no other event,
  -- join the pool of libosdp for the panel, in the order of the events and as far as the pool has
  -- room; the others are lost. Decoded as leaf.c decodes the card, the reports in the pool are
  -- those credentials, where these fit their types.
  pub drain_queue-decoded :
      (es : List Event) (pd : P)
      → All (λ e. IsCred e.cred) es
      → map decode (pool (drain_queue submit es pd))
        ≡ map decode (pool pd) ++ take (room - length (pool pd)) (cards_read es)
  unfolding drain_queue cards_read Keeps
  drain_queue-decoded [] pd h =
      rw (take-nil (room - length (pool pd))) (sym (append-nil (map decode (pool pd))))
  drain_queue-decoded (e ∷ es) pd h =
      drain-report e.kind e.cred es pd h.0 (λ pd. drain_queue-decoded es pd h.1)
