-- ===== src/Reader/Bus.antt =====
-- components/reader_core/mode_controller.c: the event bus under a subscriber that does not read.
use osdp_reader_test_project.Common.{
  ℕ, ◌+◌, ◌-◌, ◌^◌, ◌≤◌, ◌<◌, ◌≡◌, refl, ap, none, some, List, [], ◌∷◌, ◌++◌, length, length-append,
  take, take-nil, take-cons, arith, append_assoc, append-nil, ◌∙◌, sym,
}
use native.Mathlib.Decide.{dec_lt}
use osdp_reader_test_project.Reader.Types.{Event}
use osdp_reader_test_project.Reader.{Queues, Subscriber, Reader, post_to, post_all, mode_post_event}

-- What the code relies on of a FreeRTOS queue of `cap` places, with `items` for its content: a
-- send with no waiting appends where there is room, and fails where there is none.
pub record IsQueue {Q : Type 0} (queues : Queues Q) (items : Q → List Event) (cap : ℕ)
    : Type 0 where
  pub send_room :
      (e : Event) (q : Q)
      → length (items q) < cap
      → (q' : Q) × (queues.send e q ≡ some q') × (items q' ≡ items q ++ (e ∷ []))
  pub send_full : (e : Event) (q : Q) → cap ≤ length (items q) → queues.send e q ≡ none

module _ {Q : Type 0} (queues : Queues Q) where
  -- Posting the events one after the other, to one subscriber and to the bus.
  unfoldable pub post_each : List Event → Subscriber Q → Subscriber Q
  post_each [] s = s
  post_each (e ∷ es) s = post_each es (post_to queues e s)

  pub post_events : List Event → Reader Q → Reader Q
  post_events [] r = r
  post_events (e ∷ es) r = post_events es (mode_post_event queues e r)

  unfoldable pub map_subs :
      (Subscriber Q → Subscriber Q) → List (Subscriber Q) → List (Subscriber Q)
  map_subs f [] = []
  map_subs f (s ∷ ss) = f s ∷ map_subs f ss

  map_subs_post :
      (e : Event) (es : List Event) (ss : List (Subscriber Q))
      → map_subs (post_each es) (post_all queues e ss) ≡ map_subs (post_each (e ∷ es)) ss
  unfolding map_subs post_all post_each
  map_subs_post e es [] = refl
  map_subs_post e es (s ∷ ss) =
      ap (λ t. post_each es (post_to queues e s) ∷ t) (map_subs_post e es ss)

  map_subs_nil : (ss : List (Subscriber Q)) → map_subs (post_each []) ss ≡ ss
  unfolding map_subs post_each
  map_subs_nil [] = refl
  map_subs_nil (s ∷ ss) = ap (λ t. s ∷ t) (map_subs_nil ss)

  -- No subscriber sees the others: the bus treats each as if it were alone.
  pub post_events_each :
      (es : List Event) (r : Reader Q) → (post_events es r).subs ≡ map_subs (post_each es) r.subs
  unfolding post_events mode_post_event
  post_events_each [] r = sym (map_subs_nil r.subs)
  post_events_each (e ∷ es) r = post_events_each es (mode_post_event queues e r) ∙ step
    where
      step :
          map_subs (post_each es) (mode_post_event queues e r).subs
          ≡ map_subs (post_each (e ∷ es)) r.subs
      step = map_subs_post e es r.subs

  module _ {items : Q → List Event} (laws : IsQueue queues items 8) where
    post_to_room :
        (e : Event) (s : Subscriber Q)
        → length (items s.q) < 8
        → (items (post_to queues e s).q ≡ items s.q ++ (e ∷ []))
          × ((post_to queues e s).drops ≡ s.drops)
    unfolding post_to
    post_to_room e s h =
        let (q', sent, held) = laws.send_room e s.q h in rw (sent, post_to) (held, refl)

    post_to_full :
        (e : Event) (s : Subscriber Q)
        → 8 ≤ length (items s.q)
        → s.drops + 1 < 2 ^ 32
        → (items (post_to queues e s).q ≡ items s.q) × ((post_to queues e s).drops ≡ s.drops + 1)
    unfolding post_to
    post_to_full e s h fits = rw (laws.send_full e s.q h, post_to) (refl, omega arith)

    -- A subscriber that does not read keeps the first events that fit its queue of 8, in order,
    -- and counts each of the others as dropped, as long as the counter does not wrap.
    pub post_each_lem :
        (es : List Event) (s : Subscriber Q)
        → s.drops + length es < 2 ^ 32
        → let room = 8 - length (items s.q) in
          (items (post_each es s).q ≡ items s.q ++ take room es)
          × ((post_each es s).drops ≡ s.drops + (length es - room))
    unfolding post_each
    post_each_lem [] s fits =
        (rw (take-nil (8 - length (items s.q))) (sym (append-nil (items s.q))), omega arith)
    post_each_lem (e ∷ es) s fits = elim (dec_lt (length (items s.q)) 8) [
      | yes room ↦ ground (
        arith,
        post_to_room e s room,
        post_each_lem es (post_to queues e s),
        length-append (items s.q) (e ∷ []),
        take-cons (8 - length (items s.q)) e es,
        append_assoc (items s.q) (e ∷ []) (take (8 - length (items s.q) - 1) es),
      )
      | no full ↦ ground (
        arith,
        post_to_full e s (omega arith) (omega arith),
        post_each_lem es (post_to queues e s),
      )
    ]
