-- ===== src/Reader/Setters/Torn.antt =====
-- components/reader_core/mode_controller.c: two calls of `mode_set` that overlap.
use osdp_reader_test_project.Common.{ap, ◌∙◌, ◌≡◌, List, [], ◌∷◌, ◌++◌, append_assoc, sym}
use osdp_reader_test_project.Reader.Types.{Mode, Event}
use osdp_reader_test_project.Reader.{Queues, Subscriber, Reader, post_to, post_all}
use osdp_reader_test_project.Reader.Setters.{Place, outside, System, Runs, changes, posts}

module _ {Q : Type 0} (queues : Queues Q) where
  -- Two tasks outside of `mode_set`.
  abbrev pub pair : Reader Q → System Q
  pair r = record { reader = r; tasks = outside ∷ outside ∷ [] }

  at : Reader Q → List Place → System Q
  at r ps = record { reader = r; tasks = ps }

  -- A run with its changes and its posts.
  abbrev Told : System Q → System Q → List Mode → List Mode → Type 0
  Told s t cs ps = (run : Runs queues s t) × (changes run ≡ cs) × (posts run ≡ ps)

  -- The subscribers when one more is served.
  served :
      (e : Event) (front back : List (Subscriber Q)) (s s' : Subscriber Q)
      → post_to queues e s ≡ s'
      → front ++ (post_to queues e s ∷ post_all queues e back)
        ≡ (front ++ (s' ∷ [])) ++ post_all queues e back
  served e front back s s' is =
      ap (λ x. front ++ (x ∷ post_all queues e back)) is
      ∙ sym (append_assoc front (s' ∷ []) (post_all queues e back))
