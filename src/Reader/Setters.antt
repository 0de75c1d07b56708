-- ===== src/Reader/Setters.antt =====
-- components/reader_core/mode_controller.c: `mode_set` called by several tasks, whose steps
-- interleave. A step is the exchange of the mode, `apply_indicator`, and in the loop of
-- `mode_post_event`, which takes no lock, a send to one subscriber, the load of its `drops` or the
-- store of it.
pub mod Posted
pub mod Torn
use osdp_reader_test_project.Common.{
  ℕ, suc, ◌+◌, ◌%◌, ◌^◌, ◌≡◌, true, false, some, none, List, [], ◌∷◌, ◌++◌, length,
}
use osdp_reader_test_project.Reader.Types.{Mode, mode_eq}
use osdp_reader_test_project.Reader.{Queues, Subscriber, Reader, apply_indicator, mode_event}

-- Where a task stands in `mode_set`: outside, after an exchange that has changed the mode, in the
-- loop before the subscriber `i`, after a send to it that has failed, and with its `drops` loaded.
pub data Place : Type 0 where
  outside : Place
  changed : Mode → Place
  sending : Mode → ℕ → Place
  refused : Mode → ℕ → Place
  loaded : Mode → ℕ → ℕ → Place

module _ {Q : Type 0} (queues : Queues Q) where
  -- One step of one task. `atomic_exchange` stores the mode and says whether it was another. The
  -- subscriber `i` is that behind `front`.
  pub data Move (r : Reader Q) : Place → Reader Q → Place → Type 0 where
    same : (m : Mode) → mode_eq r.mode m ≡ true → Move r outside (record r { mode = m }) outside
    change :
        (m : Mode) → mode_eq r.mode m ≡ false → Move r outside (record r { mode = m }) (changed m)
    show : (m : Mode) → Move r (changed m) (apply_indicator m r) (sending m 0)
    send :
        (m : Mode) (i : ℕ) (front back : List (Subscriber Q)) (s : Subscriber Q) (q' : Q)
        → r.subs ≡ front ++ (s ∷ back)
        → i ≡ length front
        → queues.send (mode_event m) s.q ≡ some q'
        → Move r
            (sending m i)
            (record r { subs = front ++ (record s { q = q' } ∷ back) })
            (sending m (i + 1))
    refuse :
        (m : Mode) (i : ℕ) (front back : List (Subscriber Q)) (s : Subscriber Q)
        → r.subs ≡ front ++ (s ∷ back)
        → i ≡ length front
        → queues.send (mode_event m) s.q ≡ none
        → Move r (sending m i) r (refused m i)
    load :
        (m : Mode) (i : ℕ) (front back : List (Subscriber Q)) (s : Subscriber Q)
        → r.subs ≡ front ++ (s ∷ back)
        → i ≡ length front
        → Move r (refused m i) r (loaded m i s.drops)
    store :
        (m : Mode) (i d : ℕ) (front back : List (Subscriber Q)) (s : Subscriber Q)
        → r.subs ≡ front ++ (s ∷ back)
        → i ≡ length front
        → Move r
            (loaded m i d)
            (record r { subs = front ++ (record s { drops = (d + 1) % 2 ^ 32 } ∷ back) })
            (sending m (i + 1))
    finish : (m : Mode) (i : ℕ) → i ≡ length r.subs → Move r (sending m i) r outside

-- The globals, and where each task stands.
pub record System (Q : Type 0) : Type 0 where
  pub reader : Reader Q
  pub tasks : List Place

module _ {Q : Type 0} (queues : Queues Q) where
  -- Any task may go next.
  pub data Step (s : System Q) : System Q → Type 0 where
    turn :
        (before after : List Place) {p p' : Place} {r : Reader Q}
        → s.tasks ≡ before ++ (p ∷ after)
        → Move queues s.reader p r p'
        → Step s (record { reader = r; tasks = before ++ (p' ∷ after) })

  pub data Runs (s : System Q) : System Q → Type 0 where
    here : Runs s s
    next : {t u : System Q} → Runs s t → Step t u → Runs s u

module _ {Q : Type 0} {queues : Queues Q} where
  -- The mode that a step changes to, and the one whose posting it ends.
  abbrev pub changed_by : {r r' : Reader Q} {p p' : Place} → Move queues r p r' p' → List Mode
  changed_by (change m _) = m ∷ []
  changed_by _ = []

  abbrev pub posted_by : {r r' : Reader Q} {p p' : Place} → Move queues r p r' p' → List Mode
  posted_by (finish m _ _) = m ∷ []
  posted_by _ = []

  -- The modes that the exchanges of a run have changed to, and those that it has posted
  -- to every subscriber.
  pub changes : {s t : System Q} → Runs queues s t → List Mode
  changes here = []
  changes (next run (turn _ _ _ move)) = changes run ++ changed_by move

  pub posts : {s t : System Q} → Runs queues s t → List Mode
  posts here = []
  posts (next run (turn _ _ _ move)) = posts run ++ posted_by move
