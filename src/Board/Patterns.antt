-- ===== src/Board/Patterns.antt =====
-- components/board/board_io.c: the pattern that follows one that has been played.
use osdp_reader_test_project.Common.{◌≡◌, ◌⊎◌, refl, List, [], ◌∷◌, arith}
use osdp_reader_test_project.Reader.Types.{Indicator, ind_grant, ind_deny, ind_wrote_ok, ind_error}
use osdp_reader_test_project.Board.{Panel, set_pattern, show, revert}

-- Calls of `board_indicate` by other tasks, one after the other.
pub indicate_all : List Indicator → Panel → Panel
indicate_all [] b = b
indicate_all (p ∷ ps) b = indicate_all ps (set_pattern p b)

indicate_all-resting : (ps : List Indicator) (b : Panel) → (indicate_all ps b).resting ≡ b.resting
unfolding indicate_all set_pattern
indicate_all-resting [] b = refl
indicate_all-resting (p ∷ ps) b = indicate_all-resting ps (set_pattern p b)

abbrev pub IsEvent : Indicator → Type 0
IsEvent p = (p ≡ ind_grant) ⊎ (p ≡ ind_deny) ⊎ (p ≡ ind_wrote_ok) ⊎ (p ≡ ind_error)

reverted : (p : Indicator) (b : Panel) → IsEvent p → (revert p b).pattern ≡ b.resting
unfolding revert set_pattern
reverted p b e = ground (arith, e)

shown : (p : Indicator) (b : Panel) → IsEvent p → (show p b).1 ≡ b
unfolding show
shown p b e = ground (arith, e)

-- Whatever patterns the other tasks ask for while an event pattern plays, they are lost: the
-- pattern that follows is the one that the indicator rested in before.
pub indications_lost :
    (p : Indicator) (ps : List Indicator) (b : Panel)
    → IsEvent p
    → (revert p (indicate_all ps (show p b).1)).pattern ≡ b.resting
indications_lost p ps b e =
    rw (shown p b e, reverted p (indicate_all ps b) e) (indicate_all-resting ps b)
