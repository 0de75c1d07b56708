-- ===== src/Reader/Setters/Posted.antt =====
-- components/reader_core/mode_controller.c: what the calls of `mode_set` leave, in every order of
-- their steps.
use osdp_reader_test_project.Common.{ℕ, ◌+◌, List, [], ◌∷◌, if◌then◌else◌}
use osdp_reader_test_project.Reader.Types.{Mode, mode_eq}
use osdp_reader_test_project.Reader.{Reader}
use osdp_reader_test_project.Reader.Setters.{Place, outside, changed, sending, refused, loaded}

pub count : Mode → List Mode → ℕ
count m [] = 0
count m (x ∷ xs) = (if mode_eq m x then 1 else 0) + count m xs

-- The changes to `m` that their tasks have not posted yet.
abbrev pub weight : Mode → Place → ℕ
weight m outside = 0
weight m (changed x) = if mode_eq m x then 1 else 0
weight m (sending x _) = if mode_eq m x then 1 else 0
weight m (refused x _) = if mode_eq m x then 1 else 0
weight m (loaded x _ _) = if mode_eq m x then 1 else 0

pub in_flight : Mode → List Place → ℕ
in_flight m [] = 0
in_flight m (p ∷ ps) = weight m p + in_flight m ps

-- The last of `ms`, or `m` where there is none.
pub last_or : Mode → List Mode → Mode
last_or m [] = m
last_or m (x ∷ xs) = last_or x xs
