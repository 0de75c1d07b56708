-- ===== src/Console/Lines.antt =====
-- components/app_console/console.c: the loop of `console_task`, from a line of the terminal to its
-- command.
pub mod Typed
use osdp_reader_test_project.Common.{
  ℕ, ◌≡◌, refl, ap, ◌∙◌, Bool, true, false, ◌&&◌, ◌||◌, Option, none, some, List, [], ◌∷◌, ◌++◌,
  length, ◌==◌, if◌then◌else◌, arith,
}
use osdp_reader_test_project.Desfire.State.{Platform}
use osdp_reader_test_project.Leaf.{Nvs}
use osdp_reader_test_project.Reader.{Queues}
use osdp_reader_test_project.Settings.{Settings}
use osdp_reader_test_project.Console.{Console, Reply, dispatch}

abbrev pub is_eol : ℕ → Bool
is_eol c = (c == 10) || (c == 13)

-- The loop that takes line feeds and carriage returns off the end.
pub trim_line : List ℕ → List ℕ
trim_line [] = []
trim_line (c ∷ cs) =
    let rest = trim_line cs in if is_eol c && (length rest == 0) then [] else c ∷ rest

module _ {Q W V : Type 0} (queues : Queues Q) (nvs : Nvs W) (store : Settings V) where
  -- One round of `console_task`: what `fgets` gave, if anything. A line with nothing but its end
  -- is skipped.
  pub console_round : Option (List ℕ) → Console Q W V → Option Reply × Console Q W V
  console_round none s = (none, s)
  console_round (some line) s =
      if length (trim_line line) == 0
      then (none, s)
      else dispatch queues nvs store (trim_line line) s

  pub console_rounds : List (Option (List ℕ)) → Console Q W V → Console Q W V
  console_rounds [] s = s
  console_rounds (l ∷ ls) s = console_rounds ls (console_round l s).1
