-- ===== src/Console/Lines/Typed.antt =====
-- components/app_console/console.c: a line as it is typed, with its end.
use osdp_reader_test_project.Common.{
  ℕ, ◌≡◌, refl, ap, ◌∙◌, true, false, Option, none, some, List, [], ◌∷◌, ◌++◌, length, ◌==◌,
  if◌then◌else◌, arith,
}
use mathlib.Core.Path.{subst, sym}
use osdp_reader_test_project.Common.Bytes.{All}
use osdp_reader_test_project.Text.{isspace}
use osdp_reader_test_project.Leaf.{Nvs}
use osdp_reader_test_project.Leaf.Credential.{Cred, IsCred}
use osdp_reader_test_project.Reader.Types.{write}
use osdp_reader_test_project.Reader.{Queues, mode_get, mode_take_write_request}
use osdp_reader_test_project.Settings.{Settings}
use osdp_reader_test_project.Console.{Console, Reply, enroll_queued, dispatch}
use osdp_reader_test_project.Console.Tokens.{IsWord, join}
use osdp_reader_test_project.Console.Enroll.{enroll_words, enroll_words-AreWords, dispatch-armed}
use osdp_reader_test_project.Console.Lines.{is_eol, trim_line, console_round}

abbrev IsInner : List ℕ → Type 0
IsInner = All (λ c. is_eol c ≡ false)

not_eol : (c : ℕ) → isspace c ≡ false → is_eol c ≡ false
unfolding isspace
not_eol c e = ground (arith, e)

word-IsInner : (w : List ℕ) → All (λ c. isspace c ≡ false) w → IsInner w
word-IsInner [] h = tt
word-IsInner (c ∷ cs) h = (not_eol c h.0, word-IsInner cs h.1)

append-IsInner : (xs ys : List ℕ) → IsInner xs → IsInner ys → IsInner (xs ++ ys)
append-IsInner [] ys p q = q
append-IsInner (x ∷ xs) ys p q = (p.0, append-IsInner xs ys p.1 q)

join-IsInner : (ws : List (List ℕ)) → All IsWord ws → IsInner (join ws)
unfolding join
join-IsInner [] h = tt
join-IsInner (w ∷ []) h = word-IsInner w h.0.1
join-IsInner (w ∷ v ∷ ws) h =
    append-IsInner w (32 ∷ join (v ∷ ws)) (word-IsInner w h.0.1) (refl, join-IsInner (v ∷ ws) h.1)

enroll-nonempty : (c : Cred) → length (join (enroll_words c)) == 0 ≡ false
unfolding join
enroll-nonempty c = ground arith

-- The ends are taken off, and nothing else.
trim_line-end : (eols : List ℕ) → All (λ c. is_eol c ≡ true) eols → trim_line eols ≡ []
unfolding trim_line
trim_line-end [] h = refl
trim_line-end (c ∷ cs) h = rw (h.0, trim_line-end cs h.1) refl

trim_line_lem :
    (xs eols : List ℕ) → IsInner xs → All (λ c. is_eol c ≡ true) eols → trim_line (xs ++ eols) ≡ xs
unfolding trim_line
trim_line_lem [] eols p q = trim_line-end eols q
trim_line_lem (x ∷ xs) eols p q = rw (p.0, trim_line_lem xs eols p.1 q) refl

module _ {Q W V : Type 0} (queues : Queues Q) (nvs : Nvs W) (store : Settings V) where
  round_by : Console Q W V → List ℕ → Option Reply × Console Q W V
  round_by s line = if length line == 0 then (none, s) else dispatch queues nvs store line s

  -- A line that is typed to enroll a credential, its fields printed in decimal and with any line
  -- feeds and carriage returns at its end, puts the reader into the write mode with exactly that
  -- credential for the next card, if the fields fit their types, and the reply repeats it.
  pub console_round-armed :
      (c : Cred) (eols : List ℕ) (s : Console Q W V)
      → IsCred c
      → All (λ x. is_eol x ≡ true) eols
      → let (reply, s') = console_round queues nvs store (some (join (enroll_words c) ++ eols)) s in
        (reply ≡ some (enroll_queued c))
        × (mode_get s'.reader ≡ write)
        × ((mode_take_write_request s'.reader).0 ≡ some c)
  unfolding console_round round_by
  console_round-armed c eols s h ends =
      let line =
        trim_line_lem (join (enroll_words c)) eols
          (join-IsInner (enroll_words c) (enroll_words-AreWords c h)) ends in
      subst
        (λ r.
          (r.0 ≡ some (enroll_queued c))
          × (mode_get r.1.reader ≡ write)
          × ((mode_take_write_request r.1.reader).0 ≡ some c))
        (sym (
          ap (round_by s) line
          ∙ ap (λ b. if b then (none, s) else dispatch queues nvs store (join (enroll_words c)) s)
              (enroll-nonempty c)))
        (dispatch-armed queues nvs store c s h)
