-- ===== src/Console/Enroll.antt =====
-- components/app_console/console.c: a line of the operator, and what the NFC task finds.
use osdp_reader_test_project.Common.{
  ℕ, ◌%◌, ◌^◌, ◌≡◌, refl, ap, ◌∙◌, none, some, List, [], ◌∷◌, length, ◌==◌, arith, if◌then◌else◌,
  mem_eq,
}
use osdp_reader_test_project.Common.Bytes.{All}
use osdp_reader_test_project.Text.{chars, isspace, strtoul, print_unsigned}
use osdp_reader_test_project.Text.Decimal.{strtoul-print_unsigned, print_unsigned-IsWord}
use osdp_reader_test_project.Settings.{Settings}
use osdp_reader_test_project.Leaf.{Nvs}
use osdp_reader_test_project.Leaf.Credential.{Cred, IsCred}
use osdp_reader_test_project.Reader.Types.{write}
use osdp_reader_test_project.Reader.{
  Queues, mode_get, mode_set, mode_set_write_request, mode_take_write_request,
}
use osdp_reader_test_project.Reader.Writes.{request-armed}
use osdp_reader_test_project.Console.{
  Console, Reply, enroll_queued, arg, enroll_cred, cmd_enroll, run_command, dispatch,
}
use osdp_reader_test_project.Console.Tokens.{IsWord, join, split_args-join}

-- The words of the command that enrolls a credential.
abbrev pub enroll_words : Cred → List (List ℕ)
enroll_words c =
    chars "enroll"
    ∷ print_unsigned c.facility
    ∷ print_unsigned c.card_id
    ∷ print_unsigned c.issue_date
    ∷ []

pub enroll_words-AreWords : (c : Cred) → IsCred c → All IsWord (enroll_words c)
unfolding isspace
enroll_words-AreWords c h = (
  (omega arith, (refl, (refl, (refl, (refl, (refl, (refl, tt))))))),
  (
    print_unsigned-IsWord c.facility (omega (arith, h.facility_fits)),
    (
      print_unsigned-IsWord c.card_id h.card_id_fits,
      (print_unsigned-IsWord c.issue_date h.issue_date_fits, tt),
    ),
  ),
)

enroll_cred-words : (c : Cred) → IsCred c → enroll_cred (enroll_words c) ≡ c
unfolding enroll_cred arg
enroll_cred-words c h =
    let f : strtoul (print_unsigned c.facility) % 2 ^ 16 ≡ c.facility =
      ap (λ n. n % 2 ^ 16) (strtoul-print_unsigned c.facility (omega (arith, h.facility_fits)))
      ∙ (let e : c.facility % 2 ^ 16 ≡ c.facility = omega (arith, h.facility_fits) in e) in
    let i : strtoul (print_unsigned c.card_id) % 2 ^ 32 ≡ c.card_id =
      ap (λ n. n % 2 ^ 32) (strtoul-print_unsigned c.card_id h.card_id_fits)
      ∙ (let e : c.card_id % 2 ^ 32 ≡ c.card_id = omega (arith, h.card_id_fits) in e) in
    let d : strtoul (print_unsigned c.issue_date) % 2 ^ 32 ≡ c.issue_date =
      ap (λ n. n % 2 ^ 32) (strtoul-print_unsigned c.issue_date h.issue_date_fits)
      ∙ (let e : c.issue_date % 2 ^ 32 ≡ c.issue_date = omega (arith, h.issue_date_fits) in e) in
    rw (f, i, d) refl

module _ {Q W V : Type 0} (queues : Queues Q) (nvs : Nvs W) (store : Settings V) where
  enroll_runs :
      (c : Cred) (s : Console Q W V)
      → run_command queues nvs store (enroll_words c) s ≡ (
        enroll_queued (enroll_cred (enroll_words c)),
        record s {
          reader =
              mode_set queues write
                (mode_set_write_request (enroll_cred (enroll_words c)) s.reader);
        },
      )
  unfolding run_command cmd_enroll arg mem_eq
  enroll_runs c s = refl

  dispatch-enroll :
      (c : Cred) (s : Console Q W V)
      → IsCred c
      → dispatch queues nvs store (join (enroll_words c)) s ≡ (
        some (enroll_queued c),
        record s { reader = mode_set queues write (mode_set_write_request c s.reader) },
      )
  unfolding dispatch
  dispatch-enroll c s h =
      let words = split_args-join 8 (enroll_words c) (enroll_words-AreWords c h) (omega arith) in
      ap
        (λ ws.
          if length ws == 0
          then (none, s)
          else (some (run_command queues nvs store ws s).0, (run_command queues nvs store ws s).1))
        words
      ∙ ap (λ (x : Reply × Console Q W V). (some x.0, x.1)) (enroll_runs c s)
      ∙ ap
          (λ k. (
            some (enroll_queued k),
            record s { reader = mode_set queues write (mode_set_write_request k s.reader) },
          ))
          (enroll_cred-words c h)

  -- The line that enrolls a credential, its fields printed in decimal, puts the reader into the
  -- write mode with exactly that credential for the next card, if the fields fit their types, and
  -- the reply repeats it.
  pub dispatch-armed :
      (c : Cred) (s : Console Q W V)
      → IsCred c
      → let (reply, s') = dispatch queues nvs store (join (enroll_words c)) s in
        (reply ≡ some (enroll_queued c))
        × (mode_get s'.reader ≡ write)
        × ((mode_take_write_request s'.reader).0 ≡ some c)
  dispatch-armed c s h =
      rw (dispatch-enroll c s h)
        (refl, (request-armed queues c s.reader).0, (request-armed queues c s.reader).1)
