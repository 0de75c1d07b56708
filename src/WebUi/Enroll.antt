-- ===== src/WebUi/Enroll.antt =====
-- components/webui/webui.c: the enrolment from the web page.
use osdp_reader_test_project.Common.{
  ℕ, ◌-◌, ◌%◌, ◌^◌, ◌≤◌, ◌<◌, ◌≡◌, refl, ap, sym, ◌∙◌, false, ◌||◌, Option, none, some, List, [],
  ◌∷◌, ◌++◌, ◌==◌, arith, if◌then◌else◌, mem_eq, min,
}
use osdp_reader_test_project.Common.Bytes.{All}
use osdp_reader_test_project.Text.{chars, digit_of, print_unsigned}
use osdp_reader_test_project.Text.Decimal.{strtol-decimal, print_unsigned_first, All-decimal}
use osdp_reader_test_project.Settings.{Settings}
use osdp_reader_test_project.Leaf.{Nvs}
use osdp_reader_test_project.Leaf.Credential.{Cred, IsCred}
use osdp_reader_test_project.Reader.Types.{write}
use osdp_reader_test_project.Reader.{
  Queues, mode_get, mode_set, mode_set_write_request, mode_take_write_request,
}
use osdp_reader_test_project.Reader.Writes.{request-armed}
use osdp_reader_test_project.Console.{Console}
use osdp_reader_test_project.WebUi.{
  strip, or_else_try, strstr, skip_colon, or_null, value_at, find_key, quoted, closed, copy_str,
  get_str, number_at, get_int, WsReply, ws_error, ws_ack, or_zero, web_cred, ws_enroll, run_ws,
  handle_ws_command,
}

-- The message of the page.
abbrev date_part : Cred → List ℕ
date_part c = chars ",\"date\":" ++ (print_unsigned c.issue_date ++ chars "}")

abbrev id_part : Cred → List ℕ
id_part c = chars ",\"id\":" ++ (print_unsigned c.card_id ++ date_part c)

abbrev pub enroll_message : Cred → List ℕ
enroll_message c =
    chars "{\"cmd\":\"enroll\",\"facility\":" ++ (print_unsigned c.facility ++ id_part c)

has_cmd : (c : Cred) → get_str (enroll_message c) (chars "cmd") 16 ≡ some (chars "enroll")
unfolding get_str find_key strstr strip or_else_try value_at skip_colon or_null quoted closed
    copy_str
has_cmd c = refl

value_at-number :
    (n : ℕ) (r : List ℕ)
    → n < 2 ^ 32
    → value_at (some (58 ∷ (print_unsigned n ++ r))) ≡ some (print_unsigned n ++ r)
unfolding value_at skip_colon or_null
value_at-number n r small =
    let (c, cs, e, lo, hi, nonzero) = print_unsigned_first n (omega (arith, small)) in
    ap (λ s. value_at (some (58 ∷ (s ++ r)))) e
    ∙ stays c (cs ++ r) lo hi
    ∙ sym (ap (λ s. some (s ++ r)) e)
  where
    stays : (c : ℕ) (cs : List ℕ) → 48 ≤ c → c ≤ 57 → value_at (some (58 ∷ c ∷ cs)) ≡ some (c ∷ cs)
    stays c cs lo hi =
        let e : (c == 32 || c == 58 || c == 9) ≡ false = ground (arith, lo, hi) in
        ap (λ b. or_null (if b then skip_colon cs else c ∷ cs)) e

-- A key is not found in digits.
strstr-digits :
    (needle xs r : List ℕ)
    → All (λ c. (c == 34) ≡ false) xs
    → strstr (34 ∷ needle) (xs ++ r) ≡ strstr (34 ∷ needle) r
unfolding strstr strip or_else_try
strstr-digits needle [] r h = refl
strstr-digits needle (c ∷ cs) r h =
    let e : (34 == c) ≡ false = ground (arith, h.0) in rw e (strstr-digits needle cs r h.1)

strstr-number :
    (needle : List ℕ) (n : ℕ) (r : List ℕ)
    → strstr (34 ∷ needle) (print_unsigned n ++ r) ≡ strstr (34 ∷ needle) r
strstr-number needle n r =
    strstr-digits needle (print_unsigned n) r
      (All-decimal (λ c. (c == 34) ≡ false) (λ d h. ground (arith, h)) 10 n)

finds_facility :
    (c : Cred)
    → IsCred c
    → find_key (enroll_message c) (chars "facility") ≡ some (print_unsigned c.facility ++ id_part c)
unfolding find_key strstr strip or_else_try
finds_facility c h = value_at-number c.facility (id_part c) (omega (arith, h.facility_fits))

finds_id :
    (c : Cred)
    → IsCred c
    → find_key (enroll_message c) (chars "id") ≡ some (print_unsigned c.card_id ++ date_part c)
unfolding find_key strstr strip or_else_try
finds_id c h =
    ap value_at (strstr-number (chars "id\"") c.facility (id_part c))
    ∙ value_at-number c.card_id (date_part c) h.card_id_fits

finds_date :
    (c : Cred)
    → IsCred c
    → find_key (enroll_message c) (chars "date") ≡ some (print_unsigned c.issue_date ++ chars "}")
unfolding find_key strstr strip or_else_try
finds_date c h =
    ap value_at (
      strstr-number (chars "date\"") c.facility (id_part c)
      ∙ strstr-number (chars "date\"") c.card_id (date_part c))
    ∙ value_at-number c.issue_date (chars "}") h.issue_date_fits

-- What the page's numbers become.
abbrev pub clamped : Cred → Cred
clamped c = record {
  facility = c.facility;
  card_id = min c.card_id (2 ^ 31 - 1);
  issue_date = min c.issue_date (2 ^ 31 - 1);
}

casts :
    (c : Cred)
    → IsCred c
    → web_cred
        (some (min c.facility (2 ^ 31 - 1)))
        (some (min c.card_id (2 ^ 31 - 1)))
        (some (min c.issue_date (2 ^ 31 - 1)))
      ≡ some (clamped c)
unfolding web_cred or_zero
casts c h =
    let f : min c.facility (2 ^ 31 - 1) % 2 ^ 16 ≡ c.facility = omega (arith, h.facility_fits) in
    let i : min c.card_id (2 ^ 31 - 1) % 2 ^ 32 ≡ min c.card_id (2 ^ 31 - 1) = omega arith in
    let d : min c.issue_date (2 ^ 31 - 1) % 2 ^ 32 ≡ min c.issue_date (2 ^ 31 - 1) = omega arith in
    rw (f, i, d) refl

reads :
    (c : Cred)
    → IsCred c
    → web_cred
        (get_int (enroll_message c) (chars "facility"))
        (get_int (enroll_message c) (chars "id"))
        (get_int (enroll_message c) (chars "date"))
      ≡ some (clamped c)
unfolding get_int number_at web_cred or_zero digit_of
reads c h =
    let f =
      ap number_at (finds_facility c h)
      ∙ strtol-decimal c.facility (id_part c) (omega (arith, h.facility_fits)) refl in
    let i =
      ap number_at (finds_id c h) ∙ strtol-decimal c.card_id (date_part c) h.card_id_fits refl in
    let d =
      ap number_at (finds_date c h)
      ∙ strtol-decimal c.issue_date (chars "}") h.issue_date_fits refl in
    let most = 2 ^ 31 - 1 in
    ap
      (λ o.
        web_cred o (get_int (enroll_message c) (chars "id"))
          (get_int (enroll_message c) (chars "date")))
      f
    ∙ ap (λ o. web_cred (some (min c.facility most)) o (get_int (enroll_message c) (chars "date")))
        i
    ∙ ap (λ o. web_cred (some (min c.facility most)) (some (min c.card_id most)) o) d
    ∙ casts c h

module _ {Q W V : Type 0} (queues : Queues Q) (nvs : Nvs W) (store : Settings V) where
  enrolls :
      (c : Cred) (s : Console Q W V)
      → IsCred c
      → handle_ws_command queues nvs store (enroll_message c) s ≡ (
        ws_ack (chars "enroll") (chars "queued; tap card"),
        record s { reader = mode_set queues write (mode_set_write_request (clamped c) s.reader) },
      )
  unfolding handle_ws_command run_ws ws_enroll mem_eq
  enrolls c s h =
      ap (handled (enroll_message c) s) (has_cmd c)
      ∙ ap (λ o. ws_enroll queues nvs store o s) (reads c h)
    where
      handled : List ℕ → Console Q W V → Option (List ℕ) → WsReply × Console Q W V
      handled json s o = elim o [
        | none ↦ (ws_error (chars "missing cmd"), s)
        | some cmd ↦ run_ws queues nvs store json cmd s
      ]

  -- The message of the page that enrolls a credential, its fields printed in decimal, puts the
  -- reader into the write mode with the facility as it was, but with a card number and a date of
  -- 2147483647 at most: greater ones, which fit their types too, are replaced by it.
  pub handle_ws_command-clamped :
      (c : Cred) (s : Console Q W V)
      → IsCred c
      → let (reply, s') = handle_ws_command queues nvs store (enroll_message c) s in
        (reply ≡ ws_ack (chars "enroll") (chars "queued; tap card"))
        × (mode_get s'.reader ≡ write)
        × ((mode_take_write_request s'.reader).0 ≡ some (clamped c))
  handle_ws_command-clamped c s h = rw (enrolls c s h) (
    refl,
    (request-armed queues (clamped c) s.reader).0,
    (request-armed queues (clamped c) s.reader).1,
  )
