-- ===== src/Console/Keys.antt =====
-- components/app_console/console.c: the site key from the operator's line to the NVS.
use osdp_reader_test_project.Common.{
  ℕ, ◌≡◌, refl, ap, sym, ◌∙◌, Option, none, some, List, [], ◌∷◌, length, take, ◌==◌, arith,
  if◌then◌else◌, mem_eq,
}
use osdp_reader_test_project.Common.Bytes.{All, IsBytes}
use osdp_reader_test_project.Esp.{is_ok}
use osdp_reader_test_project.Text.{chars, isspace, print_hex}
use osdp_reader_test_project.Text.Hex.{
  parse_hex_blob, parse_hex_blob-printed, length-print_hex, no_spaces-print_hex,
}
use osdp_reader_test_project.Settings.{Settings}
use osdp_reader_test_project.Leaf.{Nvs, leaf_set_site_key}
use osdp_reader_test_project.Reader.{Queues}
use osdp_reader_test_project.Console.{
  Console, Reply, key_saved, key_not_saved, key_not_hex, arg, key_set, cmd_key, run_command,
  dispatch,
}
use osdp_reader_test_project.Console.Tokens.{IsWord, join, split_args-join}

abbrev pub key_words : List ℕ → List (List ℕ)
key_words k = chars "key" ∷ chars "set" ∷ print_hex k ∷ []

key_words-AreWords : (k : List ℕ) → length k ≡ 16 → All IsWord (key_words k)
unfolding isspace
key_words-AreWords k h = (
  (omega arith, (refl, (refl, (refl, tt)))),
  (
    (omega arith, (refl, (refl, (refl, tt)))),
    ((omega (arith, length-print_hex k, h), no_spaces-print_hex k), tt),
  ),
)

module _ {Q W V : Type 0} (queues : Queues Q) (nvs : Nvs W) (store : Settings V) where
  abbrev stored : Console Q W V → Option (List ℕ) → Reply × Console Q W V
  stored s o = elim o as (λ _. Reply × Console Q W V) [
    | none ↦ (key_not_hex, s)
    | some k ↦
        let (r, h) = leaf_set_site_key nvs k s.host in
        (if is_ok r then key_saved (take 4 k) else key_not_saved, record s { host = h })
  ]

  key_runs :
      (k : List ℕ) (s : Console Q W V)
      → run_command queues nvs store (key_words k) s ≡ stored s (parse_hex_blob (print_hex k) 16)
  unfolding run_command cmd_key key_set arg mem_eq
  key_runs k s = refl

  -- The line that sets the site key, its 16 bytes printed as hexadecimal digits, stores exactly
  -- that key: what it does to the key store is what leaf_set_site_key does with the key, nothing
  -- else changes, and the reply is by its outcome.
  pub dispatch-key_set :
      (k : List ℕ) (s : Console Q W V)
      → length k ≡ 16
      → IsBytes k
      → let (r, h) = leaf_set_site_key nvs k s.host in
        dispatch queues nvs store (join (key_words k)) s
        ≡ (some (if is_ok r then key_saved (take 4 k) else key_not_saved), record s { host = h })
  unfolding dispatch
  dispatch-key_set k s sixteen bytes =
      let words = split_args-join 8 (key_words k) (key_words-AreWords k sixteen) (omega arith) in
      let parsed =
        ap (parse_hex_blob (print_hex k)) (sym sixteen) ∙ parse_hex_blob-printed k bytes in
      ap
        (λ ws.
          if length ws == 0
          then (none, s)
          else (some (run_command queues nvs store ws s).0, (run_command queues nvs store ws s).1))
        words
      ∙ ap (λ (x : Reply × Console Q W V). (some x.0, x.1)) (key_runs k s ∙ ap (stored s) parsed)
