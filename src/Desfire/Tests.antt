-- ===== src/Desfire/Tests.antt =====
-- The theorems on components/desfire at concrete data.
use osdp_reader_test_project.Common.{
  ◌^◌, ◌≤◌, ◌<◌, ◌≡◌, ◌≢◌, refl, ◌⊎◌, inl, Bool, true, false, none, ℕ, List, ◌-◌, ap, get_or,
  length-append, take, drop, take-append_left, [], ◌∷◌, ◌++◌, length, replicate, ◌==◌, arith,
  if◌then◌else◌,
}
use osdp_reader_test_project.Common.Bytes.{le32}
use osdp_reader_test_project.Esp.{ok, fault}
use osdp_reader_test_project.Desfire.State.{Platform}
use osdp_reader_test_project.Desfire.Post.{OnOk, Ends}
use osdp_reader_test_project.Desfire.Crypto.{cmac, desfire_crc32}
use osdp_reader_test_project.Desfire.Crypto.Crc.{crc32_residue}
use osdp_reader_test_project.Desfire.Crypto.Blocks.{join, cmac_of_blocks, cmac-eq-cmac_of_blocks}
use osdp_reader_test_project.Desfire.Transport.{
  apdu_of, cmac_append_and_send, session_mac, bump_ctr,
}
use osdp_reader_test_project.Desfire.Transport.Exchange.{Keeps}
use osdp_reader_test_project.Desfire.Transport.Counter.{Counted, cmac_append_and_send-Counted}
use osdp_reader_test_project.Desfire.Auth.{desfire_auth_ev2_first}
use osdp_reader_test_project.Desfire.Auth.Laws.{IsOpen, auth_ev2_first-Ended}
use osdp_reader_test_project.Desfire.Auth.Honest.{IsHonest, card_answer, auth_ev2_first_honest}
use osdp_reader_test_project.Desfire.Secure.{open_payload, desfire_enc_recv, desfire_change_key}
use osdp_reader_test_project.Desfire.Secure.Laws.{Authentic, enc_recv-Received, change_key-Changed}
use osdp_reader_test_project.Desfire.Secure.Payload.{open_payload-sealed}
use osdp_reader_test_project.Desfire.Commands.{comm_cmac, desfire_write_data}
use osdp_reader_test_project.Desfire.Commands.Guards.{write_data_overflows}
use osdp_reader_test_project.Samples.{key, nonce, platform, host}

auth_ev2_first-Ended_example :
    Ends
      (λ _ g. IsOpen platform 1 key g)
      (λ g. Keeps (host false) g)
      (desfire_auth_ev2_first platform 1 key (host false))
auth_ev2_first-Ended_example = auth_ev2_first-Ended platform 1 key (host false)

-- A card with a nonce of distinct bytes, which answers each of the two commands at any time.
abbrev card_nonce : List ℕ
card_nonce = 1 ∷ 2 ∷ 3 ∷ 4 ∷ 5 ∷ 6 ∷ 7 ∷ 8 ∷ 9 ∷ 10 ∷ 11 ∷ 12 ∷ 13 ∷ 14 ∷ 15 ∷ 16 ∷ []

abbrev answer_to : Bool → List ℕ → List ℕ
answer_to true enc =
    card_answer platform key card_nonce card_nonce (1 ∷ 2 ∷ 3 ∷ 4 ∷ []) (replicate 12 0) enc
answer_to false enc = card_nonce ++ (0x91 ∷ 0xAF ∷ [])

abbrev params_of : List ℕ → List ℕ
params_of tx = let body = drop 5 tx in take (length body - 1) body

params_of-apdu_of : (enc : List ℕ) → params_of (apdu_of 0xAF enc) ≡ enc
unfolding apdu_of
params_of-apdu_of enc =
    take-append_left (length (enc ++ (0 ∷ [])) - 1) enc (0 ∷ [])
      (omega (arith, length-append enc (0 ∷ [])))

abbrev card : Platform ℕ
card = record platform {
  apdu_exchange = λ tx cap w. (ok (answer_to (get_or tx 1 0 == 0xAF) (params_of tx)), w);
}

card-IsHonest : IsHonest card 0 key card_nonce (1 ∷ 2 ∷ 3 ∷ 4 ∷ []) (replicate 12 0)
unfolding apdu_of card_answer
card-IsHonest = record {
  inverse = λ iv xs e. refl;
  keeps_length = λ iv xs e. refl;
  nonce_size = λ w. refl;
  rnd_b_size = refl;
  ti_size = refl;
  caps_size = refl;
  challenges = λ w. (w, refl);
  answers = λ enc w. (w, ap (λ x. (ok (answer_to true x), w)) (params_of-apdu_of enc));
}

auth_ev2_first_honest_example : (desfire_auth_ev2_first card 0 key (host false)).0 ≡ ok tt
auth_ev2_first_honest_example = auth_ev2_first_honest card card-IsHonest (host false)

-- A card that answers with three bytes, encrypted and with the MAC, and takes no other exchange.
abbrev sealed : List ℕ
sealed = 1 ∷ 2 ∷ 3 ∷ (le32 (desfire_crc32 (0 ∷ 1 ∷ 2 ∷ 3 ∷ [])) ++ (0x80 ∷ replicate 8 0))

abbrev mac_of : List ℕ → List ℕ
mac_of cipher = session_mac platform (bump_ctr (host true)) 0 cipher

abbrev talker : Platform ℕ
talker = record platform {
  apdu_exchange = λ tx cap w. (ok (sealed ++ (mac_of sealed ++ (0x91 ∷ 0x00 ∷ []))), w);
}

enc_recv-Received_example :
    OnOk
      (λ r g.
        ((r.0 ≡ 0)
          × (length r.1 ≡ 3)
          × (length r.1 ≤ 7)
          × Counted (host true) g
          × Authentic talker 0x51 [] 3 (host true) r.1 g)
        ⊎ ((r.0 ≢ 0) × (r.1 ≡ []) × Keeps (host true) g))
      (desfire_enc_recv talker 0x51 [] 3 7 (host true))
enc_recv-Received_example = enc_recv-Received talker 0x51 [] 3 7 (host true) (λ k iv xs. refl)

open_payload-sealed_example :
    open_payload 3 8 (1 ∷ 2 ∷ 3 ∷ (le32 (desfire_crc32 (0 ∷ 1 ∷ 2 ∷ 3 ∷ [])) ++ (0x80 ∷ [])))
    ≡ ok (0, 1 ∷ 2 ∷ 3 ∷ [])
open_payload-sealed_example =
    open_payload-sealed (1 ∷ 2 ∷ 3 ∷ []) (0x80 ∷ []) 8
      (omega arith, (omega arith, (omega arith, tt))) (omega arith) (omega arith)

crc32_residue_example :
    (desfire_crc32 (0xC4 ∷ 0x01 ∷ []) < 2 ^ 32)
    × (desfire_crc32 (0xC4 ∷ 0x01 ∷ le32 (desfire_crc32 (0xC4 ∷ 0x01 ∷ []))) ≡ 0)
crc32_residue_example = crc32_residue (0xC4 ∷ 0x01 ∷ []) (omega arith, (omega arith, tt))

cmac-eq-cmac_of_blocks_example :
    cmac platform key (join (replicate 16 9 ∷ []) ++ (1 ∷ 2 ∷ []))
    ≡ cmac_of_blocks platform key (replicate 16 9 ∷ []) (1 ∷ 2 ∷ [])
cmac-eq-cmac_of_blocks_example =
    cmac-eq-cmac_of_blocks platform key (replicate 16 9 ∷ []) (1 ∷ 2 ∷ []) (refl, tt)
      (omega arith, inl (omega arith))

cmac_append_and_send-Counted_example :
    Ends
      (λ _ g. Counted (host true) g)
      (λ g. Keeps (host true) g ⊎ Counted (host true) g)
      (cmac_append_and_send platform 0xFC [] [] none (host true))
cmac_append_and_send-Counted_example =
    cmac_append_and_send-Counted platform 0xFC [] [] none (host true)

change_key-Changed_example :
    Ends
      (λ _ g.
        if 0 == 0
        then (let s = (host true).session in g.session ≡ record s { authenticated = false })
          × (g.mac_key ≡ (host true).mac_key)
        else Counted (host true) g)
      (λ g. Keeps (host true) g ⊎ Counted (host true) g)
      (desfire_change_key platform 0 key nonce 1 (host true))
change_key-Changed_example = change_key-Changed platform 0 1 key nonce (host true)

write_data_overflows_example :
    desfire_write_data platform 1 0 comm_cmac (replicate 242 0) (host true) ≡ (fault, host true)
write_data_overflows_example =
    write_data_overflows platform 1 0 (replicate 242 0) (host true) refl (omega arith) (omega arith)
