-- ===== src/Leaf/Read.antt =====
-- components/leaf/leaf.c: `leaf_read` against the buffer that it passes.
use osdp_reader_test_project.Common.{ℕ, ◌≡◌, false, List, length, arith, ◌==◌}
use osdp_reader_test_project.Esp.{Esp, Outcome, ok, err, fault, is_ok}
use osdp_reader_test_project.Desfire.State.{Platform, Host, Action}
use osdp_reader_test_project.Desfire.Post.{OnOk, bind-OnOk, after, never_ok}
use osdp_reader_test_project.Desfire.Transport.Bounds.{Stripped}
use osdp_reader_test_project.Desfire.Commands.Bounds.{read_data-Stripped}
use osdp_reader_test_project.Leaf.{
  Nvs, or_return, check_file, leaf_read, leaf_file_size, leaf_file_no,
}

module _ {W : Type 0} (p : Platform W) (nvs : Nvs W) where
  return_cases :
      {A : Type 0} (P : A → Host W → Type 0) (e : Esp) (r : Outcome A) (h' : Host W)
      → OnOk P (r, h')
      → OnOk P (elim r as (λ _. Outcome A × Host W) [
        | ok a ↦ (ok a, h')
        | err _ ↦ (err e, h')
        | fault ↦ (fault, h')
      ])
  return_cases P e (ok a) h' x = x
  return_cases P e (err _) h' x = tt
  return_cases P e fault h' x = tt

  or_return-OnOk :
      {A : Type 0} (P : A → Host W → Type 0) (e : Esp) (m : Action W A) (h : Host W)
      → OnOk P (m h)
      → OnOk P (or_return e m h)
  unfolding or_return
  or_return-OnOk P e m h x = return_cases P e (m h).0 (m h).1 x

  check_file_short :
      (k buf : List ℕ) (h : Host W) → Stripped p 32 buf → OnOk (λ _ _. ⊥) (check_file p nvs k buf h)
  unfolding check_file
  check_file_short k buf h s = let wrong : (length buf == 32) ≡ false = ground arith in rw wrong tt

  leaf_read-OnOk : (uid : List ℕ) (h : Host W) → OnOk (λ _ _. ⊥) (leaf_read p nvs uid h)
  unfolding leaf_read
  leaf_read-OnOk uid h = after _ _ _ _ λ site h₁. after _ _ _ _ λ k h₂. after _ _ _ _ λ _ h₃.
      after _ _ _ _ λ _ h₄.
        bind-OnOk (λ r _. Stripped p 32 r) (λ _ _. ⊥) _ _ h₄
          (or_return-OnOk (λ r _. Stripped p 32 r) _ _ _
            (read_data-Stripped p leaf_file_no 0 leaf_file_size 32 h₄))
          (λ buf g s. check_file_short k buf g s)

  -- `leaf_read` never returns ESP_OK, whatever the card, the radio and the key store do: a file of
  -- 32 bytes and its MAC of 8 do not fit the buffer of 32 that it passes.
  pub leaf_read_never_ok : (uid : List ℕ) (h : Host W) → is_ok (leaf_read p nvs uid h).0 ≡ false
  leaf_read_never_ok uid h = never_ok (leaf_read p nvs uid h) (leaf_read-OnOk uid h)
