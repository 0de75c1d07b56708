-- ===== src/Osdp/Config.antt =====
-- main/osdp_pd.c: the configuration, saved and loaded.
use osdp_reader_test_project.Common.{
  ℕ, ◌≡◌, refl, ap, ◌∙◌, Bool, true, false, Option, some, List, mem_eq,
}
use osdp_reader_test_project.Esp.{Outcome, ok, err, fault}
use osdp_reader_test_project.Io.{Io, then_ok}
use osdp_reader_test_project.Text.{chars}
use osdp_reader_test_project.Settings.{Settings}
use osdp_reader_test_project.Osdp.{
  osdp_pd_save_config, or_default, read_config, osdp_pd_load_config,
}

-- What the documentation says of numbers in an NVS that has room: what is set is got until it is
-- set again, and opening and committing change nothing of it.
pub record KeepsNumbers {W : Type 0} (nvs : Settings W) (stored : W → List ℕ → List ℕ → Option ℕ)
    : Type 0 where
  pub opens :
      (ns : List ℕ) (rw : Bool) (w : W)
      → (w' : W) × (nvs.open_ns ns rw w ≡ (ok tt, w')) × (stored w' ≡ stored w)
  pub commits :
      (ns : List ℕ) (w : W) → (w' : W) × (nvs.commit ns w ≡ (ok tt, w')) × (stored w' ≡ stored w)
  pub sets :
      (ns key : List ℕ) (v : ℕ) (w : W)
      → (w' : W) × (nvs.set_i32 ns key v w ≡ (ok tt, w'))
        × (stored w' ns key ≡ some v)
        × ((other : List ℕ) → mem_eq other key ≡ false → stored w' ns other ≡ stored w ns other)
  pub gets :
      (ns key : List ℕ) (v : ℕ) (w : W)
      → stored w ns key ≡ some v
      → (w' : W) × (nvs.get_i32 ns key w ≡ (ok v, w')) × (stored w' ≡ stored w)

module _ {W : Type 0} (nvs : Settings W) {stored : W → List ℕ → List ℕ → Option ℕ}
    (keeps : KeepsNumbers nvs stored) where
  abbrev ns : List ℕ
  ns = chars "osdp"

  or_default_ok :
      (d : ℕ) (m : Io W ℕ) (w w' : W) (v : ℕ) → m w ≡ (ok v, w') → or_default nvs d m w ≡ (v, w')
  unfolding or_default
  or_default_ok d m w w' v e =
      ap
        (λ (x : Outcome ℕ × W). elim x.0 as (λ _. ℕ × W) [
          | ok a ↦ (a, x.1)
          | err _ ↦ (d, x.1)
          | fault ↦ (d, x.1)
        ])
        e

  saved :
      (address baud : ℕ) (w : W)
      → (w' : W) × (osdp_pd_save_config nvs address baud w ≡ (ok tt, w'))
        × (stored w' ns (chars "address") ≡ some address)
        × (stored w' ns (chars "baud") ≡ some baud)
  unfolding osdp_pd_save_config mem_eq
  saved address baud w =
      let (w₁, opened, same₁) = keeps.opens ns true w in
      let (w₂, set₁, is_address, _) = keeps.sets ns (chars "address") address w₁ in
      let (w₃, set₂, is_baud, others) = keeps.sets ns (chars "baud") baud w₂ in
      let (w₄, done, same₄) = keeps.commits ns w₃ in
      (
        w₄,
        then_ok (nvs.open_ns ns true) _ w w₁ tt opened
            ∙ then_ok (nvs.set_i32 ns (chars "address") address) _ w₁ w₂ tt set₁
            ∙ then_ok (nvs.set_i32 ns (chars "baud") baud) _ w₂ w₃ tt set₂
            ∙ done,
        ap (λ f. f ns (chars "address")) same₄ ∙ others (chars "address") refl ∙ is_address,
        ap (λ f. f ns (chars "baud")) same₄ ∙ is_baud,
      )

  loaded :
      (address baud : ℕ) (w : W)
      → stored w ns (chars "address") ≡ some address
      → stored w ns (chars "baud") ≡ some baud
      → (osdp_pd_load_config nvs w).0 ≡ (address, baud)
  unfolding osdp_pd_load_config read_config
  loaded address baud w is_address is_baud =
      let (w₁, opened, same₁) = keeps.opens ns false w in
      let (w₂, got₁, same₂) =
        keeps.gets ns (chars "address") address w₁
          (ap (λ f. f ns (chars "address")) same₁ ∙ is_address) in
      let (w₃, got₂, same₃) =
        keeps.gets ns (chars "baud") baud w₂
          (ap (λ f. f ns (chars "baud")) (same₂ ∙ same₁) ∙ is_baud) in
      let first = or_default_ok 0x65 (nvs.get_i32 ns (chars "address")) w₁ w₂ address got₁ in
      let second = or_default_ok 9600 (nvs.get_i32 ns (chars "baud")) w₂ w₃ baud got₂ in
      ap after_open opened ∙ rw (first, second) refl
    where
      after_open : Outcome (Unit {0}) × W → ℕ × ℕ
      after_open x =
          (elim x.0 as (λ _. (ℕ × ℕ) × W) [
            | ok _ ↦ read_config nvs x.1
            | err _ ↦ ((0x65, 9600), x.1)
            | fault ↦ ((0x65, 9600), x.1)
          ]).0

  -- Over an NVS that has room, saving an address and a baud rate succeeds, and after it they are
  -- what is loaded.
  pub osdp_pd_load_config-saved :
      (address baud : ℕ) (w : W)
      → ((osdp_pd_save_config nvs address baud w).0 ≡ ok tt)
        × ((osdp_pd_load_config nvs (osdp_pd_save_config nvs address baud w).1).0 ≡ (address, baud))
  osdp_pd_load_config-saved address baud w =
      let (w', done, is_address, is_baud) = saved address baud w in
      rw done (refl, loaded address baud w' is_address is_baud)
