-- ===== src/Startup/SiteKey.antt =====
-- main/app_main.c: the site key that the reader works under after a start.
use osdp_reader_test_project.Common.{
  ℕ, ◌≡◌, refl, ap, ◌∙◌, true, Option, none, some, List, length, ◌==◌, if◌then◌else◌, inl, inr,
  Bool-cases,
}
use osdp_reader_test_project.Esp.{Outcome, ok, err, fault, nvs_not_found}
use osdp_reader_test_project.Desfire.State.{Host}
use osdp_reader_test_project.Leaf.{Nvs, or_continue, leaf_set_site_key}
use osdp_reader_test_project.Leaf.KeyStore.{
  KeepsKey, or_continue_ok, get_site_key-stored, set_site_key-stored,
}
use osdp_reader_test_project.Startup.{dev_site_key, provision_default_site_key_if_missing}

-- The key that a start finds or puts in its place.
abbrev pub found_or_dev : Option (List ℕ) → List ℕ
found_or_dev none = dev_site_key
found_or_dev (some k) = if length k == 16 then k else dev_site_key

-- It has 16 bytes.
pub length-found_or_dev : (o : Option (List ℕ)) → length (found_or_dev o) == 16 ≡ true
length-found_or_dev none = refl
length-found_or_dev (some k) = elim (Bool-cases (length k == 16)) [
  | inl whole ↦ rw whole whole
  | inr short ↦ rw short refl
]

module _ {W : Type 0} {nvs : Nvs W} {stored : W → Option (List ℕ)}
    (keeps : KeepsKey nvs stored) where
  after_get : Outcome (List ℕ) × Host W → Outcome (Unit {0}) × Host W
  after_get r = elim r.0 as (λ _. Outcome (Unit {0}) × Host W) [
    | ok _ ↦ (ok tt, r.1)
    | err _ ↦ or_continue (leaf_set_site_key nvs dev_site_key) r.1
    | fault ↦ (fault, r.1)
  ]

  -- A start that finds no usable key stores the key of the source.
  replaced :
      (h : Host W)
      → (w' : W) × (or_continue (leaf_set_site_key nvs dev_site_key) h
          ≡ (ok tt, record h { world = w' }))
        × (stored w' ≡ some dev_site_key)
  replaced h =
      let (w', done, kept) = set_site_key-stored keeps dev_site_key h in
      (
        w',
        or_continue_ok (leaf_set_site_key nvs dev_site_key) h (record h { world = w' }) tt done,
        kept,
      )

  pub provisioned :
      (o : Option (List ℕ)) (h : Host W)
      → stored h.world ≡ o
      → (w' : W) × (provision_default_site_key_if_missing nvs h ≡ (ok tt, record h { world = w' }))
        × (stored w' ≡ some (found_or_dev o))
  unfolding provision_default_site_key_if_missing after_get
  provisioned none h e =
      let (w₁, got, _) = get_site_key-stored keeps none h e in
      let (w₂, done, kept) = replaced (record h { world = w₁ }) in
      (w₂, ap after_get got ∙ done, kept)
  provisioned (some k) h e =
      let (w₁, got, same) = get_site_key-stored keeps (some k) h e in
      elim (Bool-cases (length k == 16)) [
        | inl whole ↦ (
          w₁,
          ap after_get got
              ∙ ap (λ b. after_get (if b then ok k else err nvs_not_found, record h { world = w₁ }))
                  whole,
          rw whole same,
        )
        | inr short ↦
            let (w₂, done, kept) = replaced (record h { world = w₁ }) in
            (
              w₂,
              ap after_get got
                  ∙ ap
                      (λ b.
                        after_get (if b then ok k else err nvs_not_found, record h { world = w₁ }))
                      short
                  ∙ done,
              rw short kept,
            )
      ]
