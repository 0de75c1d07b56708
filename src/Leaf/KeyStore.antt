-- ===== src/Leaf/KeyStore.antt =====
-- components/leaf/leaf.c: the site key over an NVS that keeps it.
use osdp_reader_test_project.Common.{
  ℕ, ◌≡◌, refl, ap, ◌∙◌, Bool, true, false, Option, none, some, List, length, ◌==◌, ltb,
  if◌then◌else◌, arith,
}
use osdp_reader_test_project.Esp.{Esp, Outcome, ok, err, fault, nvs_not_found}
use osdp_reader_test_project.Desfire.State.{Host, Action, ◌>>=◌}
use osdp_reader_test_project.Desfire.Bind.{bind_ok, bind_err}
use osdp_reader_test_project.Leaf.{
  Nvs, or_return, or_continue, leaf_get_site_key, leaf_set_site_key, on_world,
}

-- What the documentation says of the blob of the site key in an NVS that has room, where `stored`
-- is the blob: it can be opened for writing, and for reading once there is something in it; what is
-- set is got, if it fits the buffer.
pub record KeepsKey {W : Type 0} (nvs : Nvs W) (stored : W → Option (List ℕ)) : Type 0 where
  pub opens : (w : W) → (w' : W) × (nvs.open_store true w ≡ (ok tt, w')) × (stored w' ≡ stored w)
  pub reads :
      (w : W) (k : List ℕ)
      → stored w ≡ some k
      → (w' : W) × (nvs.open_store false w ≡ (ok tt, w')) × (stored w' ≡ some k)
  pub lacks :
      (w : W)
      → stored w ≡ none
      → (w' : W) × (nvs.open_store false w ≡ (err nvs_not_found, w')) × (stored w' ≡ none)
  pub sets :
      (k : List ℕ) (w : W) → (w' : W) × (nvs.set_blob k w ≡ (ok tt, w')) × (stored w' ≡ some k)
  pub gets :
      (room : ℕ) (w : W) (k : List ℕ)
      → stored w ≡ some k
      → (w' : W) × (nvs.get_blob room w
          ≡ (if ltb room (length k) then err nvs_not_found else ok k, w'))
        × (stored w' ≡ some k)
  pub commits : (w : W) → (w' : W) × (nvs.commit w ≡ (ok tt, w')) × (stored w' ≡ stored w)

-- `or_return` and `or_continue` after a call whose outcome is known.
module _ {W A : Type 0} (m : Action W A) (h h' : Host W) where
  or_return_ok : (e : Esp) (a : A) → m h ≡ (ok a, h') → or_return e m h ≡ (ok a, h')
  unfolding or_return
  or_return_ok e a q = ap go q
    where
      go : Outcome A × Host W → Outcome A × Host W
      go r = elim r.0 as (λ _. Outcome A × Host W) [
        | ok a ↦ (ok a, r.1)
        | err _ ↦ (err e, r.1)
        | fault ↦ (fault, r.1)
      ]

  or_return_err : (e e' : Esp) → m h ≡ (err e', h') → or_return e m h ≡ (err e, h')
  unfolding or_return
  or_return_err e e' q = ap go q
    where
      go : Outcome A × Host W → Outcome A × Host W
      go r = elim r.0 as (λ _. Outcome A × Host W) [
        | ok a ↦ (ok a, r.1)
        | err _ ↦ (err e, r.1)
        | fault ↦ (fault, r.1)
      ]

  pub or_continue_ok : (a : A) → m h ≡ (ok a, h') → or_continue m h ≡ (ok tt, h')
  unfolding or_continue
  or_continue_ok a q = ap go q
    where
      go : Outcome A × Host W → Outcome (Unit {0}) × Host W
      go r = elim r.0 as (λ _. Outcome (Unit {0}) × Host W) [
        | ok _ ↦ (ok tt, r.1)
        | err _ ↦ (ok tt, r.1)
        | fault ↦ (fault, r.1)
      ]

module _ {W : Type 0} {nvs : Nvs W} {stored : W → Option (List ℕ)}
    (keeps : KeepsKey nvs stored) where
  -- What `leaf_get_site_key` returns for what is stored.
  abbrev pub key_of : Option (List ℕ) → Outcome (List ℕ)
  key_of none = err nvs_not_found
  key_of (some k) = if length k == 16 then ok k else err nvs_not_found

  -- The end of `leaf_get_site_key`.
  whole_key : List ℕ → Action W (List ℕ)
  whole_key blob h = (if length blob == 16 then ok blob else err nvs_not_found, h)

  blob_read :
      (k : List ℕ) (long : Bool) (m : Action W (List ℕ)) (h h' : Host W)
      → m h ≡ (if long then err nvs_not_found else ok k, h')
      → (long ≡ true → length k == 16 ≡ false)
      → (or_return nvs_not_found m >>= whole_key) h ≡ (key_of (some k), h')
  unfolding whole_key
  blob_read k true m h h' e wrong =
      bind_err (or_return nvs_not_found m) whole_key h h' nvs_not_found
        (or_return_err m h h' nvs_not_found nvs_not_found e)
      ∙ rw (wrong refl) refl
  blob_read k false m h h' e wrong =
      bind_ok (or_return nvs_not_found m) whole_key h h' k (or_return_ok m h h' nvs_not_found k e)

  pub get_site_key-stored :
      (o : Option (List ℕ)) (h : Host W)
      → stored h.world ≡ o
      → (w' : W) × (leaf_get_site_key nvs h ≡ (key_of o, record h { world = w' })) × (stored w' ≡ o)
  unfolding leaf_get_site_key whole_key
  get_site_key-stored none h e =
      let (w', opened, same) = keeps.lacks h.world e in
      (
        w',
        bind_err (on_world (nvs.open_store false)) _ h (record h { world = w' }) nvs_not_found
            (ap (λ r. (r.0, record h { world = r.1 })) opened),
        same,
      )
  get_site_key-stored (some k) h e =
      let (w₁, opened, same₁) = keeps.reads h.world k e in
      let h₁ = record h { world = w₁ } in
      let (w₂, got, same₂) = keeps.gets 16 w₁ k same₁ in
      let h₂ = record h { world = w₂ } in
      let begun : on_world (nvs.open_store false) h ≡ (ok tt, h₁) =
        ap (λ r. (r.0, record h { world = r.1 })) opened in
      let read : on_world (nvs.get_blob 16) h₁
          ≡ (if ltb 16 (length k) then err nvs_not_found else ok k, h₂) =
        ap (λ r. (r.0, record h { world = r.1 })) got in
      (
        w₂,
        bind_ok (on_world (nvs.open_store false)) _ h h₁ tt begun
            ∙ blob_read k (ltb 16 (length k)) (on_world (nvs.get_blob 16)) h₁ h₂ read
                (λ long. ground (arith, long)),
        same₂,
      )

  pub set_site_key-stored :
      (k : List ℕ) (h : Host W)
      → (w' : W) × (leaf_set_site_key nvs k h ≡ (ok tt, record h { world = w' }))
        × (stored w' ≡ some k)
  unfolding leaf_set_site_key
  set_site_key-stored k h =
      let (w₁, opened, _) = keeps.opens h.world in
      let (w₂, done, is_k) = keeps.sets k w₁ in
      let (w₃, kept, same) = keeps.commits w₂ in
      let at = λ (w : W). record h { world = w } in
      (
        w₃,
        bind_ok (on_world (nvs.open_store true)) _ h (at w₁) tt (ap (λ r. (r.0, at r.1)) opened)
            ∙ bind_ok (on_world (nvs.set_blob k)) _ (at w₁) (at w₂) tt
                (ap (λ r. (r.0, at r.1)) done)
            ∙ ap (λ r. (r.0, at r.1)) kept,
        same ∙ is_k,
      )
