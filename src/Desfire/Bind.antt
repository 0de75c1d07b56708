-- ===== src/Desfire/Bind.antt =====
-- Actions one after the other, where the outcome of the first is known.
use osdp_reader_test_project.Common.{◌≡◌, ap}
use osdp_reader_test_project.Esp.{Esp, Outcome, ok, err, fault}
use osdp_reader_test_project.Desfire.State.{Host, Action, ◌>>=◌}

module _ {W A B : Type 0} (m : Action W A) (f : A → Action W B) where
  go_on : Outcome A × Host W → Outcome B × Host W
  go_on r = elim r.0 as (λ _. Outcome B × Host W) [
    | ok a ↦ f a r.1
    | err e ↦ (err e, r.1)
    | fault ↦ (fault, r.1)
  ]

  pub bind_ok : (h h' : Host W) (a : A) → m h ≡ (ok a, h') → (m >>= f) h ≡ f a h'
  unfolding ◌>>=◌ go_on
  bind_ok h h' a e = ap go_on e

  pub bind_err : (h h' : Host W) (e : Esp) → m h ≡ (err e, h') → (m >>= f) h ≡ (err e, h')
  unfolding ◌>>=◌ go_on
  bind_err h h' e q = ap go_on q
