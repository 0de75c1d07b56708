-- ===== src/Io.antt =====
-- Calls of the drivers: a status with a result, and the new state of what they drive.
use osdp_reader_test_project.Common.{◌≡◌, ap}
use osdp_reader_test_project.Esp.{Esp, Outcome, ok, err, fault}

abbrev pub Io : Type 0 → Type 0 → Type 0
Io S A = S → Outcome A × S

-- `if (e != ESP_OK) return e;`
infixl 5 ◌then_with◌
pub ◌then_with◌ : {S A B : Type 0} → Io S A → (A → Io S B) → Io S B
◌then_with◌ m f s =
    let (r, s') = m s in elim r [ ok a ↦ f a s' | err e ↦ (err e, s') | fault ↦ (fault, s') ]

-- `if (call != ESP_OK) return e;`
pub or_else : {S A : Type 0} → Esp → Io S A → Io S A
or_else e m s =
    let (r, s') = m s in elim r [ ok a ↦ (ok a, s') | err _ ↦ (err e, s') | fault ↦ (fault, s') ]

module _ {S A B : Type 0} (m : Io S A) (f : A → Io S B) where
  next : Outcome A × S → Outcome B × S
  next x = elim x.0 as (λ _. Outcome B × S) [
    | ok a ↦ f a x.1
    | err e ↦ (err e, x.1)
    | fault ↦ (fault, x.1)
  ]

  pub then_ok : (s s' : S) (a : A) → m s ≡ (ok a, s') → (m then_with f) s ≡ f a s'
  unfolding ◌then_with◌ next
  then_ok s s' a e = ap next e

  pub then_yields : (s : S) (a : A) → (m s).0 ≡ ok a → (m then_with f) s ≡ f a (m s).1
  then_yields s a e = then_ok s (m s).1 a (ap (λ r. (r, (m s).1)) e)

  pub then_err : (s s' : S) (e : Esp) → m s ≡ (err e, s') → (m then_with f) s ≡ (err e, s')
  unfolding ◌then_with◌ next
  then_err s s' e q = ap next q

module _ {S A : Type 0} (m : Io S A) (e : Esp) where
  kept : Outcome A × S → Outcome A × S
  kept x = elim x.0 as (λ _. Outcome A × S) [
    | ok a ↦ (ok a, x.1)
    | err _ ↦ (err e, x.1)
    | fault ↦ (fault, x.1)
  ]

  pub or_else_ok : (s s' : S) (a : A) → m s ≡ (ok a, s') → or_else e m s ≡ (ok a, s')
  unfolding or_else kept
  or_else_ok s s' a q = ap kept q

-- `P` holds of the result and the state of a call that succeeds.
abbrev pub Yields : {S A : Type 0} → (A → S → Type 0) → Outcome A × S → Type 0
Yields P (ok a, s) = P a s
Yields P (err e, s) = Unit
Yields P (fault, s) = Unit

pub Yields-always :
    {S A : Type 0} (P : A → S → Type 0)
    → ((a : A) (s : S) → P a s)
    → (r : Outcome A × S) → Yields P r
Yields-always P h (ok a, s) = h a s
Yields-always P h (err e, s) = tt
Yields-always P h (fault, s) = tt

module _ {S A B : Type 0} (P : A → S → Type 0) (Q : B → S → Type 0) where
  pub Yields-then :
      (m : Io S A) (f : A → Io S B) (s : S)
      → Yields P (m s)
      → ((a : A) (s' : S) → P a s' → Yields Q (f a s'))
      → Yields Q ((m then_with f) s)
  unfolding ◌then_with◌
  Yields-then m f s first rest = cases (m s).0 (m s).1 first
    where
      cases :
          (r : Outcome A) (s' : S)
          → Yields P (r, s')
          → Yields Q (elim r as (λ _. Outcome B × S) [
            | ok a ↦ f a s'
            | err e ↦ (err e, s')
            | fault ↦ (fault, s')
          ])
      cases (ok a) s' x = rest a s' x
      cases (err e) s' x = tt
      cases fault s' x = tt

-- Nothing need be known of the first call where the rest ensures `Q` from every state.
pub Yields-after :
    {S A B : Type 0} (Q : B → S → Type 0) (m : Io S A) (f : A → Io S B) (s : S)
    → ((a : A) (s' : S) → Yields Q (f a s'))
    → Yields Q ((m then_with f) s)
Yields-after Q m f s rest =
    Yields-then (λ _ _. Unit) Q m f s (Yields-always (λ _ _. Unit) (λ _ _. tt) (m s))
      (λ a s' _. rest a s')

pub Yields-weaken :
    {S A : Type 0} (P Q : A → S → Type 0)
    → ((a : A) (s : S) → P a s → Q a s)
    → (r : Outcome A × S) → Yields P r
    → Yields Q r
Yields-weaken P Q h (ok a, s) x = h a s x
Yields-weaken P Q h (err e, s) x = tt
Yields-weaken P Q h (fault, s) x = tt
