-- ===== src/Desfire/Post.antt =====
-- Postconditions of actions: what holds where a call succeeds, and what holds however it ends.
use osdp_reader_test_project.Common.{◌≡◌, refl, Bool, true, false, if◌then◌else◌}
use osdp_reader_test_project.Esp.{Outcome, ok, err, fault, is_ok}
use osdp_reader_test_project.Desfire.State.{Host, Action, ◌>>=◌}

-- `P` holds of the result and the state of a call that succeeds.
abbrev pub OnOk : {W A : Type 0} → (A → Host W → Type 0) → Outcome A × Host W → Type 0
OnOk P (ok a, h) = P a h
OnOk P (err e, h) = Unit
OnOk P (fault, h) = Unit

-- `P` holds where a call succeeds, and `E` of the state where it does not.
abbrev pub Ends :
    {W A : Type 0} → (A → Host W → Type 0) → (Host W → Type 0) → Outcome A × Host W → Type 0
Ends P E (ok a, h) = P a h
Ends P E (err e, h) = E h
Ends P E (fault, h) = E h

pub on_ok :
    {W A : Type 0} (P : A → Host W → Type 0) (E : Host W → Type 0) (r : Outcome A × Host W)
    → Ends P E r
    → OnOk P r
on_ok P E (ok a, h) x = x
on_ok P E (err _, h) x = tt
on_ok P E (fault, h) x = tt

pub Ends-mono :
    {W A : Type 0} (P P' : A → Host W → Type 0) (E E' : Host W → Type 0) (r : Outcome A × Host W)
    → ((a : A) (g : Host W) → P a g → P' a g)
    → ((g : Host W) → E g → E' g)
    → Ends P E r
    → Ends P' E' r
Ends-mono P P' E E' (ok a, h) f e x = f a h x
Ends-mono P P' E E' (err _, h) f e x = e h x
Ends-mono P P' E E' (fault, h) f e x = e h x

-- A test: what holds of both branches, each under its outcome of the test.
pub if_cases :
    {X : Type 0} (P : X → Type 0) (c : Bool) {x y : X}
    → (c ≡ true → P x)
    → (c ≡ false → P y)
    → P (if c then x else y)
if_cases P true f g = f refl
if_cases P false f g = g refl

module _ {W A B : Type 0} (P : A → Host W → Type 0) (Q : B → Host W → Type 0) where
  bind_cases :
      (f : A → Action W B) (r : Outcome A) (h' : Host W)
      → OnOk P (r, h')
      → ((a : A) (g : Host W) → P a g → OnOk Q (f a g))
      → OnOk Q (elim r as (λ _. Outcome B × Host W) [
        | ok a ↦ f a h'
        | err e ↦ (err e, h')
        | fault ↦ (fault, h')
      ])
  bind_cases f (ok a) h' first rest = rest a h' first
  bind_cases f (err e) h' first rest = tt
  bind_cases f fault h' first rest = tt

  pub bind-OnOk :
      (m : Action W A) (f : A → Action W B) (h : Host W)
      → OnOk P (m h)
      → ((a : A) (g : Host W) → P a g → OnOk Q (f a g))
      → OnOk Q ((m >>= f) h)
  unfolding ◌>>=◌
  bind-OnOk m f h first rest = bind_cases f (m h).0 (m h).1 first rest

module _ {W A B : Type 0} (P : A → Host W → Type 0) (Q : B → Host W → Type 0)
    (E : Host W → Type 0) where
  Ends-cases :
      (f : A → Action W B) (r : Outcome A) (h' : Host W)
      → Ends P E (r, h')
      → ((a : A) (g : Host W) → P a g → Ends Q E (f a g))
      → Ends Q E (elim r as (λ _. Outcome B × Host W) [
        | ok a ↦ f a h'
        | err e ↦ (err e, h')
        | fault ↦ (fault, h')
      ])
  Ends-cases f (ok a) h' first rest = rest a h' first
  Ends-cases f (err e) h' first rest = first
  Ends-cases f fault h' first rest = first

  pub bind-Ends :
      (m : Action W A) (f : A → Action W B) (h : Host W)
      → Ends P E (m h)
      → ((a : A) (g : Host W) → P a g → Ends Q E (f a g))
      → Ends Q E ((m >>= f) h)
  unfolding ◌>>=◌
  bind-Ends m f h first rest = Ends-cases f (m h).0 (m h).1 first rest

module _ {W A B : Type 0} (Q : B → Host W → Type 0) where
  anything : (r : Outcome A × Host W) → OnOk (λ _ _. Unit) r
  anything (ok a, h) = tt
  anything (err e, h) = tt
  anything (fault, h) = tt

  -- Where the rest ensures `Q` from every state, nothing need be known of the first call.
  pub after :
      (m : Action W A) (f : A → Action W B) (h : Host W)
      → ((a : A) (g : Host W) → OnOk Q (f a g))
      → OnOk Q ((m >>= f) h)
  after m f h rest = bind-OnOk (λ _ _. Unit) Q m f h (anything (m h)) (λ a g _. rest a g)

module _ {W A B : Type 0} (R : Host W → Type 0) where
  always_cases :
      (f : A → Action W B) (r : Outcome A) (h' : Host W)
      → R h'
      → ((a : A) (g : Host W) → R g → R (f a g).1)
      → R (
          (elim r as (λ _. Outcome B × Host W) [
            | ok a ↦ f a h'
            | err e ↦ (err e, h')
            | fault ↦ (fault, h')
          ]).1)
  always_cases f (ok a) h' first rest = rest a h' first
  always_cases f (err e) h' first rest = first
  always_cases f fault h' first rest = first

  -- A property of states that a call ensures, and its continuation keeps, holds of the whole.
  pub bind_always :
      (m : Action W A) (f : A → Action W B) (h : Host W)
      → R (m h).1
      → ((a : A) (g : Host W) → R g → R (f a g).1)
      → R ((m >>= f) h).1
  unfolding ◌>>=◌
  bind_always m f h first rest = always_cases f (m h).0 (m h).1 first rest

pub never_ok : {W A : Type 0} (r : Outcome A × Host W) → OnOk (λ _ _. ⊥) r → is_ok r.0 ≡ false
never_ok (ok a, h) x = absurd x
never_ok (err e, h) x = refl
never_ok (fault, h) x = refl
