-- ===== src/Prelude/Returns.antt =====
-- Code that returns or panics, and how that follows from its parts.
use mathlib.Core.Path.{◌≡◌, refl}
use mathlib.Core.Logic.{◌⊎◌, inl, inr}
use mathlib.Core.Bool.{Bool, true, false}
use mathlib.Core.Option.{Option, none, some}
use glenda.Prelude.Tests.{if◌then◌else◌}
use glenda.Prelude.Panics.{Outcome, ok, panic, stuck, ◌>>=◌, assert, expect}

-- The code returns or panics; it does not run forever.
pub data Ends {ℓ} {A : Type ℓ} : Outcome A → Type ℓ where
  returns : {a : A} → Ends (ok a)
  panics : Ends panic

pub >>=-Ends {ℓ κ} :
    {A : Type ℓ} {B : Type κ} {m : Outcome A} {f : A → Outcome B}
    → Ends m
    → ((a : A) → Ends (f a))
    → Ends (m >>= f)
>>=-Ends (returns {a}) g = g a
>>=-Ends panics g = panics

-- The same, where the value of the first part matters.
pub >>=-Ends_at {ℓ κ} :
    {A : Type ℓ} {B : Type κ} {m : Outcome A} {f : A → Outcome B}
    → Ends m
    → ((a : A) → m ≡ ok a → Ends (f a))
    → Ends (m >>= f)
>>=-Ends_at (returns {a}) g = g a refl
>>=-Ends_at panics g = panics

-- The three ways in which code ends, or does not.
pub Outcome-cases {ℓ} :
    {A : Type ℓ} (m : Outcome A) → ((a : A) × (m ≡ ok a)) ⊎ ((m ≡ panic) ⊎ (m ≡ stuck))
Outcome-cases (ok a) = inl (a, refl)
Outcome-cases panic = inr (inl refl)
Outcome-cases stuck = inr (inr refl)

pub assert-Ends : (b : Bool) → Ends (assert b)
assert-Ends true = returns
assert-Ends false = panics

pub expect-Ends {ℓ} : {A : Type ℓ} (o : Option A) → Ends (expect o)
expect-Ends none = panics
expect-Ends (some a) = returns

pub if-Ends {ℓ} :
    {A : Type ℓ} (b : Bool) {x y : Outcome A} → Ends x → Ends y → Ends (if b then x else y)
if-Ends true e f = e
if-Ends false e f = f

pub bool-Ends {ℓ} :
    {A : Type ℓ} (b : Bool) {x y : Outcome A}
    → Ends x
    → Ends y
    → Ends (elim b [ false ↦ x | true ↦ y ])
bool-Ends true e f = f
bool-Ends false e f = e

pub option-Ends {ℓ κ} :
    {A : Type ℓ} {B : Type κ} (o : Option A) {x : Outcome B} {f : A → Outcome B}
    → Ends x
    → ((a : A) → Ends (f a))
    → Ends (elim o [ none ↦ x | some a ↦ f a ])
option-Ends none e g = e
option-Ends (some a) e g = g a

-- The rules for code by its parts.
pub ruleset ends_rules =
    (returns, panics, >>=-Ends, if-Ends, bool-Ends, option-Ends, assert-Ends, expect-Ends)
