-- ===== src/Base/Outcome.antt =====
-- How a piece of Go code ends: it returns a value, it panics (a nil pointer, a write to a nil map,
-- an index out of range), or the fuel of the model runs out.
use mathlib.Core.Path.{◌≡◌, refl}
use mathlib.Core.Bool.{Bool, true, false}
use mathlib.Core.Option.{Option, none, some}
use lightspeed_chat.Base.Tests.{if◌then◌else◌}

pub data Run {ℓ} (A : Type ℓ) : Type ℓ where
  returns : A → Run A
  panics : Run A
  runs_on : Run A

infixl 5 ◌>>=◌
abbrev pub ◌>>=◌ {ℓ κ} : {A : Type ℓ} {B : Type κ} → Run A → (A → Run B) → Run B
returns a >>= f = f a
panics >>= f = panics
runs_on >>= f = runs_on

-- Inversion of a bind that returns.
pub >>=-eq-returns {ℓ κ} :
    {A : Type ℓ} {B : Type κ} (m : Run A) (f : A → Run B) {b : B}
    → (m >>= f) ≡ returns b
    → (a : A) × (m ≡ returns a) × (f a ≡ returns b)
>>=-eq-returns (returns a) f h = (a, refl, h)
>>=-eq-returns panics f h = cc
>>=-eq-returns runs_on f h = cc

-- The code ended with a value of which the predicate holds, or panicked; it did not run on.
abbrev pub Ensures : {A : Type 0} → (A → Type 0) → Run A → Type 0
Ensures P (returns a) = P a
Ensures P panics = Unit
Ensures P runs_on = ⊥

pub Ensures-bind :
    {A B : Type 0} (P : A → Type 0) (Q : B → Type 0) (m : Run A) (f : A → Run B)
    → Ensures P m
    → ((a : A) → P a → Ensures Q (f a))
    → Ensures Q (m >>= f)
Ensures-bind P Q (returns a) f h k = k a h
Ensures-bind P Q panics f h k = tt
Ensures-bind P Q runs_on f h k = h

-- The same, with the equation of the value.
pub Ensures-bind_eq :
    {A B : Type 0} (Q : B → Type 0) (m : Run A) (f : A → Run B)
    → Ensures (λ _. Unit {0}) m
    → ((a : A) → m ≡ returns a → Ensures Q (f a))
    → Ensures Q (m >>= f)
Ensures-bind_eq Q (returns a) f h k = k a refl
Ensures-bind_eq Q panics f h k = tt
Ensures-bind_eq Q runs_on f h k = h

pub Ensures-if :
    {A : Type 0} (P : A → Type 0) (b : Bool) (x y : Run A)
    → (b ≡ true → Ensures P x)
    → (b ≡ false → Ensures P y)
    → Ensures P (if b then x else y)
Ensures-if P true x y hx hy = hx refl
Ensures-if P false x y hx hy = hy refl

pub Ensures-option :
    {A B : Type 0} (Q : B → Type 0) (o : Option A) (x : Run B) (f : A → Run B)
    → (o ≡ none → Ensures Q x)
    → ((a : A) → o ≡ some a → Ensures Q (f a))
    → Ensures Q (elim o [ none ↦ x | some a ↦ f a ])
Ensures-option Q none x f hx hf = hx refl
Ensures-option Q (some a) x f hx hf = hf a refl

pub Ensures-imp :
    {A : Type 0} (P Q : A → Type 0) (m : Run A) → Ensures P m → ((a : A) → P a → Q a) → Ensures Q m
Ensures-imp P Q (returns a) h k = k a h
Ensures-imp P Q panics h k = tt
Ensures-imp P Q runs_on h k = h

-- The code ends: it returns or panics.
abbrev pub Ends : {A : Type 0} → Run A → Type 0
Ends = Ensures (λ _. Unit {0})

pub Ends-bind :
    {A B : Type 0} (m : Run A) (f : A → Run B) → Ends m → ((a : A) → Ends (f a)) → Ends (m >>= f)
Ends-bind (returns a) f h k = k a
Ends-bind panics f h k = tt
Ends-bind runs_on f h k = h

-- The code returns, with a value of which the predicate holds.
abbrev pub Safely : {A : Type 0} → (A → Type 0) → Run A → Type 0
Safely P (returns a) = P a
Safely P _ = ⊥

pub Safely-bind :
    {A B : Type 0} (P : A → Type 0) (Q : B → Type 0) (m : Run A) (f : A → Run B)
    → Safely P m
    → ((a : A) → P a → Safely Q (f a))
    → Safely Q (m >>= f)
Safely-bind P Q (returns a) f h k = k a h
Safely-bind P Q panics f h k = absurd h
Safely-bind P Q runs_on f h k = absurd h

pub Safely-if :
    {A : Type 0} (P : A → Type 0) (b : Bool) (x y : Run A)
    → (b ≡ true → Safely P x)
    → (b ≡ false → Safely P y)
    → Safely P (if b then x else y)
Safely-if P true x y hx hy = hx refl
Safely-if P false x y hx hy = hy refl

pub Safely-option :
    {A B : Type 0} (P : B → Type 0) (o : Option A) (x : Run B) (f : A → Run B)
    → (o ≡ none → Safely P x)
    → ((a : A) → o ≡ some a → Safely P (f a))
    → Safely P (elim o [ none ↦ x | some a ↦ f a ])
Safely-option P none x f hx hf = hx refl
Safely-option P (some a) x f hx hf = hf a refl

pub Safely-ne-panics : {A : Type 0} (P : A → Type 0) (m : Run A) → Safely P m → m ≡ panics → ⊥
Safely-ne-panics P (returns a) h e = cc
Safely-ne-panics P panics h e = h
Safely-ne-panics P runs_on h e = h
