-- ===== src/Prelude/Outcome.antt =====
-- How a call ends: with a value, or by one of the ways in which a C++ call of the program stops.
use mathlib.Core.Path.{◌≡◌, refl}
use mathlib.Core.Bool.{Bool, true, false, false≢true}
use mathlib.Core.Logic.{◌⊎◌, inl, inr}
use windz.Prelude.Tests.{if◌then◌else◌}

-- A failed `assert`, an access outside an array, a `std::length_error`, a call of an empty
-- `std::function`, a use of a null pointer, or the end of the model's fuel.
pub data Fault : Type 0 where
  assertion out_of_bounds length_error bad_function_call null_pointer out_of_fuel : Fault

pub data Run {ℓ} (A : Type ℓ) : Type ℓ where
  ok : A → Run A
  fault : Fault → Run A

-- What follows a call runs only if it returned.
infixl 5 ◌>>=◌ ◌>>◌
abbrev pub ◌>>=◌ {ℓA ℓB} : {A : Type ℓA} {B : Type ℓB} → Run A → (A → Run B) → Run B
fault e >>= next = fault e
ok a >>= next = next a

abbrev pub ◌>>◌ {ℓ} : {B : Type ℓ} → Run (Unit {0}) → Run B → Run B
m >> k = m >>= λ _. k

abbrev pub require : Bool → Fault → Run (Unit {0})
require true e = ok tt
require false e = fault e

-- `assert(b)`
abbrev pub assert : Bool → Run (Unit {0})
assert b = require b assertion

-- The call returns a value of which `P` holds.
pub data Returns {ℓA ℓP} {A : Type ℓA} (P : A → Type ℓP) : Run A → Type (ℓA ⊔ ℓP) where
  returns : {a : A} → P a → Returns P (ok a)

module _ {ℓA ℓP} {A : Type ℓA} {P : A → Type ℓP} where
  pub Returns-if :
      {t e : Run A} (test : Bool)
      → (test ≡ true → Returns P t)
      → (test ≡ false → Returns P e)
      → Returns P (if test then t else e)
  Returns-if false on_true on_false = on_false refl
  Returns-if true on_true on_false = on_true refl

  -- A test that holds is passed.
  pub Returns-require :
      {r : Run A} (b : Bool) (e : Fault) → b ≡ true → Returns P r → Returns P (require b e >> r)
  Returns-require true e h p = p
  Returns-require false e h p = absurd (false≢true h)

  pub Returns-inv : {call : Run A} → Returns P call → (a : A) × (call ≡ ok a) × P a
  Returns-inv (returns held) = (_, refl, held)

  pub Returns-bind {ℓB ℓQ} :
      {B : Type ℓB} {Q : B → Type ℓQ} {call : Run A} {next : A → Run B}
      → Returns P call
      → ((a : A) → P a → Returns Q (next a))
      → Returns Q (call >>= next)
  Returns-bind (returns held) follow = follow _ held

  pub Returns-map {ℓQ} :
      {Q : A → Type ℓQ} {call : Run A} → Returns P call → ((a : A) → P a → Q a) → Returns Q call
  Returns-map (returns held) weaken = returns (weaken _ held)

  -- A call that returns does not fault.
  pub Returns-ne-fault : {e : Fault} → Returns P (fault e) → ⊥
  Returns-ne-fault r = go r refl
    where
      go : {s : Run A} {e : Fault} → Returns P s → s ≡ fault e → ⊥
      go (returns p) h = cc

module _ {ℓ} {A : Type ℓ} where
  pub Run-cases : (r : Run A) → ((a : A) × (r ≡ ok a)) ⊎ ((e : Fault) × (r ≡ fault e))
  Run-cases (ok a) = inl (a, refl)
  Run-cases (fault e) = inr (e, refl)

  pub fault-ne-ok : {e : Fault} {a : A} → fault e ≡ ok a → ⊥
  fault-ne-ok h = cc

  pub ok-injective : {a b : A} → ok a ≡ ok b → a ≡ b
  ok-injective h = cc

-- What went before a call that returned had returned.
pub ok_of_bind {ℓA ℓB} :
    {A : Type ℓA} {B : Type ℓB} (r : Run A) (next : A → Run B) {b : B}
    → (r >>= next) ≡ ok b
    → (a : A) × (r ≡ ok a) × (next a ≡ ok b)
ok_of_bind (ok a) next h = (a, refl, h)
ok_of_bind (fault e) next h = absurd (fault-ne-ok h)

pub require_passed : (b : Bool) (e : Fault) {u : Unit {0}} → require b e ≡ ok u → b ≡ true
require_passed true e h = refl
require_passed false e h = absurd (fault-ne-ok h)
