-- ===== src/Prelude/Outcome.antt =====
-- What a call comes to: it returns, an exception leaves it, or the fuel of a loop runs out. The
-- theorems on termination show that the third never happens.
use mathlib.Core.Path.{◌≡◌, refl}
use mathlib.Core.Option.{Option, none, some}
use mathlib.Core.Logic.{◌≢◌}

pub data Run {ℓ} (A : Type ℓ) : Type ℓ where
  done : A → Run A
  threw : Run A
  out_of_fuel : Run A

infixl 5 ◌>>=◌ ◌>>◌
abbrev pub ◌>>=◌ {ℓ κ} : {A : Type ℓ} {B : Type κ} → Run A → (A → Run B) → Run B
done a >>= f = f a
threw >>= f = threw
out_of_fuel >>= f = out_of_fuel

abbrev pub ◌>>◌ {ℓ} : {B : Type ℓ} → Run (Unit {0}) → Run B → Run B
m >> k = m >>= λ _. k

-- `optional::value()`, a null pointer that is checked, `vector::at`.
abbrev pub or_throw {ℓ} : {A : Type ℓ} → Option A → Run A
or_throw none = threw
or_throw (some a) = done a

-- Inversion of a bind that returns.
pub >>=-eq-done {ℓ κ} :
    {A : Type ℓ} {B : Type κ} (m : Run A) (f : A → Run B) {b : B}
    → (m >>= f) ≡ done b
    → (a : A) × (m ≡ done a) × (f a ≡ done b)
>>=-eq-done (done a) f h = (a, refl, h)
>>=-eq-done threw f h = cc
>>=-eq-done out_of_fuel f h = cc

pub Run-cases {ℓ} : {A : Type ℓ} (m : Run A) → m ≢ out_of_fuel → ((a : A) → m ≢ done a) → m ≡ threw
Run-cases (done a) h k = absurd (k a refl)
Run-cases threw h k = refl
Run-cases out_of_fuel h k = absurd (h refl)

-- A bind runs out of fuel only where a part does.
pub >>=-ne-out {ℓ κ} :
    {A : Type ℓ} {B : Type κ} (m : Run A) (f : A → Run B)
    → m ≢ out_of_fuel
    → ((a : A) → f a ≢ out_of_fuel)
    → (m >>= f) ≢ out_of_fuel
>>=-ne-out (done a) f h k = k a
>>=-ne-out threw f h k = λ e. cc
>>=-ne-out out_of_fuel f h k = absurd (h refl)

pub or_throw-ne-out {ℓ} : {A : Type ℓ} (o : Option A) → or_throw o ≢ out_of_fuel
or_throw-ne-out none = λ e. cc
or_throw-ne-out (some a) = λ e. cc
