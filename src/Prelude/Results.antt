-- ===== src/Prelude/Results.antt =====
-- A call that returns or throws. Each module of the model has its own type of errors.
use mathlib.Core.Path.{◌≡◌, refl}
use mathlib.Core.Logic.{◌⊎◌, inl, inr}
use mathlib.Core.Bool.{Bool, true, false}
use mathlib.Core.Option.{Option, none, some}
use wiredraft.Prelude.Tests.{if◌then◌else◌}

pub data Result {ℓ κ} (Thrown : Type ℓ) (A : Type κ) : Type (ℓ ⊔ κ) where
  ok : A → Result Thrown A
  err : Thrown → Result Thrown A

-- The code after a call: it runs only if the call returns.
infixl 5 ◌>>=◌
abbrev pub ◌>>=◌ {ℓ} :
    {Thrown : Type 0} {A B : Type ℓ} → Result Thrown A → (A → Result Thrown B) → Result Thrown B
err thrown >>= rest = err thrown
ok value >>= rest = rest value

pub Result-cases {ℓ κ} :
    {Thrown : Type ℓ} {A : Type κ} (r : Result Thrown A)
    → ((value : A) × (r ≡ ok value)) ⊎ ((thrown : Thrown) × (r ≡ err thrown))
Result-cases (ok value) = inl (value, refl)
Result-cases (err thrown) = inr (thrown, refl)

-- What a call that returned has passed: a call before it, a test that throws, an absent value.
pub returned_before {ℓ} :
    {Thrown : Type 0} {A B : Type ℓ} (call : Result Thrown A) (rest : A → Result Thrown B)
    {value : B}
    → (call >>= rest) ≡ ok value
    → (first : A) × (call ≡ ok first) × (rest first ≡ ok value)
returned_before (err thrown) rest h = cc
returned_before (ok first) rest h = (first, refl, h)

pub passed_test {ℓ} :
    {Thrown : Type 0} {A : Type ℓ} (test : Bool) (thrown : Thrown) (rest : Result Thrown A)
    {value : A}
    → (if test then err thrown else rest) ≡ ok value
    → (test ≡ false) × (rest ≡ ok value)
passed_test true thrown rest h = cc
passed_test false thrown rest h = (refl, h)

-- `if (!value) throw`
abbrev pub present {ℓ} : {Thrown : Type 0} {A : Type ℓ} → Option A → Thrown → Result Thrown A
present none thrown = err thrown
present (some value) thrown = ok value

pub was_present {ℓ} :
    {Thrown : Type 0} {A : Type ℓ} (o : Option A) (thrown : Thrown) {value : A}
    → present o thrown ≡ ok value
    → o ≡ some value
was_present none thrown h = cc
was_present (some a) thrown h = cc h

pub returned_value {ℓ} :
    {Thrown : Type 0} {A : Type ℓ} {a b : A} (returned : Result Thrown A)
    → returned ≡ ok a
    → returned ≡ ok b
    → a ≡ b
returned_value returned h k = cc

-- What holds of the value on either branch of a test.
pub on_either {ℓ κ} :
    {Thrown : Type 0} {A : Type ℓ} (P : A → Type κ) (test : Bool) {this other : Result Thrown A}
    {value : A}
    → (test ≡ true → this ≡ ok value → P value)
    → (test ≡ false → other ≡ ok value → P value)
    → (if test then this else other) ≡ ok value
    → P value
on_either P true f g h = f refl h
on_either P false f g h = g refl h

-- `if (!value) return null`, and the code after it.
abbrev pub if_given {ℓ κ} : {A : Type ℓ} {B : Type κ} → Option A → (A → Option B) → Option B
if_given none rest = none
if_given (some value) rest = rest value

pub was_given {ℓ κ} :
    {A : Type ℓ} {B : Type κ} (o : Option A) (rest : A → Option B) {result : B}
    → if_given o rest ≡ some result
    → (value : A) × (o ≡ some value) × (rest value ≡ some result)
was_given none rest h = cc
was_given (some value) rest h = (value, refl, h)

-- `if (test) return null`
pub passed_none {ℓ} :
    {A : Type ℓ} (test : Bool) (o : Option A) {a : A}
    → (if test then none else o) ≡ some a
    → (test ≡ false) × (o ≡ some a)
passed_none true o h = cc
passed_none false o h = (refl, h)

pub same_value {ℓ} : {A : Type ℓ} {a b : A} → some a ≡ some b → a ≡ b
same_value h = cc
