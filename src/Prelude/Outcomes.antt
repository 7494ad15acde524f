-- ===== src/Prelude/Outcomes.antt =====
-- What a C++ call comes to: it returns, it throws an exception, or it leaves the defined
-- behaviour of the language (an access out of bounds, a failed assertion).
use mathlib.Core.Path.{◌≡◌, refl}
use mathlib.Core.Bool.{Bool, true, false}
use testshop.Prelude.Tests.{if◌then◌else◌}

pub data Outcome {ℓ} (A : Type ℓ) : Type ℓ where
  ok : A → Outcome A
  throws : Outcome A
  faults : Outcome A

infixl 5 ◌>>=◌
abbrev pub ◌>>=◌ {ℓ κ} : {A : Type ℓ} {B : Type κ} → Outcome A → (A → Outcome B) → Outcome B
ok a >>= f = f a
throws >>= f = throws
faults >>= f = faults

-- Inversion of a sequence that returns.
pub >>=-eq-ok {ℓ κ} :
    {A : Type ℓ} {B : Type κ} (first : Outcome A) (next : A → Outcome B) {y : B}
    → (first >>= next) ≡ ok y
    → (x : A) × (first ≡ ok x) × (next x ≡ ok y)
>>=-eq-ok throws next h = cc
>>=-eq-ok faults next h = cc
>>=-eq-ok (ok x) next h = (x, refl, h)

pub ok_injective {ℓ} : {A : Type ℓ} {a b : A} → ok a ≡ ok b → a ≡ b
ok_injective {A} {a} {b} h = cc

-- The two ways to a result of a conditional.
pub split_if {ℓ κ} :
    {A : Type ℓ} {P : Type κ} (b : Bool) {x y : Outcome A} {a : A}
    → (b ≡ true → x ≡ ok a → P)
    → (b ≡ false → y ≡ ok a → P)
    → (if b then x else y) ≡ ok a
    → P
split_if true then' else' h = then' refl h
split_if false then' else' h = else' refl h
