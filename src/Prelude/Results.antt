-- ===== src/Prelude/Results.antt =====
-- Results of code that may raise: `ok` the value, or `err` the exception.
use mathlib.Core.Path.{◌≡◌, refl}
use mathlib.Core.Bool.{Bool, true, false}
use mathlib.Core.Option.{Option, none, some}

pub data Result {ℓ κ} (E : Type ℓ) (A : Type κ) : Type (ℓ ⊔ κ) where
  ok : A → Result E A
  err : E → Result E A

infixl 5 ◌>>=◌ ◌>>◌
abbrev pub ◌>>=◌ {ℓ κ ρ} :
    {E : Type ℓ} {A : Type κ} {B : Type ρ} → Result E A → (A → Result E B) → Result E B
err x >>= rest = err x
ok u >>= rest = rest u

abbrev pub ◌>>◌ {ℓ κ ρ} :
    {E : Type ℓ} {A : Type κ} {B : Type ρ} → Result E A → Result E B → Result E B
first >> second = first >>= λ _. second

abbrev pub is_ok {ℓ κ} : {E : Type ℓ} {A : Type κ} → Result E A → Bool
is_ok (ok u) = true
is_ok (err x) = false

-- `if not test: raise e`.
abbrev pub require {ℓ} : {E : Type ℓ} → Bool → E → Result E (Unit {0})
require true e = ok tt
require false e = err e

-- `if test: raise e`.
abbrev pub refuse {ℓ} : {E : Type ℓ} → Bool → E → Result E (Unit {0})
refuse true e = err e
refuse false e = ok tt

-- A lookup that raises if it finds nothing.
abbrev pub require_some {ℓ κ} : {E : Type ℓ} {A : Type κ} → Option A → E → Result E A
require_some none e = err e
require_some (some a) e = ok a

pub require_some-eq {ℓ κ} :
    {E : Type ℓ} {A : Type κ} (o : Option A) (e : E) {a : A} → require_some o e ≡ ok a → o ≡ some a
require_some-eq none e h = cc
require_some-eq (some b) e h = cc

-- A chain that returns a value ran its first step, and the rest on what that returned.
pub >>=-eq-ok {ℓ κ ρ} :
    {E : Type ℓ} {A : Type κ} {B : Type ρ} (first : Result E A) (rest : A → Result E B) {v : B}
    → (first >>= rest) ≡ ok v
    → (u : A) × (first ≡ ok u) × (rest u ≡ ok v)
>>=-eq-ok (err x) rest chained = cc
>>=-eq-ok (ok u) rest chained = (u, refl, chained)

pub >>=-ok {ℓ κ} : {E : Type ℓ} {A : Type κ} (m : Result E A) → (m >>= λ a. ok a) ≡ m
>>=-ok (ok a) = refl
>>=-ok (err e) = refl

pub ok-injective {ℓ κ} :
    {E : Type ℓ} {A : Type κ} {a b : A} → ◌≡◌ {A = Result E A} (ok a) (ok b) → a ≡ b
ok-injective h = cc

-- A guard that let the chain go on held.
pub require-true {ℓ} :
    {E : Type ℓ} (b : Bool) (e : E) {x : Unit {0}} → require b e ≡ ok x → b ≡ true
require-true true e h = refl
require-true false e h = cc

pub refuse-false {ℓ} :
    {E : Type ℓ} (b : Bool) (e : E) {x : Unit {0}} → refuse b e ≡ ok x → b ≡ false
refuse-false true e h = cc
refuse-false false e h = refl
