-- ===== src/Common/Outcomes.antt =====
-- A value or an exception. `E` is the type of what the component may raise.
use mathlib.Core.Path.{◌≡◌, refl}
use mathlib.Core.Bool.{Bool, true, false}
use mathlib.Core.Option.{Option, some}

pub data Result {ℓ} (E A : Type ℓ) : Type ℓ where
  ok : A → Result E A
  raised : E → Result E A

infixl 10 ◌>>=◌ ◌>>◌
abbrev pub ◌>>=◌ {ℓ} : {E A B : Type ℓ} → Result E A → (A → Result E B) → Result E B
ok a >>= f = f a
raised e >>= f = raised e

abbrev pub ◌>>◌ {ℓ} : {E A B : Type ℓ} → Result E A → Result E B → Result E B
m >> k = m >>= λ _. k

-- `if bad: raise e`.
abbrev pub refuse_if : {E : Type 0} → Bool → E → Result E (Unit {0})
refuse_if true e = raised e
refuse_if false e = ok tt

pub refuse_if-ok : {E : Type 0} (b : Bool) (e : E) → refuse_if b e ≡ ok tt → b ≡ false
refuse_if-ok true e h = cc
refuse_if-ok false e h = refl

-- Inversion of a check that is followed by something else.
pub then-ok :
    {E B : Type 0} (m : Result E (Unit {0})) (k : Result E B) {b : B}
    → (m >> k) ≡ ok b
    → (m ≡ ok tt) × (k ≡ ok b)
then-ok (ok tt) k h = (refl, h)
then-ok (raised e) k h = cc

pub >>=-ok :
    {E A B : Type 0} (m : Result E A) (f : A → Result E B) {b : B}
    → (m >>= f) ≡ ok b
    → (a : A) × (m ≡ ok a) × (f a ≡ ok b)
>>=-ok (ok a) f h = (a, refl, h)
>>=-ok (raised e) f h = cc

pub ok-injective : {E A : Type 0} {a b : A} → ◌≡◌ {A = Result E A} (ok a) (ok b) → b ≡ a
ok-injective h = cc

pub ok-some-injective :
    {E A : Type 0} {a b : A} → ◌≡◌ {A = Result E (Option A)} (ok (some a)) (ok (some b)) → a ≡ b
ok-some-injective h = cc
