-- ===== src/Common/Faults.antt =====
-- What running a piece of C comes to: a value, or a fault from which the model does not go on.
-- `bad_read` and `bad_write` are accesses outside of the object, `aborted` is a call of abort()
-- and `exited` one of exit().
use mathlib.Core.Path.{◌≡◌, refl, sym, ap, subst}
use mathlib.Core.Bool.{Bool, true, false}
use atx_sys.Common.Tests.{if◌then◌else◌}

pub data Fault : Type 0 where
  bad_read bad_write failed_assert aborted : Fault
  out_of_fuel : Fault
  exited : Fault

pub data Result {ℓ} (A : Type ℓ) : Type ℓ where
  ok : A → Result A
  fault : Fault → Result A

infixl 5 ◌>>=◌ ◌>>◌
abbrev pub ◌>>=◌ {ℓ κ} : {A : Type ℓ} {B : Type κ} → Result A → (A → Result B) → Result B
ok a >>= f = f a
fault e >>= f = fault e

abbrev pub ◌>>◌ {ℓ} : {B : Type ℓ} → Result (Unit {0}) → Result B → Result B
m >> k = m >>= λ _. k

-- The value that a result goes on with.
pub bind-ok :
    {A B : Type 0} (r : Result A) (k : A → Result B) (b : B)
    → (r >>= k) ≡ ok b
    → (a : A) × (r ≡ ok a) × (k a ≡ ok b)
bind-ok (ok a) k b h = (a, refl, h)
bind-ok (fault e) k b h = absurd (clash h)
  where
    clash : fault e ≡ ok b → ⊥
    clash h = cc

pub ok-injective : {A : Type 0} {a b : A} → ok a ≡ ok b → a ≡ b
ok-injective h = cc

pub pair-injective :
    {A B : Type 0} {a c : A} {b d : B} → ◌≡◌ {A = A × B} (a, b) (c, d) → (a ≡ c) × (b ≡ d)
pair-injective h = (ap (λ p. p.0) h, ap (λ p. p.1) h)

-- A result that is no fault.
abbrev pub IsOk : {A : Type 0} → Result A → Type 0
IsOk (ok a) = Unit {0}
IsOk (fault e) = ⊥

pub ok_value : {A : Type 0} (r : Result A) → IsOk r → (a : A) × (r ≡ ok a)
ok_value (ok a) h = (a, refl)
ok_value (fault e) h = absurd h

pub IsOk-bind :
    {A B : Type 0} (r : Result A) (k : A → Result B)
    → IsOk r
    → ((a : A) → r ≡ ok a → IsOk (k a))
    → IsOk (r >>= k)
IsOk-bind (ok a) k h next = next a refl
IsOk-bind (fault e) k h next = h

pub IsOk-if : {A : Type 0} (b : Bool) (x y : Result A) → IsOk x → IsOk y → IsOk (if b then x else y)
IsOk-if true x y h k = h
IsOk-if false x y h k = k

pub eq-IsOk : {A : Type 0} (r : Result A) {a : A} → r ≡ ok a → IsOk r
eq-IsOk r e = subst IsOk (sym e) tt

-- What holds of a value, where there is one.
abbrev pub Holds : {A : Type 0} → (A → Type 0) → Result A → Type 0
Holds P (ok a) = P a
Holds P (fault e) = Unit

pub Holds-bind :
    {A B : Type 0} (P : B → Type 0) (r : Result A) (k : A → Result B)
    → ((a : A) → Holds P (k a))
    → Holds P (r >>= k)
Holds-bind P (ok a) k h = h a
Holds-bind P (fault e) k h = tt

pub Holds-then :
    {A B : Type 0} (P : A → Type 0) (Q : B → Type 0) (r : Result A) (k : A → Result B)
    → Holds P r
    → ((a : A) → P a → Holds Q (k a))
    → Holds Q (r >>= k)
Holds-then P Q (ok a) k h next = next a h
Holds-then P Q (fault e) k h next = tt

pub Holds-if :
    {A : Type 0} (P : A → Type 0) (b : Bool) (x y : Result A)
    → Holds P x
    → Holds P y
    → Holds P (if b then x else y)
Holds-if P true x y h k = h
Holds-if P false x y h k = k
