-- ===== src/Base/Faults.antt =====
-- A run of C code: it ends with a value, or it faults. A fault is a read or a write outside an
-- object, a use of a null pointer, or a call that the C runtime answers by its invalid parameter
-- handler.
use mathlib.Core.Path.{◌≡◌, refl}
use mathlib.Core.Logic.{◌≢◌}
use mathlib.Core.Bool.{Bool, true, false}
use mathlib.Core.Option.{Option, none, some}

pub data Run {ℓ} (A : Type ℓ) : Type ℓ where
  fault : Run A
  ok : A → Run A

-- What the code takes for granted: the run faults where the test fails.
abbrev pub expect : Bool → Run (Unit {0})
expect false = fault
expect true = ok tt

-- A run, and what is done with its value where it has one.
infixl 5 ◌>>=◌
abbrev pub ◌>>=◌ {ℓ κ} : {A : Type ℓ} {B : Type κ} (m : Run A) (next : A → Run B) → Run B
fault >>= next = fault
ok value >>= next = next value

infixl 5 ◌>>◌
abbrev pub ◌>>◌ {ℓ} : {B : Type ℓ} (m : Run (Unit {0})) (next : Run B) → Run B
m >> next = m >>= λ _. next

-- A pointer that is used.
abbrev pub deref {ℓ} : {A : Type ℓ} → Option A → Run A
deref none = fault
deref (some a) = ok a

pub >>=-after {ℓ κ μ} :
    {A : Type ℓ} {B : Type κ} {C : Type μ} (r : Run A) (f : A → B) (k : B → Run C)
    → ((r >>= λ (a : A). ok (f a)) >>= k) ≡ (r >>= λ (a : A). k (f a))
>>=-after (ok a) f k = refl
>>=-after fault f k = refl

pub >>=-cong {ℓ κ} :
    {A : Type ℓ} {B : Type κ} {f g : A → Run B} (r : Run A)
    → ((a : A) → f a ≡ g a)
    → (r >>= f) ≡ (r >>= g)
>>=-cong (ok a) h = h a
>>=-cong fault h = refl

pub >>=_assoc {ℓ κ μ} :
    {A : Type ℓ} {B : Type κ} {C : Type μ} (r : Run A) (f : A → Run B) (k : B → Run C)
    → ((r >>= f) >>= k) ≡ (r >>= λ (a : A). (f a >>= k))
>>=_assoc (ok a) f k = refl
>>=_assoc fault f k = refl

fault≢ok {ℓ} : {A : Type ℓ} {a : A} → fault ≢ ok a
fault≢ok h = cc

pub >>=-ok {ℓ κ} :
    {A : Type ℓ} {B : Type κ} (r : Run A) (f : A → Run B) (b : B)
    → (r >>= f) ≡ ok b
    → (a : A) × (r ≡ ok a) × (f a ≡ ok b)
>>=-ok (ok a) f b h = (a, refl, h)
>>=-ok fault f b h = absurd (fault≢ok h)
