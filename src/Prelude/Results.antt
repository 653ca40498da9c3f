-- ===== src/Prelude/Results.antt =====
-- What a C++ call comes to: a value, a thrown exception, a failed `assert`, or undefined behaviour
-- (an access outside an object, a null pointer). `past_size` is a write behind the size of a vector,
-- whether or not the memory that is reserved for it reaches further. `no_fuel` stands for a loop whose rounds ran out.
use mathlib.Core.Path.{◌≡◌, refl, subst}

pub data Fault : Type 0 where
  out_of_range assertion undefined past_size no_fuel : Fault

pub data Outcome {ℓ} (A : Type ℓ) : Type ℓ where
  ok : A → Outcome A
  fail : Fault → Outcome A

infixl 5 ◌>>=◌ ◌>>◌
abbrev pub ◌>>=◌ {ℓ κ} : {A : Type ℓ} {B : Type κ} → Outcome A → (A → Outcome B) → Outcome B
ok a >>= f = f a
fail e >>= f = fail e

abbrev pub ◌>>◌ {ℓ} : {B : Type ℓ} → Outcome (Unit {0}) → Outcome B → Outcome B
m >> k = m >>= λ _. k

-- What follows a call may be replaced pointwise, and a call that only arranges its result is taken up.
pub bind_cong {ℓ κ} :
    {A : Type ℓ} {B : Type κ} (m : Outcome A) {f g : A → Outcome B}
    → ((a : A) → f a ≡ g a)
    → (m >>= f) ≡ (m >>= g)
bind_cong (ok a) h = h a
bind_cong (fail e) h = refl

pub bind_map {ℓ κ} :
    {A : Type ℓ} {B C : Type κ} (m : Outcome A) {arrange : A → B} (f : B → Outcome C)
    {g : A → Outcome C}
    → ((a : A) → f (arrange a) ≡ g a)
    → ((m >>= λ a. ok (arrange a)) >>= f) ≡ (m >>= g)
bind_map (ok a) f h = h a
bind_map (fail e) f h = refl

-- What holds of a result, where there is one.
abbrev pub Ensures {ℓ κ} : {A : Type ℓ} → (A → Type κ) → Outcome A → Type κ
Ensures P (ok a) = P a
Ensures P (fail e) = Unit

pub Ensures-bind {ℓ κ} :
    {A B : Type ℓ} (P : B → Type κ) (m : Outcome A) (f : A → Outcome B)
    → ((a : A) → m ≡ ok a → Ensures P (f a))
    → Ensures P (m >>= f)
Ensures-bind P (ok a) f h = h a refl
Ensures-bind P (fail e) f h = tt

pub Ensures-ok {ℓ κ} :
    {A : Type ℓ} (P : A → Type κ) (m : Outcome A) (a : A) → m ≡ ok a → Ensures P m → P a
Ensures-ok P m a e h = subst (Ensures P) e h
