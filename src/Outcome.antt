-- ===== src/Outcome.antt =====
-- How a call ends: with a value, with an access outside an array, or not within the fuel of a loop.
use o2k.Prelude.{◌≡◌, refl, subst, Bool, true, false, if◌then◌else◌}

pub data Outcome {ℓ} (A : Type ℓ) : Type ℓ where
  ok : A → Outcome A
  fault : Outcome A
  stuck : Outcome A

infixl 5 ◌>>=◌
abbrev pub ◌>>=◌ {ℓ κ} : {A : Type ℓ} {B : Type κ} → Outcome A → (A → Outcome B) → Outcome B
ok a >>= f = f a
fault >>= f = fault
stuck >>= f = stuck

-- A bind that ended with a value had a first part that did.
pub bind-eq-ok {ℓ κ} :
    {A : Type ℓ} {B : Type κ} (m : Outcome A) (f : A → Outcome B) {b : B}
    → (m >>= f) ≡ ok b
    → (a : A) × (m ≡ ok a) × (f a ≡ ok b)
bind-eq-ok (ok a) f h = (a, refl, h)
bind-eq-ok fault f h = cc
bind-eq-ok stuck f h = cc

-- The call ends with a value, and `P` holds of it.
pub record Returns {ℓ κ} {A : Type ℓ} (P : A → Type κ) (m : Outcome A) : Type (ℓ ⊔ κ) where
  pub value : A
  pub ends : m ≡ ok value
  pub holds : P value

module _ {ℓ κ λ'} {A : Type ℓ} {P : A → Type κ} {Q : A → Type λ'} where
  pub Returns-weaken : {m : Outcome A} → Returns P m → ((a : A) → P a → Q a) → Returns Q m
  Returns-weaken r f = record { value = r.value; ends = r.ends; holds = f r.value r.holds }

module _ {ℓ ℓ' κ λ'} {A : Type ℓ} {B : Type ℓ'} {P : A → Type κ} {Q : B → Type λ'} where
  pub Returns-bind :
      (m : Outcome A) (f : A → Outcome B)
      → Returns P m
      → ((a : A) → m ≡ ok a → P a → Returns Q (f a))
      → Returns Q (m >>= f)
  Returns-bind m f r k = rw r.ends (k r.value r.ends r.holds)

module _ {ℓ κ} {A : Type ℓ} {P : A → Type κ} where
  pub Returns-ok : (a : A) → P a → Returns P (ok a)
  Returns-ok a h = record { value = a; ends = refl; holds = h }

  pub Returns-if :
      (b : Bool) (m m' : Outcome A)
      → (b ≡ true → Returns P m)
      → (b ≡ false → Returns P m')
      → Returns P (if b then m else m')
  Returns-if true m m' f g = f refl
  Returns-if false m m' f g = g refl

-- If the call ends with a value, `P` holds of it.
abbrev pub Ensures {ℓ κ} : {A : Type ℓ} → (A → Type κ) → Outcome A → Type κ
Ensures P (ok a) = P a
Ensures P fault = Unit
Ensures P stuck = Unit

pub Ensures-bind {ℓ ℓ' κ λ'} :
    {A : Type ℓ} {B : Type ℓ'} (P : A → Type κ) (Q : B → Type λ') (m : Outcome A)
    (f : A → Outcome B)
    → Ensures P m
    → ((a : A) → P a → Ensures Q (f a))
    → Ensures Q (m >>= f)
Ensures-bind P Q (ok a) f h k = k a h
Ensures-bind P Q fault f h k = tt
Ensures-bind P Q stuck f h k = tt

pub Ensures-if {ℓ κ} :
    {A : Type ℓ} (P : A → Type κ) (b : Bool) (m m' : Outcome A)
    → Ensures P m
    → Ensures P m'
    → Ensures P (if b then m else m')
Ensures-if P true m m' f g = f
Ensures-if P false m m' f g = g

pub Ensures-weaken {ℓ κ λ'} :
    {A : Type ℓ} (P : A → Type κ) (Q : A → Type λ') (m : Outcome A)
    → Ensures P m
    → ((a : A) → P a → Ensures Q (ok a))
    → Ensures Q m
Ensures-weaken P Q (ok a) h k = k a h
Ensures-weaken P Q fault h k = tt
Ensures-weaken P Q stuck h k = tt

pub Returns-Ensures {ℓ κ λ'} :
    {A : Type ℓ} (P : A → Type κ) (Q : A → Type λ') (m : Outcome A)
    → Returns P m
    → Ensures Q m
    → Returns (λ a. P a × Q a) m
Returns-Ensures P Q (ok a) r h =
    let same : r.value ≡ a = cc (r.ends) in Returns-ok a (subst P same r.holds, h)
Returns-Ensures P Q fault r h = cc (r.ends)
Returns-Ensures P Q stuck r h = cc (r.ends)
