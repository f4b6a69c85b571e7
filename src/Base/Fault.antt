-- ===== src/Base/Fault.antt =====
-- Results of C code: a value, a fault, which stands for undefined behaviour such as an access
-- outside an object or the use of an indeterminate pointer, the end of the process by `exit`, or a
-- process that is still inside a call of a library: the outcomes that are given do not end it.
use mathlib.Core.Path.{◌≡◌, refl, subst}

pub data Run {ℓ} (A : Type ℓ) : Type ℓ where
  ok : A → Run A
  fault : Run A
  exited : Run A
  blocked : Run A

module _ {ℓ κ} {A : Type ℓ} {B : Type κ} where
  infixl 5 ◌>>=◌
  abbrev pub ◌>>=◌ : Run A → (A → Run B) → Run B
  ok a >>= f = f a
  fault >>= f = fault
  exited >>= f = exited
  blocked >>= f = blocked

-- What holds of the value if there is one.
abbrev pub Holds {ℓ} : {A : Type ℓ} → (A → Type 0) → Run A → Type 0
Holds P (ok a) = P a
Holds P fault = Unit
Holds P exited = Unit
Holds P blocked = Unit

pub Holds->>= {ℓ} :
    {A B : Type ℓ} (P : A → Type 0) (Q : B → Type 0) (m : Run A) (f : A → Run B)
    → Holds P m
    → ((a : A) → P a → Holds Q (f a))
    → Holds Q (m >>= f)
Holds->>= P Q (ok a) f h g = g a h
Holds->>= P Q fault f h g = tt
Holds->>= P Q exited f h g = tt
Holds->>= P Q blocked f h g = tt

pub Holds-any {ℓ} : {A : Type ℓ} (m : Run A) → Holds (λ a. Unit) m
Holds-any (ok a) = tt
Holds-any fault = tt
Holds-any exited = tt
Holds-any blocked = tt

-- What holds behind a call whatever the call gives back.
pub Holds-behind {ℓ} :
    {A B : Type ℓ} (Q : B → Type 0) (m : Run A) (f : A → Run B)
    → ((a : A) → Holds Q (f a))
    → Holds Q (m >>= f)
Holds-behind Q m f g = Holds->>= (λ a. Unit) Q m f (Holds-any m) (λ a u. g a)

pub bind_congr {ℓ} :
    {A B : Type ℓ} (m : Run A) (f g : A → Run B) → ((a : A) → f a ≡ g a) → (m >>= f) ≡ (m >>= g)
bind_congr (ok a) f g h = h a
bind_congr fault f g h = refl
bind_congr exited f g h = refl
bind_congr blocked f g h = refl

pub Holds-weaken {ℓ} :
    {A : Type ℓ} (P Q : A → Type 0) → ((a : A) → P a → Q a) → (m : Run A) → Holds P m → Holds Q m
Holds-weaken P Q h (ok a) p = h a p
Holds-weaken P Q h fault p = tt
Holds-weaken P Q h exited p = tt
Holds-weaken P Q h blocked p = tt

pub Holds-ok {ℓ} : {A : Type ℓ} (P : A → Type 0) (m : Run A) (a : A) → m ≡ ok a → Holds P m → P a
Holds-ok P m a e h = subst (λ r. Holds P r) e h
