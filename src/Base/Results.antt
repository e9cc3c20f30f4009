-- ===== src/Base/Results.antt =====
-- Steps that may not return, one after another, and what they ensure where they do return.
use mathlib.Core.Path.{◌≡◌, subst}
use mathlib.Core.Option.{Option, none, some}

infixl 5 ◌>>=◌
abbrev pub ◌>>=◌ {ℓ κ} : {A : Type ℓ} {B : Type κ} → Option A → (A → Option B) → Option B
none >>= f = none
some a >>= f = f a

-- It returns, and the result has a property.
abbrev pub Ensures {ℓ} : {A : Type ℓ} → (A → Type 0) → Option A → Type 0
Ensures P none = ⊥
Ensures P (some a) = P a

pub Ensures-bind {ℓ κ} :
    {A : Type ℓ} {B : Type κ} (P : A → Type 0) (Q : B → Type 0) (m : Option A) (f : A → Option B)
    → Ensures P m
    → ((a : A) → P a → Ensures Q (f a))
    → Ensures Q (m >>= f)
Ensures-bind P Q none f p next = p
Ensures-bind P Q (some a) f p next = next a p

pub Ensures_mono {ℓ} :
    {A : Type ℓ} (P Q : A → Type 0) (m : Option A)
    → ((a : A) → P a → Q a)
    → Ensures P m
    → Ensures Q m
Ensures_mono P Q none f p = p
Ensures_mono P Q (some a) f p = f a p

pub Ensures-at {ℓ} :
    {A : Type ℓ} (P : A → Type 0) (m : Option A) (a : A) → m ≡ some a → Ensures P m → P a
Ensures-at P m a e p = subst (Ensures P) e p
