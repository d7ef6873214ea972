-- ===== src/Base/Run.antt =====
-- Code that may panic: a nil dereference, an index out of range, or an explicit `panic`.
use mathlib.Core.Path.{◌≡◌, refl}
use mathlib.Core.Option.{Option, none, some}

pub data Run {ℓ} (A : Type ℓ) : Type ℓ where
  done : A → Run A
  panic : Run A

infixl 5 ◌>>=◌
abbrev pub ◌>>=◌ {ℓ κ} : {A : Type ℓ} {B : Type κ} → Run A → (A → Run B) → Run B
done a >>= k = k a
panic >>= k = panic

-- `*p`
abbrev pub deref {ℓ} : {A : Type ℓ} → Option A → Run A
deref none = panic
deref (some a) = done a

-- The run ends without a panic, in a value with a property.
abbrev pub Yields {ℓ} : {A : Type ℓ} → (A → Type 0) → Run A → Type 0
Yields P (done a) = P a
Yields P panic = ⊥

pub Yields->>= {ℓ κ} :
    {A : Type ℓ} {B : Type κ} (P : A → Type 0) (Q : B → Type 0) (m : Run A) (k : A → Run B)
    → Yields P m
    → ((a : A) → P a → Yields Q (k a))
    → Yields Q (m >>= k)
Yields->>= P Q (done a) k h f = f a h
Yields->>= P Q panic k h f = absurd h

pub Yields-done {ℓ} :
    {A : Type ℓ} (P : A → Type 0) (m : Run A) → Yields P m → (a : A) × (m ≡ done a) × P a
Yields-done P (done a) h = (a, refl, h)
Yields-done P panic h = absurd h

pub >>=-eq-done {ℓ κ} :
    {A : Type ℓ} {B : Type κ} (m : Run A) (k : A → Run B) {b : B}
    → (m >>= k) ≡ done b
    → (a : A) × (m ≡ done a) × (k a ≡ done b)
>>=-eq-done (done a) k h = (a, refl, h)
>>=-eq-done panic k h = cc

pub done-injective {ℓ} : {A : Type ℓ} {a b : A} → done a ≡ done b → a ≡ b
done-injective e = cc

pub Yields-of_Yields {ℓ} :
    {A : Type ℓ} (P Q : A → Type 0) (m : Run A) → Yields P m → ((a : A) → P a → Q a) → Yields Q m
Yields-of_Yields P Q (done a) h f = f a h
Yields-of_Yields P Q panic h f = absurd h

pub >>=-cong {ℓ κ} :
    {A : Type ℓ} {B : Type κ} (m : Run A) (k k' : A → Run B)
    → ((a : A) → k a ≡ k' a)
    → (m >>= k) ≡ (m >>= k')
>>=-cong (done a) k k' h = h a
>>=-cong panic k k' h = refl

-- A run with a property is the run of its value.
pub Yields-eq {ℓ} :
    {A : Type ℓ} (P : A → Type 0) (m : Run A) → Yields P m → (a : A) × P a × (m ≡ done a)
Yields-eq P (done a) h = (a, h, refl)
Yields-eq P panic h = absurd h

pub Yields-both {ℓ} :
    {A : Type ℓ} (P Q : A → Type 0) (m : Run A)
    → Yields P m
    → Yields Q m
    → Yields (λ a. P a × Q a) m
Yields-both P Q (done a) h k = (h, k)
Yields-both P Q panic h k = absurd h
