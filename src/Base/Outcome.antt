-- ===== src/Base/Outcome.antt =====
-- Go code that may panic, and code that reads and writes a state. A Go `error` is a value that a
-- function returns; only a panic ends a computation.
use mathlib.Core.Path.{◌≡◌, refl}
use mathlib.Core.Logic.{◌⊎◌, inl, inr}

pub data Outcome {ℓ} (A : Type ℓ) : Type ℓ where
  done : A → Outcome A
  panic : Outcome A

abbrev pub bind {ℓ κ} : {A : Type ℓ} {B : Type κ} → Outcome A → (A → Outcome B) → Outcome B
bind (done a) f = f a
bind panic f = panic

-- A computation over the state `S`.
abbrev pub Run {ℓ} : Type ℓ → Type ℓ → Type ℓ
Run S A = S → Outcome (A × S)

module _ {ℓ} {S A : Type ℓ} where
  abbrev pub pure : A → Run S A
  pure a s = done (a, s)

  abbrev pub crash : Run S A
  crash s = panic

infixl 10 ◌>>=◌ ◌>>◌
abbrev pub ◌>>=◌ {ℓ} : {S A B : Type ℓ} → Run S A → (A → Run S B) → Run S B
◌>>=◌ m f s = bind (m s) (λ r. f r.0 r.1)

abbrev pub ◌>>◌ {ℓ} : {S A B : Type ℓ} → Run S A → Run S B → Run S B
m >> n = m >>= λ _. n

-- Inversion of a bind that did not panic.
pub bind-eq-done {ℓ κ} :
    {A : Type ℓ} {B : Type κ} (m : Outcome A) (f : A → Outcome B) {b : B}
    → bind m f ≡ done b
    → (a : A) × (m ≡ done a) × (f a ≡ done b)
bind-eq-done (done a) f h = (a, refl, h)
bind-eq-done panic f h = cc

pub Outcome-cases {ℓ} : {A : Type ℓ} (o : Outcome A) → (o ≡ panic) ⊎ ((a : A) × (o ≡ done a))
Outcome-cases (done a) = inr (a, refl)
Outcome-cases panic = inl refl

pub bind_congr {ℓ κ} :
    {A : Type ℓ} {B : Type κ} (m : Outcome A) (f g : A → Outcome B)
    → ((a : A) → m ≡ done a → f a ≡ g a)
    → bind m f ≡ bind m g
bind_congr (done a) f g h = h a refl
bind_congr panic f g h = refl

pub bind_assoc {ℓ} :
    {A B C : Type ℓ} (m : Outcome A) (f : A → Outcome B) (g : B → Outcome C)
    → bind (bind m f) g ≡ bind m (λ a. bind (f a) g)
bind_assoc (done a) f g = refl
bind_assoc panic f g = refl

pub bind-done {ℓ} : {A : Type ℓ} (m : Outcome A) → bind m done ≡ m
bind-done (done a) = refl
bind-done panic = refl

pub done-injective {ℓ} : {A : Type ℓ} {a b : A} → done a ≡ done b → a ≡ b
done-injective e = cc

pub done-ne-panic {ℓ} : {A : Type ℓ} {a : A} → done a ≡ panic → ⊥
done-ne-panic e = cc
