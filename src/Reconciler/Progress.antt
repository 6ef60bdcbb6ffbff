-- ===== src/Reconciler/Progress.antt =====
-- Code that may panic and whose loops retry for ever: a loop is run with fuel, and `running` is a
-- loop that the fuel did not end.
use boxroom_cloud_native.Base.Outcome.{Outcome}

pub data Progress {ℓ} (A : Type ℓ) : Type ℓ where
  ended : A → Progress A
  panicked : Progress A
  running : Progress A

abbrev pub and_then {ℓ κ} : {A : Type ℓ} {B : Type κ} → Progress A → (A → Progress B) → Progress B
and_then (ended a) f = f a
and_then panicked f = panicked
and_then running f = running

abbrev pub Process {ℓ} : Type ℓ → Type ℓ → Type ℓ
Process S A = S → Progress (A × S)

abbrev pub pure {ℓ} : {S A : Type ℓ} → A → Process S A
pure a s = ended (a, s)

abbrev pub crash {ℓ} : {S A : Type ℓ} → Process S A
crash s = panicked

abbrev pub exhausted {ℓ} : {S A : Type ℓ} → Process S A
exhausted s = running

-- A step without a loop.
abbrev pub lift {ℓ} : {S A : Type ℓ} → Outcome A → Process S A
lift (Outcome.done a) s = ended (a, s)
lift Outcome.panic s = panicked

infixl 10 ◌>>=◌ ◌>>◌
abbrev pub ◌>>=◌ {ℓ} : {S A B : Type ℓ} → Process S A → (A → Process S B) → Process S B
◌>>=◌ m f s = and_then (m s) (λ r. f r.0 r.1)

abbrev pub ◌>>◌ {ℓ} : {S A B : Type ℓ} → Process S A → Process S B → Process S B
m >> n = m >>= λ _. n
