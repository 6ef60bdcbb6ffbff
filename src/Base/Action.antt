-- ===== src/Base/Action.antt =====
-- Go functions that end in an `error` and act on the world: files, clock, store and cluster. The
-- world comes back after an error too, since what was done stays done.
use mathlib.Core.Path.{◌≡◌, refl, ap, subst}
use mathlib.Core.Logic.{◌⊎◌, inl, inr}
use mathlib.Core.List.{List, [], ◌∷◌}
use mathlib.Core.Bool.{Bool, true, false}
use Prim.Native.String.{String}
use boxroom_cloud_native.Base.Core.{if◌then◌else◌}

-- How a call ends: with a result, with a non-nil error, or in a panic.
pub data Step (W A : Type 0) : Type 0 where
  ok : A → W → Step W A
  err : String → W → Step W A
  crashed : Step W A

abbrev pub Act : Type 0 → Type 0 → Type 0
Act W A = W → Step W A

-- A result and an error as the caller sees them.
pub data Result (A : Type 0) : Type 0 where
  value : A → Result A
  error : String → Result A

abbrev pub next : {W A B : Type 0} → Step W A → (A → Act W B) → Step W B
next (ok a w) f = f a w
next (err e w) f = err e w
next crashed f = crashed

-- Any ending but a panic: an error is only logged.
abbrev pub settle : {W A B : Type 0} → Step W A → (W → Step W B) → Step W B
settle (ok a w) k = k w
settle (err e w) k = k w
settle crashed k = crashed

module _ {W A : Type 0} where
  abbrev pub return : A → Act W A
  return a w = ok a w

  abbrev pub fail : String → Act W A
  fail e w = err e w

  abbrev pub nil_dereference : Act W A
  nil_dereference w = crashed

  abbrev pub caught : Step W A → Step W (Result A)
  caught (ok a w) = ok (value a) w
  caught (err e w) = ok (error e) w
  caught crashed = crashed

  -- The call, with its error as a value.
  abbrev pub attempt : Act W A → Act W (Result A)
  attempt m w = caught (m w)

  abbrev pub reraise : Result A → Act W A
  reraise (value a) = return a
  reraise (error e) = fail e

  -- `f` with a deferred function whose error is only logged.
  abbrev pub finish : Step W A → Act W (Unit {0}) → Step W A
  finish (ok a w) c = settle (c w) (ok a)
  finish (err e w) c = settle (c w) (err e)
  finish crashed c = crashed

  abbrev pub deferred : Act W (Unit {0}) → Act W A → Act W A
  deferred c m w = finish (m w) c

  -- `f` with a deferred `Close` whose error is returned where `f` itself has none.
  abbrev pub finish_close : Step W A → Act W (Unit {0}) → Step W A
  finish_close (ok a w) c = next (c w) (λ u. ok a)
  finish_close (err e w) c = settle (c w) (err e)
  finish_close crashed c = crashed

  abbrev pub closing : Act W (Unit {0}) → Act W A → Act W A
  closing c m w = finish_close (m w) c

  pub Step-cases :
      (s : Step W A)
      → ((a : A) × (w : W) × (s ≡ ok a w))
        ⊎ (((e : String) × (w : W) × (s ≡ err e w)) ⊎ (s ≡ crashed))
  Step-cases (ok a w) = inl (a, w, refl)
  Step-cases (err e w) = inr (inl (e, w, refl))
  Step-cases crashed = inr (inr refl)

infixl 10 ◌>>=◌ ◌>>◌
abbrev pub ◌>>=◌ : {W A B : Type 0} → Act W A → (A → Act W B) → Act W B
◌>>=◌ m f w = next (m w) f

abbrev pub ◌>>◌ : {W B : Type 0} → Act W (Unit {0}) → Act W B → Act W B
m >> n = m >>= λ u. n

-- A read of the world that cannot fail.
abbrev pub observe : {W A : Type 0} → (W → A × W) → Act W A
observe f w = let (a, w') = f w in ok a w'

-- A call whose error is only logged.
abbrev pub logged : {W : Type 0} → Act W (Unit {0}) → Act W (Unit {0})
logged m w = settle (m w) (ok tt)

-- A loop that returns at the first error.
abbrev pub for_each : {W A : Type 0} → (A → Act W (Unit {0})) → List A → Act W (Unit {0})
for_each f [] = return tt
for_each f (x ∷ xs) = f x >> for_each f xs

pub next_assoc :
    {W A B C : Type 0} (s : Step W A) (f : A → Act W B) (g : B → Act W C)
    → next (next s f) g ≡ next s (λ a w. next (f a w) g)
next_assoc (ok a w) f g = refl
next_assoc (err e w) f g = refl
next_assoc crashed f g = refl

-- Where a call ends with a result, the result has the property.
abbrev pub Returns : {W A : Type 0} → (A → Type 0) → Step W A → Type 0
Returns Q (ok a w) = Q a
Returns Q (err e w) = Unit {0}
Returns Q crashed = Unit {0}

pub Returns-next :
    {W A B : Type 0} (Q : B → Type 0) (s : Step W A) (f : A → Act W B)
    → ((a : A) (w : W) → Returns Q (f a w))
    → Returns Q (next s f)
Returns-next Q (ok a w) f h = h a w
Returns-next Q (err e w) f h = tt
Returns-next Q crashed f h = tt

Returns-settle :
    {W A : Type 0} (Q : A → Type 0) (s : Step W (Unit {0})) (k : W → Step W A)
    → ((w : W) → Returns Q (k w))
    → Returns Q (settle s k)
Returns-settle Q (ok u w) k h = h w
Returns-settle Q (err e w) k h = h w
Returns-settle Q crashed k h = tt

-- A deferred function does not change the result.
pub Returns-finish :
    {W A : Type 0} (Q : A → Type 0) (s : Step W A) (c : Act W (Unit {0}))
    → Returns Q s
    → Returns Q (finish s c)
Returns-finish Q (ok a w) c h = Returns-settle Q (c w) (ok a) (λ v. h)
Returns-finish Q (err e w) c h = Returns-settle Q (c w) (err e) (λ v. tt)
Returns-finish Q crashed c h = tt

pub Returns-if :
    {W A : Type 0} (Q : A → Type 0) (b : Bool) (f g : Act W A) (w : W)
    → Returns Q (f w)
    → Returns Q (g w)
    → Returns Q ((if b then f else g) w)
Returns-if Q true f g w h k = h
Returns-if Q false f g w h k = k

pub Returns-ok :
    {W A : Type 0} (Q : A → Type 0) (s : Step W A) (a : A) (w : W) → Returns Q s → s ≡ ok a w → Q a
Returns-ok Q s a w h e = subst (Returns Q) e h

pub Result-cases :
    {A : Type 0} (r : Result A) → ((a : A) × (r ≡ value a)) ⊎ ((e : String) × (r ≡ error e))
Result-cases (value a) = inl (a, refl)
Result-cases (error e) = inr (e, refl)

pub next_congr :
    {W A B : Type 0} (s : Step W A) {f g : A → Act W B}
    → ((a : A) (w : W) → f a w ≡ g a w)
    → next s f ≡ next s g
next_congr (ok a w) h = h a w
next_congr (err e w) h = refl
next_congr crashed h = refl

-- Inversion of a chain that ended with a result.
pub next-eq-ok :
    {W A B : Type 0} (s : Step W A) (f : A → Act W B) {b : B} {w' : W}
    → next s f ≡ ok b w'
    → (a : A) × (w : W) × (s ≡ ok a w) × (f a w ≡ ok b w')
next-eq-ok (ok a w) f h = (a, w, refl, h)
next-eq-ok (err e w) f h = cc
next-eq-ok crashed f h = cc

-- The world in which the deferred function ended.
abbrev pub EndsIn : {W : Type 0} → Step W (Unit {0}) → W → Type 0
EndsIn {W = W} s w = (s ≡ ok tt w) ⊎ ((e : String) × (s ≡ err e w))

settle-eq-ok :
    {W A : Type 0} (t : Step W (Unit {0})) {a b : A} {v : W}
    → settle t (ok a) ≡ ok b v
    → (a ≡ b) × EndsIn t v
settle-eq-ok (ok x w) h = (cc, inl cc)
settle-eq-ok (err e w) h = (cc, inr (e, cc))
settle-eq-ok crashed h = cc

settle-ne-ok :
    {W A : Type 0} (t : Step W (Unit {0})) (e : String) {b : A} {v : W}
    → settle t (err e) ≡ ok b v
    → ⊥
settle-ne-ok (ok x v) e h = cc
settle-ne-ok (err x v) e h = cc
settle-ne-ok crashed e h = cc

pub finish-eq-ok :
    {W A : Type 0} (s : Step W A) (c : Act W (Unit {0})) {a : A} {w' : W}
    → finish s c ≡ ok a w'
    → (w : W) × (s ≡ ok a w) × EndsIn (c w) w'
finish-eq-ok (ok a w) c h =
    let (same, ends) = settle-eq-ok (c w) h in (w, ap (λ b. ok b w) same, ends)
finish-eq-ok (err e w) c h = absurd (settle-ne-ok (c w) e h)
finish-eq-ok crashed c h = cc
