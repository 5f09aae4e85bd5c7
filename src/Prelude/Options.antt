-- ===== src/Prelude/Options.antt =====
-- Computations that may throw, as options with `do`.
use runtime_bridge.Prelude.Tests.{Settles}
use mathlib.Core.Path.{◌≡◌, refl, subst}
use mathlib.Core.List.{List, [], ◌∷◌}
use mathlib.Core.Option.{Option, none, some}

infixl 5 ◌>>=◌
abbrev pub ◌>>=◌ {ℓ κ} : {A : Type ℓ} {B : Type κ} → Option A → (A → Option B) → Option B
none >>= f = none
some a >>= f = f a

-- `map` with a callback that may throw.
abbrev pub map_option {ℓ κ} : {A : Type ℓ} {B : Type κ} → (A → Option B) → List A → Option (List B)
map_option f [] = some []
map_option f (x ∷ xs) = f x >>= λ y. map_option f xs >>= λ ys. some (y ∷ ys)

-- A predicate of the value, if there is one.
abbrev pub Returns : {A : Type 0} → (A → Type 0) → Option A → Type 0
Returns P none = Unit
Returns P (some a) = P a

pub Returns-some :
    {A : Type 0} (P : A → Type 0) (o : Option A) {a : A} → Returns P o → o ≡ some a → P a
Returns-some P o {a} h e = subst (Returns P) e h

pub Settles-bind :
    {A B : Type 0} (P : A → Type 0) (Q : B → Type 0) (o : Option A) (f : A → Option B)
    → Settles P o
    → ((a : A) → P a → Settles Q (f a))
    → Settles Q (o >>= f)
Settles-bind P Q none f h k = h
Settles-bind P Q (some a) f h k = k a h

pub Settles-mono :
    {A : Type 0} (P Q : A → Type 0) (o : Option A)
    → ((a : A) → P a → Q a)
    → Settles P o
    → Settles Q o
Settles-mono P Q none f h = h
Settles-mono P Q (some a) f h = f a h

pub Settles-some :
    {A : Type 0} (P : A → Type 0) (o : Option A) → Settles P o → (a : A) × (o ≡ some a) × P a
Settles-some P none h = absurd h
Settles-some P (some a) h = (a, refl, h)

pub some_inj {ℓ} : {A : Type ℓ} {x y : A} → some x ≡ some y → x ≡ y
some_inj e = cc

pub none-some {ℓ} : {A : Type ℓ} {x : A} → ¬ (none ≡ some x)
none-some e = cc
