-- ===== src/Prelude/Lists.antt =====
-- Lists measured and indexed by native numbers, under the library's names, and predicates on
-- lists and options by recursion.
use Prim.Native.Nat.{ℕ, zero, suc, ◌+◌}
use mathlib.Core.Path.{◌≡◌, refl, ap, subst, ◌∙◌}
use mathlib.Core.List.{List, [], ◌∷◌, ◌++◌, append_assoc, append-nil}
use mathlib.Core.Option.{Option, none, some}
use native.Mathlib.Omega.{arith}
use mathlib.Core.Bool.{Bool, true, false, ◌||◌}
use mathlib.Core.Logic.{◌≢◌, inl, inr}
use runtime_bridge.Prelude.Tests.{if◌then◌else◌, ◌==◌, Bool-cases}

module _ {ℓ} {A : Type ℓ} where
  abbrev pub length : List A → ℕ
  length [] = 0
  length (x ∷ xs) = suc (length xs)

  abbrev pub get_elem? : List A → ℕ → Option A
  get_elem? [] i = none
  get_elem? (x ∷ xs) zero = some x
  get_elem? (x ∷ xs) (suc i) = get_elem? xs i

  pub length-append : (xs ys : List A) → length (xs ++ ys) ≡ length xs + length ys
  length-append [] ys = omega arith
  length-append (x ∷ xs) ys = omega (arith, length-append xs ys)

  abbrev pub All {κ} : (A → Type κ) → List A → Type κ
  All P [] = Unit
  All P (x ∷ xs) = P x × All P xs

  pub All-append {κ} : (P : A → Type κ) (xs ys : List A) → All P xs → All P ys → All P (xs ++ ys)
  All-append P [] ys hx hy = hy
  All-append P (x ∷ xs) ys hx hy = (hx.0, All-append P xs ys hx.1 hy)

  pub All-mono {κ ι} :
      (P : A → Type κ) (Q : A → Type ι) (xs : List A) → ((x : A) → P x → Q x) → All P xs → All Q xs
  All-mono P Q [] f h = tt
  All-mono P Q (x ∷ xs) f h = (f x h.0, All-mono P Q xs f h.1)

  pub All-both {κ ι} :
      (P : A → Type κ) (Q : A → Type ι) (xs : List A)
      → All P xs
      → All Q xs
      → All (λ x. P x × Q x) xs
  All-both P Q [] h k = tt
  All-both P Q (x ∷ xs) h k = ((h.0, k.0), All-both P Q xs h.1 k.1)

-- `xs.flatMap(f)`, and the concatenation of the lists that the elements hold.
module _ {ℓ κ} {A : Type ℓ} {B : Type κ} where
  abbrev pub concat_map : (A → List B) → List A → List B
  concat_map f [] = []
  concat_map f (x ∷ xs) = f x ++ concat_map f xs

  pub concat_map-append :
      (f : A → List B) (xs ys : List A)
      → concat_map f (xs ++ ys) ≡ concat_map f xs ++ concat_map f ys
  concat_map-append f [] ys = refl
  concat_map-append f (x ∷ xs) ys = simp (concat_map-append f xs ys, append_assoc)

module _ {ℓ} {A : Type ℓ} where
  pub get_elem?-snoc :
      (xs : List A) (x : A) (k : ℕ)
      → get_elem? (xs ++ x ∷ []) k ≡ (if k == length xs then some x else get_elem? xs k)
  get_elem?-snoc [] x zero = refl
  get_elem?-snoc [] x (suc k) = ground arith
  get_elem?-snoc (y ∷ xs) x zero = ground arith
  get_elem?-snoc (y ∷ xs) x (suc k) = ground (arith, get_elem?-snoc xs x k)

module _ {ℓ κ} {A : Type ℓ} {B : Type κ} where
  pub concat_map-snoc :
      (f : A → List B) (xs : List A) (x : A) → concat_map f (xs ++ x ∷ []) ≡ concat_map f xs ++ f x
  concat_map-snoc f xs x = simp (concat_map-append f xs (x ∷ []), append-nil)

module _ {ℓ} {A : Type ℓ} where
  -- `xs.slice(0, n)` and `xs.slice(n)`
  abbrev pub take : ℕ → List A → List A
  take zero xs = []
  take (suc n) [] = []
  take (suc n) (x ∷ xs) = x ∷ take n xs

  abbrev pub drop : ℕ → List A → List A
  drop zero xs = xs
  drop (suc n) [] = []
  drop (suc n) (x ∷ xs) = drop n xs

  pub take-append : (n : ℕ) (xs ys : List A) → length xs ≡ n → take n (xs ++ ys) ≡ xs
  take-append zero [] ys e = refl
  take-append zero (x ∷ xs) ys e = absurd (omega arith)
  take-append (suc n) [] ys e = absurd (omega arith)
  take-append (suc n) (x ∷ xs) ys e = ap (λ zs. x ∷ zs) (take-append n xs ys (omega arith))

  pub drop-append : (n : ℕ) (xs ys : List A) → length xs ≡ n → drop n (xs ++ ys) ≡ ys
  drop-append zero [] ys e = refl
  drop-append zero (x ∷ xs) ys e = absurd (omega arith)
  drop-append (suc n) [] ys e = absurd (omega arith)
  drop-append (suc n) (x ∷ xs) ys e = drop-append n xs ys (omega arith)

module _ {ℓ} {A : Type ℓ} where
  abbrev pub sum_by : (A → ℕ) → List A → ℕ
  sum_by f [] = 0
  sum_by f (x ∷ xs) = f x + sum_by f xs

  -- The element at an index, and the others.
  abbrev pub with_head : A → Option (A × List A) → Option (A × List A)
  with_head x none = none
  with_head x (some (y, ys)) = some (y, x ∷ ys)

  abbrev pub pick_at : ℕ → List A → Option (A × List A)
  pick_at k [] = none
  pick_at zero (x ∷ xs) = some (x, xs)
  pick_at (suc k) (x ∷ xs) = with_head x (pick_at k xs)

  -- What was picked and the others are what was there.
  abbrev pub IsPicked : List A → Option (A × List A) → Type (ℓ ⊔ 1)
  IsPicked xs none = Unit
  IsPicked xs (some (y, ys)) =
      ((f : A → ℕ) → sum_by f xs ≡ f y + sum_by f ys)
      × ((P : A → Type 0) → All P xs → P y × All P ys)

  with_head-IsPicked :
      (x : A) (xs : List A) (o : Option (A × List A))
      → IsPicked xs o
      → IsPicked (x ∷ xs) (with_head x o)
  with_head-IsPicked x xs none h = tt
  with_head-IsPicked x xs (some (y, ys)) h =
      (λ f. omega (arith, h.0 f), λ P a. let t = h.1 P a.1 in (t.0, (a.0, t.1)))

  pub pick_at-IsPicked : (k : ℕ) (xs : List A) → IsPicked xs (pick_at k xs)
  pick_at-IsPicked zero [] = tt
  pick_at-IsPicked (suc k) [] = tt
  pick_at-IsPicked zero (x ∷ xs) = (λ f. refl, λ P a. a)
  pick_at-IsPicked (suc k) (x ∷ xs) = with_head-IsPicked x xs (pick_at k xs) (pick_at-IsPicked k xs)

  pub picked-All :
      (k : ℕ) (xs : List A) (r : A × List A)
      → pick_at k xs ≡ some r
      → (P : A → Type 0) → All P xs
      → P r.0 × All P r.1
  picked-All k xs r e = (subst (IsPicked xs) e (pick_at-IsPicked k xs)).1

abbrev pub AreDistinct : List ℕ → Type 0
AreDistinct [] = Unit
AreDistinct (x ∷ xs) = All (λ y. y ≢ x) xs × AreDistinct xs

abbrev pub has : ℕ → List ℕ → Bool
has x [] = false
has x (y ∷ ys) = y == x || has x ys

pub has-append : (x : ℕ) (ys zs : List ℕ) → has x (ys ++ zs) ≡ has x ys || has x zs
has-append x [] zs = refl
has-append x (y ∷ ys) zs = ground (arith, has-append x ys zs)

-- What holds of all elements holds of one that is there.
pub All-has : (P : ℕ → Type 0) (x : ℕ) (ys : List ℕ) → All P ys → has x ys ≡ true → P x
All-has P x [] a h = cc
All-has P x (y ∷ ys) a h = elim (Bool-cases (y == x)) [
  | inl t ↦ let same : y ≡ x = ground arith in subst P same a.0
  | inr t ↦ All-has P x ys a.1 (ground arith)
]

-- The parts of a list of distinct elements do not meet.
pub AreDistinct-parts :
    (x : ℕ) (ys zs : List ℕ)
    → AreDistinct (ys ++ zs)
    → has x zs ≡ true
    → (has x ys ≡ false) × AreDistinct zs
AreDistinct-parts x [] zs d h = (refl, d)
AreDistinct-parts x (y ∷ ys) zs d h =
    let rest = AreDistinct-parts x ys zs d.1 h in
    let other : x ≢ y =
      All-has (λ z. z ≢ y) x (ys ++ zs) d.0 (has-append x ys zs ∙ ground (arith, h)) in
    (ground (arith, rest.0), rest.1)
