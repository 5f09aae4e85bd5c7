-- ===== src/Prelude/Updates.antt =====
-- Tables and heaps as functions of a number, and the update of one place.
use runtime_bridge.Prelude.Tests.{◌==◌, if◌then◌else◌, Bool-cases}
use Prim.Native.Nat.{ℕ}
use mathlib.Core.Path.{◌≡◌}
use mathlib.Core.Logic.{◌≢◌, ◌⊎◌, inl, inr}
use native.Mathlib.Omega.{arith}

abbrev pub put_at {ℓ} : {A : Type ℓ} → ℕ → A → (ℕ → A) → ℕ → A
put_at k v f i = if i == k then v else f i

pub put_at_self {ℓ} : {A : Type ℓ} (k : ℕ) (v : A) (f : ℕ → A) → put_at k v f k ≡ v
put_at_self k v f = ground arith

pub put_at-other {ℓ} :
    {A : Type ℓ} (k : ℕ) (v : A) (f : ℕ → A) (i : ℕ) → i ≢ k → put_at k v f i ≡ f i
put_at-other k v f i n = ground arith

-- The values of an update: the new one at its place, an old one elsewhere.
pub put_at-cases {ℓ} :
    {A : Type ℓ} (k : ℕ) (v : A) (f : ℕ → A) (i : ℕ)
    → ((i ≡ k) × (put_at k v f i ≡ v)) ⊎ ((i ≢ k) × (put_at k v f i ≡ f i))
put_at-cases k v f i = elim (Bool-cases (i == k)) [
  | inl t ↦ inl (ground arith, ground arith)
  | inr t ↦ inr (λ e. ground arith, ground arith)
]
