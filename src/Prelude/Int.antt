-- ===== src/Prelude/Int.antt =====
-- Integers over the native numbers.
use Prim.Native.Nat.{ℕ, suc, ◌+◌, ◌-◌, ◌≤◌}
use mathlib.Core.Path.{◌≡◌, sym, ap, ◌∙◌}
use mathlib.Core.Logic.{inl, inr}
use mathlib.Core.Bool.{Bool, true, false}
use native.Mathlib.Decide.{ℕ_discrete}
use native.Mathlib.Omega.{arith}
use runtime_bridge.Prelude.Tests.{ltb, leb, ◌==◌, if◌then◌else◌, Bool-cases}

-- `negsuc n` is -(n + 1)
pub data ℤ : Type 0 where
  pos : ℕ → ℤ
  negsuc : ℕ → ℤ

abbrev pub pos_part : ℤ → ℕ
pos_part (pos n) = n
pos_part (negsuc _) = 0

abbrev pub neg_part : ℤ → ℕ
neg_part (pos _) = 0
neg_part (negsuc n) = suc n

abbrev pub sub_ℕ : ℕ → ℕ → ℤ
sub_ℕ a b = if leb b a then pos (a - b) else negsuc (b - a - 1)

infixl 65 ◌+ℤ◌ ◌-ℤ◌
infix 50 ◌≤ℤ◌
unfoldable pub ◌+ℤ◌ : ℤ → ℤ → ℤ
a +ℤ b = sub_ℕ (pos_part a + pos_part b) (neg_part a + neg_part b)

unfoldable pub ◌-ℤ◌ : ℤ → ℤ → ℤ
a -ℤ b = sub_ℕ (pos_part a + neg_part b) (neg_part a + pos_part b)

abbrev pub ◌≤ℤ◌ : ℤ → ℤ → Type 0
a ≤ℤ b = pos_part a + neg_part b ≤ pos_part b + neg_part a

abbrev pub ltb_ℤ : ℤ → ℤ → Bool
ltb_ℤ a b = ltb (pos_part a + neg_part b) (pos_part b + neg_part a)

abbrev pub leb_ℤ : ℤ → ℤ → Bool
leb_ℤ a b = leb (pos_part a + neg_part b) (pos_part b + neg_part a)

-- with these the operations can stay shut
pub +ℤ_parts :
    (a b : ℤ)
    → pos_part (a +ℤ b) + neg_part a + neg_part b ≡ neg_part (a +ℤ b) + pos_part a + pos_part b
unfolding ◌+ℤ◌
+ℤ_parts a b = ground arith

pub -ℤ_parts :
    (a b : ℤ)
    → pos_part (a -ℤ b) + neg_part a + pos_part b ≡ neg_part (a -ℤ b) + pos_part a + neg_part b
unfolding ◌-ℤ◌
-ℤ_parts a b = ground arith

pub eq_of_parts : (a b : ℤ) → pos_part a + neg_part b ≡ pos_part b + neg_part a → a ≡ b
eq_of_parts a b h = ground arith

pub ruleset int_laws = (arith, +ℤ_parts, -ℤ_parts, eq_of_parts)

abbrev pub minus_one : ℤ
minus_one = negsuc 0

-- `a === b`
abbrev pub eqb_ℤ : ℤ → ℤ → Bool
eqb_ℤ (pos a) (pos b) = a == b
eqb_ℤ (negsuc a) (negsuc b) = a == b
eqb_ℤ _ _ = false

pub eqb_ℤ→eq : (a b : ℤ) → eqb_ℤ a b ≡ true → a ≡ b
eqb_ℤ→eq (pos a) (pos b) h = ground arith
eqb_ℤ→eq (negsuc a) (negsuc b) h = ground arith
eqb_ℤ→eq (pos a) (negsuc b) h = cc
eqb_ℤ→eq (negsuc a) (pos b) h = cc

pub eqb_ℤ_refl : (a : ℤ) → eqb_ℤ a a ≡ true
eqb_ℤ_refl (pos a) = ground arith
eqb_ℤ_refl (negsuc a) = ground arith

pub ℤ-discrete : Discrete ℤ
ℤ-discrete = hlevel ℕ_discrete

true_ne_false : ¬ (true ≡ false)
true_ne_false e = cc

pub add_sub_one : (a : ℤ) → a +ℤ pos 1 -ℤ pos 1 ≡ a
add_sub_one a = omega int_laws

pub sub_add_one : (a : ℤ) → a -ℤ pos 1 +ℤ pos 1 ≡ a
sub_add_one a = omega int_laws

pub eqb_ℤ-ne : (a b : ℤ) → ¬ (a ≡ b) → eqb_ℤ a b ≡ false
eqb_ℤ-ne a b h = elim (Bool-cases (eqb_ℤ a b)) [ inl e ↦ elim (h (eqb_ℤ→eq a b e)) [ ] | inr e ↦ e ]

pub eqb_ℤ→ne : (a b : ℤ) → eqb_ℤ a b ≡ false → ¬ (a ≡ b)
eqb_ℤ→ne a b e q = true_ne_false (sym (ap (λ x. eqb_ℤ x b) q ∙ eqb_ℤ_refl b) ∙ e)

-- a = n - 1 is the same test as n = a + 1
pub eqb_ℤ-shift : (a n : ℤ) → eqb_ℤ a (n -ℤ pos 1) ≡ eqb_ℤ n (a +ℤ pos 1)
eqb_ℤ-shift a n = elim (Bool-cases (eqb_ℤ n (a +ℤ pos 1))) [
  | inl e ↦
      ap (eqb_ℤ a) (ap (λ x. x -ℤ pos 1) (eqb_ℤ→eq n (a +ℤ pos 1) e) ∙ add_sub_one a)
      ∙ eqb_ℤ_refl a
      ∙ sym e
  | inr e ↦
      eqb_ℤ-ne a (n -ℤ pos 1)
        (λ q. eqb_ℤ→ne n (a +ℤ pos 1) e (sym (sub_add_one n) ∙ ap (λ x. x +ℤ pos 1) (sym q)))
      ∙ sym e
]
