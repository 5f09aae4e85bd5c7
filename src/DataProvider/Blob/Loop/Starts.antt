-- ===== src/DataProvider/Blob/Loop/Starts.antt =====
-- blob.js: the numbers of the first blocks of the next window.
use runtime_bridge.Prelude.{
  ℕ, suc, ◌≡◌, sym, ap, subst, ◌∙◌, Bool, true, false, if◌then◌else◌, inl, inr, Bool-cases,
}
use runtime_bridge.Prelude.Int.{
  ℤ, pos, ◌+ℤ◌, ◌-ℤ◌, eqb_ℤ, eqb_ℤ-shift, eqb_ℤ→eq, eqb_ℤ_refl, add_sub_one, sub_add_one, int_laws,
}
use runtime_bridge.DataProvider.Blob.{one}

pub plus_suc : (a : ℤ) (i : ℕ) → a +ℤ pos i +ℤ one ≡ a +ℤ pos (suc i)
plus_suc a i = omega int_laws

next_start_from :
    (a n : ℤ)
    → (if eqb_ℤ a (n -ℤ one) then n -ℤ one else n -ℤ one +ℤ one)
      ≡ (if eqb_ℤ n (a +ℤ one) then a else n)
next_start_from a n = elim (Bool-cases (eqb_ℤ n (a +ℤ one))) [
  | inl e ↦ rw (eqb_ℤ-shift a n, e) (ap (λ x. x -ℤ one) (eqb_ℤ→eq n (a +ℤ one) e) ∙ add_sub_one a)
  | inr e ↦ rw (eqb_ℤ-shift a n, e) (sub_add_one n)
]

next_start_same :
    (a : ℤ) (taken : Bool)
    → let n = if taken then a +ℤ one else a in (if eqb_ℤ n (a +ℤ one) then a else n) ≡ a
next_start_same a true = rw (eqb_ℤ_refl (a +ℤ one))
next_start_same a false = elim (Bool-cases (eqb_ℤ a (a +ℤ one))) [ inl e ↦ rw e | inr e ↦ rw e ]

pub next_start :
    (a c : ℤ) (taken : Bool)
    → let n = if taken then c +ℤ one else c in
      let stop = if eqb_ℤ a c then a else n -ℤ one in
      (if eqb_ℤ a stop then stop else stop +ℤ one) ≡ (if eqb_ℤ n (a +ℤ one) then a else n)
next_start a c taken = elim (Bool-cases (eqb_ℤ a c)) [
  | inl e ↦
      rw (e, eqb_ℤ_refl a)
        (sym (
          subst
            (λ x.
              let n = if taken then x +ℤ one else x in (if eqb_ℤ n (a +ℤ one) then a else n) ≡ a)
            (eqb_ℤ→eq a c e) (next_start_same a taken)))
  | inr e ↦ rw e (next_start_from a _)
]
