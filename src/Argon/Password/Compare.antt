-- ===== src/Argon/Password/Compare.antt =====
-- The comparison in constant time: `constant_time_eq`.
use crap_os.Base.{
  ℕ, bit_or, bit_xor, refl, ap₂, inl, inr, true, false, List, [], arith, length, Bool-cases, ==_iff,
  ◌≡◌, ◌∷◌, ◌==◌, ◌↔◌,
}
use crap_os.Base.Bits.Differ.{bit_xor_self, eq_of_bit_xor, zero_of_bit_or}
use crap_os.Argon.Password.{constant_time_eq, differences}

differences_self : (xs : List ℕ) → differences 0 xs xs ≡ 0
differences_self [] = refl
differences_self (x ∷ xs) = rw (bit_xor_self x) (differences_self xs)

eq_of_differences :
    (xs ys : List ℕ) (diff : ℕ)
    → length xs ≡ length ys
    → differences diff xs ys ≡ 0
    → (diff ≡ 0) × (xs ≡ ys)
eq_of_differences [] [] diff n h = (h, refl)
eq_of_differences [] (y ∷ ys) diff n h = absurd (omega (arith, n))
eq_of_differences (x ∷ xs) [] diff n h = absurd (omega (arith, n))
eq_of_differences (x ∷ xs) (y ∷ ys) diff n h =
    let (z, rest) = eq_of_differences xs ys (bit_or diff (bit_xor x y)) (omega (arith, n)) h in
    let (before, here) = zero_of_bit_or diff (bit_xor x y) z in
    (before, ap₂ (λ b bs. b ∷ bs) (eq_of_bit_xor x y here) rest)

-- `constant_time_eq` is true for equal texts, and for no others.
pub constant_time_eq_iff : (xs ys : List ℕ) → (constant_time_eq xs ys ≡ true) ↔ (xs ≡ ys)
unfolding constant_time_eq
constant_time_eq_iff xs ys = (
  λ h. (elim (Bool-cases (length xs == length ys)) [
    | inl e ↦
        let h' : (differences 0 xs ys == 0) ≡ true = rw e at h in
        (eq_of_differences xs ys 0 ((==_iff (length xs) (length ys)).0 e)
          ((==_iff (differences 0 xs ys) 0).0 h')).1
    | inr e ↦ absurd (let h' : false ≡ true = rw e at h in cc)
  ]),
  λ h.
      rw h (
        let n : (length ys == length ys) ≡ true = ground arith in rw (n, differences_self ys) refl),
)
