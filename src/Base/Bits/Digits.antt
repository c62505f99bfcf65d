-- ===== src/Base/Bits/Digits.antt =====
-- One equation for the lowest binary digit of `bit_or`, `bit_and` and `bit_xor`.
use Prim.Native.Nat.{ℕ, zero, suc, ◌+◌, ◌*◌, ◌/◌, ◌%◌, ◌≤◌, bit_and, bit_or, bit_xor, min, max}
use Prim.Native.Nat.{digits, bitwise, differ, bit_and-bitwise, bit_or-bitwise, bit_xor-bitwise}
use mathlib.Core.Path.{◌≡◌, refl}
use native.Mathlib.Omega.{arith}

-- Any two amounts of fuel that reach the last digit give the same number.
module _ (rest : ℕ → ℕ) (join : ℕ → ℕ → ℕ) where
  enough : (x y i j : ℕ) → x ≤ i → x ≤ j → digits rest join i x y ≡ digits rest join j x y
  enough zero y zero zero hi hj = refl
  enough zero y zero (suc j) hi hj = refl
  enough zero y (suc i) zero hi hj = refl
  enough zero y (suc i) (suc j) hi hj = refl
  enough (suc x) y zero j hi hj = absurd (omega arith)
  enough (suc x) y (suc i) zero hi hj = absurd (omega arith)
  enough (suc x) y (suc i) (suc j) hi hj =
      let half = enough (suc x / 2) (y / 2) i j (omega arith) (omega arith) in rw half

  first_digit :
      (x y : ℕ)
      → bitwise rest join (suc x) y
        ≡ bitwise rest join (suc x / 2) (y / 2) * 2 + join (suc x % 2) (y % 2)
  first_digit x y =
      let half = enough (suc x / 2) (y / 2) x (suc x / 2) (omega arith) (omega arith) in
      omega (arith, half)

pub or_digit : (x y : ℕ) → bit_or x y ≡ bit_or (x / 2) (y / 2) * 2 + max (x % 2) (y % 2)
or_digit zero y = simp bit_or-bitwise (omega arith)
or_digit (suc x) y = simp bit_or-bitwise (first_digit (λ d. d) max x y)

pub and_digit : (x y : ℕ) → bit_and x y ≡ bit_and (x / 2) (y / 2) * 2 + min (x % 2) (y % 2)
and_digit zero y = simp bit_and-bitwise (omega arith)
and_digit (suc x) y = simp bit_and-bitwise (first_digit (λ d. 0) min x y)

pub xor_digit : (x y : ℕ) → bit_xor x y ≡ bit_xor (x / 2) (y / 2) * 2 + differ (x % 2) (y % 2)
xor_digit zero y = simp bit_xor-bitwise (omega arith)
xor_digit (suc x) y = simp bit_xor-bitwise (first_digit (λ d. d) differ x y)
