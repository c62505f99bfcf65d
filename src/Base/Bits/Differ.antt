-- ===== src/Base/Bits/Differ.antt =====
-- When `bit_or` and `bit_xor` are zero.
use Prim.Native.Nat.{ℕ, zero, suc, ◌+◌, ◌/◌, ◌%◌, ◌≤◌, bit_or, bit_xor, differ}
use mathlib.Core.Path.{◌≡◌, refl, ap}
use native.Mathlib.Omega.{arith}
use crap_os.Base.Bits.Digits.{or_digit, xor_digit}

differ-zero : (a b : ℕ) → differ a b ≡ 0 → a ≡ b
differ-zero zero b h = omega (arith, h)
differ-zero (suc a) zero h = absurd (omega (arith, h))
differ-zero (suc a) (suc b) h = ap suc (differ-zero a b h)

differ_self : (a : ℕ) → differ a a ≡ 0
differ_self zero = refl
differ_self (suc a) = differ_self a

eq_below : (bound x y : ℕ) → x ≤ bound → y ≤ bound → bit_xor x y ≡ 0 → x ≡ y
eq_below zero x y hx hy h = omega arith
eq_below (suc bound) x y hx hy h =
    let e = xor_digit x y in
    let last = differ-zero (x % 2) (y % 2) (omega (arith, e, h)) in
    let rest = eq_below bound (x / 2) (y / 2) (omega arith) (omega arith) (omega (arith, e, h)) in
    omega (arith, last, rest)

self_below : (bound x : ℕ) → x ≤ bound → bit_xor x x ≡ 0
self_below zero zero h = refl
self_below zero (suc x) h = absurd (omega arith)
self_below (suc bound) x h =
    omega (arith, xor_digit x x, differ_self (x % 2), self_below bound (x / 2) (omega arith))

pub eq_of_bit_xor : (x y : ℕ) → bit_xor x y ≡ 0 → x ≡ y
eq_of_bit_xor x y h = eq_below (x + y) x y (omega arith) (omega arith) h

pub bit_xor_self : (x : ℕ) → bit_xor x x ≡ 0
bit_xor_self x = self_below x x (omega arith)

zero_below : (bound x y : ℕ) → x ≤ bound → y ≤ bound → bit_or x y ≡ 0 → (x ≡ 0) × (y ≡ 0)
zero_below zero x y hx hy h = (omega arith, omega arith)
zero_below (suc bound) x y hx hy h =
    let e = or_digit x y in
    let rest = zero_below bound (x / 2) (y / 2) (omega arith) (omega arith) (omega (arith, e, h)) in
    (omega (arith, e, h, rest.0), omega (arith, e, h, rest.1))

pub zero_of_bit_or : (x y : ℕ) → bit_or x y ≡ 0 → (x ≡ 0) × (y ≡ 0)
zero_of_bit_or x y h = zero_below (x + y) x y (omega arith) (omega arith) h
