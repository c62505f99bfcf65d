-- ===== src/Base/Bits.antt =====
-- Bit operations with a power of two, as arithmetic, at every width.
pub mod Digits
pub mod Split
pub mod Differ
use Digits.{or_digit, and_digit}
use Prim.Native.Nat.{ℕ, zero, suc, ◌+◌, ◌-◌, ◌*◌, ◌/◌, ◌%◌, ◌^◌, ◌≤◌, ◌<◌, bit_and, bit_or}
use mathlib.Core.Path.{◌≡◌, refl, ap}
use native.Mathlib.Nat.{pow-suc, one-le-pow}
use native.Mathlib.Omega.{arith}

or-zero_below : (bound x : ℕ) → x ≤ bound → bit_or x 0 ≡ x
or-zero_below bound zero h = refl
or-zero_below zero (suc x) h = absurd (omega arith)
or-zero_below (suc bound) (suc x) h =
    omega (arith, or_digit (suc x) 0, or-zero_below bound (suc x / 2) (omega arith))

pub bit_or-zero : (x : ℕ) → bit_or x 0 ≡ x
bit_or-zero x = or-zero_below x x (omega arith)

and-zero_below : (bound x : ℕ) → x ≤ bound → bit_and x 0 ≡ 0
and-zero_below bound zero h = refl
and-zero_below zero (suc x) h = absurd (omega arith)
and-zero_below (suc bound) (suc x) h =
    omega (arith, and_digit (suc x) 0, and-zero_below bound (suc x / 2) (omega arith))

pub bit_and-zero : (x : ℕ) → bit_and x 0 ≡ 0
bit_and-zero x = and-zero_below x x (omega arith)

shift-suc : (hi w : ℕ) → hi * 2 ^ suc w ≡ 2 * (hi * 2 ^ w)
shift-suc hi w = omega (arith, ap (λ (t : ℕ). hi * t) (pow-suc 2 w))

-- `(hi << w) | lo` is a sum when `lo` has at most `w` bits.
pub or_shifted : (w hi lo : ℕ) → lo < 2 ^ w → bit_or (hi * 2 ^ w) lo ≡ hi * 2 ^ w + lo
or_shifted zero hi lo small = ground (arith, bit_or-zero hi)
or_shifted (suc w) hi lo small =
    let ih = or_shifted w hi (lo / 2) (omega arith) in
    ground (arith, shift-suc hi w, or_digit (hi * 2 ^ suc w) lo, ih)

mask_shifted : (w hi lo : ℕ) → lo < 2 ^ w → bit_and (hi * 2 ^ w + lo) (2 ^ w - 1) ≡ lo
mask_shifted zero hi lo small = rw bit_and-zero (omega arith)
mask_shifted (suc w) hi lo small =
    let ih = mask_shifted w hi (lo / 2) (omega arith) in
    ground (arith, shift-suc hi w, pow-suc 2 w, and_digit (hi * 2 ^ suc w + lo) (2 ^ suc w - 1), ih)

-- A mask of `w` low ones takes the remainder by `2 ^ w`.
pub and_mask : (w x : ℕ) → bit_and x (2 ^ w - 1) ≡ x % 2 ^ w
and_mask w x = ground (arith, mask_shifted w (x / 2 ^ w) (x % 2 ^ w), one-le-pow w 2)

or-comm_below : (bound x y : ℕ) → x ≤ bound → y ≤ bound → bit_or x y ≡ bit_or y x
or-comm_below zero zero zero hx hy = refl
or-comm_below zero zero (suc y) hx hy = absurd (omega arith)
or-comm_below zero (suc x) y hx hy = absurd (omega arith)
or-comm_below (suc bound) x y hx hy =
    let ih = or-comm_below bound (x / 2) (y / 2) (omega arith) (omega arith) in
    omega (arith, or_digit x y, or_digit y x, ih)

pub bit_or_comm : (x y : ℕ) → bit_or x y ≡ bit_or y x
bit_or_comm x y = or-comm_below (x + y) x y (omega arith) (omega arith)
