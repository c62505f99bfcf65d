-- ===== src/Base/Bits/Split.antt =====
-- `bit_or` on the high and the low digits of its arguments.
use Prim.Native.Nat.{ℕ, zero, suc, ◌+◌, ◌*◌, ◌/◌, ◌%◌, ◌^◌, ◌<◌, bit_or, max}
use mathlib.Core.Path.{◌≡◌, ap₂, ◌∙◌}
use native.Mathlib.Nat.{pow-suc}
use native.Mathlib.Omega.{arith}
use crap_os.Base.Bits.{shift-suc}
use crap_os.Base.Bits.Digits.{or_digit}

pub or_lt : (w c d : ℕ) → c < 2 ^ w → d < 2 ^ w → bit_or c d < 2 ^ w
or_lt zero c d hc hd =
    let zc : c ≡ 0 = omega arith in let zd : d ≡ 0 = omega arith in rw (zc, zd) (omega arith)
or_lt (suc w) c d hc hd =
    let p = pow-suc 2 w in
    let rest = or_lt w (c / 2) (d / 2) (omega (arith, p)) (omega (arith, p)) in
    omega (arith, p, rest, or_digit c d)

pub or_split :
    (w a b c d : ℕ)
    → c < 2 ^ w
    → d < 2 ^ w
    → bit_or (a * 2 ^ w + c) (b * 2 ^ w + d) ≡ bit_or a b * 2 ^ w + bit_or c d
or_split zero a b c d hc hd =
    let zc : c ≡ 0 = omega arith in
    let zd : d ≡ 0 = omega arith in
    let ea : a * 2 ^ 0 + 0 ≡ a = omega arith in
    let eb : b * 2 ^ 0 + 0 ≡ b = omega arith in rw (zc, zd, ea, eb) (omega arith)
or_split (suc w) a b c d hc hd =
    let p = pow-suc 2 w in
    let sa = shift-suc a w in
    let sb = shift-suc b w in
    let s = shift-suc (bit_or a b) w in
    let xa : (a * 2 ^ suc w + c) / 2 ≡ a * 2 ^ w + c / 2 = omega (arith, sa) in
    let xb : (b * 2 ^ suc w + d) / 2 ≡ b * 2 ^ w + d / 2 = omega (arith, sb) in
    let ra : (a * 2 ^ suc w + c) % 2 ≡ c % 2 = omega (arith, sa) in
    let rb : (b * 2 ^ suc w + d) % 2 ≡ d % 2 = omega (arith, sb) in
    let rest = or_split w a b (c / 2) (d / 2) (omega (arith, p)) (omega (arith, p)) in
    or_digit (a * 2 ^ suc w + c) (b * 2 ^ suc w + d)
    ∙ ap₂ (λ q r. q * 2 + r) (ap₂ bit_or xa xb ∙ rest) (ap₂ max ra rb)
    ∙ omega (arith, s, or_digit c d)
