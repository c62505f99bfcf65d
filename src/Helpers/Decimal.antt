-- ===== src/Helpers/Decimal.antt =====
-- `u32_to_dec_str` and `u64_to_dec_str`.
use crap_os.Base.{
  head_eq, ℕ, zero, suc, ◌+◌, ◌-◌, ◌*◌, ◌/◌, ◌%◌, ◌^◌, ◌<◌, ◌≤◌, ◌≡◌, ◌≢◌, refl, Option, none, some,
  List, [], ◌∷◌, ◌==◌, if◌then◌else◌, length, arith, All, Bool-cases, inl, inr, ==_iff,
}

-- The loop `while value > 0`, with the index `i` and the part of the buffer from `i` on. A digit
-- with no room left is `i -= 1` at 0, an overflow.
unfoldable pub dec_loop : ℕ → ℕ → List ℕ → Option (List ℕ)
dec_loop zero value written = if value == 0 then some written else none
dec_loop (suc i) value written =
    let rest = dec_loop i (value / 10) ((b'0' + value % 10) ∷ written) in
    if value == 0 then some written else rest

pub u32_to_dec_str : ℕ → Option (List ℕ)
unfolding dec_loop
u32_to_dec_str value = if value == 0 then some (b'0' ∷ []) else dec_loop 10 value []

pub u64_to_dec_str : ℕ → Option (List ℕ)
unfolding dec_loop
u64_to_dec_str value = if value == 0 then some (b'0' ∷ []) else dec_loop 20 value []

-- The number that a text of decimal digits stands for, with the digits before it as `acc`.
abbrev pub dec_value : ℕ → List ℕ → ℕ
dec_value acc [] = acc
dec_value acc (c ∷ cs) = dec_value (acc * 10 + (c - b'0')) cs

abbrev pub IsDigit : ℕ → Type 0
IsDigit c = (b'0' ≤ c) × (c ≤ b'9')

-- The text of `value`: digits with the right value, at most `room` of them, and no leading zero.
pub record IsDecimal (room value : ℕ) (text : List ℕ) : Type 0 where
  pub digits : All IsDigit text
  pub stands_for : dec_value 0 text ≡ value
  pub fits : length text ≤ room
  pub not_empty : 0 < length text
  pub no_leading_zero : (c : ℕ) (cs : List ℕ) → text ≡ c ∷ cs → value ≢ 0 → c ≢ b'0'

-- The state of the loop: what is written follows the digits of `value`.
record Written (i value total room : ℕ) (written : List ℕ) : Type 0 where
  digits : All IsDigit written
  stands_for : dec_value value written ≡ total
  count : i + length written ≡ room
  leading : (c : ℕ) (cs : List ℕ) → written ≡ c ∷ cs → value ≡ 0 → c ≢ b'0'
  started : value ≡ 0 → 0 < length written

Written-IsDecimal :
    (i value total room : ℕ) (written : List ℕ)
    → value ≡ 0
    → Written i value total room written
    → IsDecimal room total written
Written-IsDecimal i value total room written e w = record {
  digits = w.digits;
  stands_for = ground (arith, w.stands_for);
  fits = omega (arith, w.count);
  not_empty = w.started e;
  no_leading_zero = λ c cs h _. w.leading c cs h e;
}

Written-next :
    (i value total room : ℕ) (written : List ℕ)
    → value ≢ 0
    → Written (suc i) value total room written
    → Written i (value / 10) total room ((b'0' + value % 10) ∷ written)
Written-next i value total room written ne w = record {
  digits = ((omega arith, omega arith), w.digits);
  stands_for =
      (let e : value / 10 * 10 + (b'0' + value % 10 - b'0') ≡ value = omega arith in
        rw e w.stands_for);
  count = omega (arith, w.count);
  leading = λ c cs h z e. ne (omega (arith, head_eq h));
  started = λ _. omega arith;
}

-- The loop ends within its room when the value has at most `i` digits.
dec_loop-IsDecimal :
    (i value total room : ℕ) (written : List ℕ)
    → value < 10 ^ i
    → Written i value total room written
    → (text : List ℕ) × (dec_loop i value written ≡ some text) × IsDecimal room total text
unfolding dec_loop
dec_loop-IsDecimal zero value total room written small w =
    let e : value ≡ 0 = omega arith in
    (written, rw e refl, Written-IsDecimal zero value total room written e w)
dec_loop-IsDecimal (suc i) value total room written small w = elim (Bool-cases (value == 0)) [
  | inl e ↦ (
    written,
    rw e refl,
    Written-IsDecimal (suc i) value total room written ((==_iff value 0).0 e) w,
  )
  | inr e ↦
      let next =
        dec_loop-IsDecimal i (value / 10) total room ((b'0' + value % 10) ∷ written) (ground arith)
          (Written-next i value total room written (ground arith) w) in
      (next.0, rw e next.1, next.2)
]

zero-IsDecimal : (room : ℕ) → 0 < room → IsDecimal room 0 (b'0' ∷ [])
zero-IsDecimal room h = record {
  digits = ((omega arith, omega arith), tt);
  stands_for = refl;
  fits = omega arith;
  not_empty = omega arith;
  no_leading_zero = λ c cs e ne. absurd (ne refl);
}

pub text-IsDecimal :
    (room value : ℕ)
    → 0 < room
    → value < 10 ^ room
    → (text : List ℕ) × ((if value == 0 then some (b'0' ∷ []) else dec_loop room value [])
        ≡ some text)
      × IsDecimal room value text
text-IsDecimal room value pos small = elim (Bool-cases (value == 0)) [
  | inl e ↦
      let z : value ≡ 0 = (==_iff value 0).0 e in
      (b'0' ∷ [], rw e refl, rw z (zero-IsDecimal room pos))
  | inr e ↦
      let ne : value ≢ 0 = ground arith in
      let run = dec_loop-IsDecimal room value value room [] small (record {
        digits = tt;
        stands_for = refl;
        count = omega arith;
        leading = λ c cs h z. absurd (ne z);
        started = λ h. absurd (ne h);
      }) in
      (run.0, rw e run.1, run.2)
]

-- Every `u64` has a decimal text in the 20 bytes of the buffer: digits that stand for the value,
-- with no leading zero.
pub u64_to_dec_str-IsDecimal :
    (value : ℕ)
    → value < 2 ^ 64
    → (text : List ℕ) × (u64_to_dec_str value ≡ some text) × IsDecimal 20 value text
unfolding u64_to_dec_str
u64_to_dec_str-IsDecimal value h = text-IsDecimal 20 value (omega arith) (omega arith)

-- Every `u32` has a decimal text in the 10 bytes of the buffer: digits that stand for the value,
-- with no leading zero.
pub u32_to_dec_str-IsDecimal :
    (value : ℕ)
    → value < 2 ^ 32
    → (text : List ℕ) × (u32_to_dec_str value ≡ some text) × IsDecimal 10 value text
unfolding u32_to_dec_str
u32_to_dec_str-IsDecimal value h = text-IsDecimal 10 value (omega arith) (omega arith)
