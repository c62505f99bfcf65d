-- ===== src/Argon/Numbers.antt =====
-- The cost parameters of a password record as text: `u32_to_alloc_string`, `parse_u32` and
-- `parse_param` of crap_os/src/crypto/hash/argon2.rs.
use crap_os.Base.{
  ℕ, refl, ap, true, false, Option, none, some, List, [], arith, All, ltb, ◌+◌, ◌-◌, ◌*◌, ◌^◌, ◌≤◌,
  ◌<◌, ◌≡◌, ◌∷◌, ◌||◌, ◌==◌, if◌then◌else◌, ◌∙◌, ◌>>=◌,
}
use crap_os.Helpers.Decimal.{dec_loop, dec_value, IsDigit, IsDecimal, text-IsDecimal}

abbrev pub u32_to_alloc_string : ℕ → Option (List ℕ)
u32_to_alloc_string v = if v == 0 then some (b'0' ∷ []) else dec_loop 10 v []

-- The result of `checked_mul` and `checked_add`.
abbrev checked : ℕ → Option ℕ
checked n = if ltb n (2 ^ 32) then some n else none

unfoldable parse_digits : ℕ → List ℕ → Option ℕ
parse_digits result [] = some result
parse_digits result (b ∷ bs) =
    if ltb b b'0' || ltb b'9' b
    then none
    else checked (result * 10) >>= λ tens.
        checked (tens + (b - b'0')) >>= λ sum. parse_digits sum bs

unfoldable pub parse_u32 : List ℕ → Option ℕ
unfolding parse_digits
parse_u32 [] = none
parse_u32 (b ∷ bs) = parse_digits 0 (b ∷ bs)

-- `str::strip_prefix_of`
abbrev pub strip_prefix_of : List ℕ → List ℕ → Option (List ℕ)
strip_prefix_of [] s = some s
strip_prefix_of (p ∷ ps) [] = none
strip_prefix_of (p ∷ ps) (c ∷ cs) = if p == c then strip_prefix_of ps cs else none

unfoldable pub parse_param : List ℕ → List ℕ → Option ℕ
parse_param s prefix = strip_prefix_of prefix s >>= parse_u32

le-dec_value : (text : List ℕ) (acc : ℕ) → acc ≤ dec_value acc text
le-dec_value [] acc = omega arith
le-dec_value (c ∷ cs) acc = omega (arith, le-dec_value cs (acc * 10 + (c - b'0')))

-- The digits of a number below 2 ^ 32 are parsed with no overflow on the way.
parse_digits-dec_value :
    (text : List ℕ) (acc : ℕ)
    → All IsDigit text
    → dec_value acc text < 2 ^ 32
    → parse_digits acc text ≡ some (dec_value acc text)
unfolding parse_digits
parse_digits-dec_value [] acc all small = refl
parse_digits-dec_value (c ∷ cs) acc ((lo, hi), all) small =
    let bound = le-dec_value cs (acc * 10 + (c - b'0')) in
    let digit : (ltb c b'0' || ltb b'9' c) ≡ false = ground (arith, lo, hi) in
    let e1 : ltb (acc * 10) (2 ^ 32) ≡ true = ground arith in
    let e2 : ltb (acc * 10 + (c - b'0')) (2 ^ 32) ≡ true = ground arith in
    rw (digit, e1, e2) (parse_digits-dec_value cs (acc * 10 + (c - b'0')) all small)

pub parse_u32-IsDecimal :
    (room value : ℕ) (text : List ℕ)
    → value < 2 ^ 32
    → IsDecimal room value text
    → parse_u32 text ≡ some value
unfolding parse_u32
parse_u32-IsDecimal room value [] small h = absurd (omega (arith, h.not_empty))
parse_u32-IsDecimal room value (c ∷ cs) small h =
    let run = parse_digits-dec_value (c ∷ cs) 0 h.digits (rw h.stands_for small) in
    run ∙ ap some h.stands_for

pub u32_to_alloc_string-IsDecimal :
    (value : ℕ)
    → value < 2 ^ 32
    → (text : List ℕ) × (u32_to_alloc_string value ≡ some text) × IsDecimal 10 value text
u32_to_alloc_string-IsDecimal value h = text-IsDecimal 10 value (omega arith) (omega arith)
