-- ===== src/Acpi/Bytes.antt =====
-- Bytes in memory, and a little-endian number that is read from them.
use native.Mathlib.Nat.{pow-suc}
use crap_os.Base.{ℕ, zero, suc, List, [], arith, length, ◌/◌, ◌+◌, ◌^◌, ◌<◌, ◌≡◌, ◌∷◌, ◌++◌}
use crap_os.Acpi.{read}
use crap_os.Blake.{le_bytes}

-- The memory holds these bytes from an address on.
abbrev pub Holds : (ℕ → ℕ) → ℕ → List ℕ → Type 0
Holds mem at [] = Unit
Holds mem at (b ∷ bs) = (mem at ≡ b) × Holds mem (at + 1) bs

pub Holds-append :
    (mem : ℕ → ℕ) (at : ℕ) (xs ys : List ℕ)
    → Holds mem at (xs ++ ys)
    → Holds mem at xs × Holds mem (at + length xs) ys
Holds-append mem at [] ys h = (tt, rw (let e : at + 0 ≡ at = omega arith in e) h)
Holds-append mem at (x ∷ xs) ys (e, h) =
    let (l, r) = Holds-append mem (at + 1) xs ys h in
    let shift : at + suc (length xs) ≡ at + 1 + length xs = omega arith in ((e, l), rw shift r)

-- A number that is written is read.
pub read-le_bytes :
    (n : ℕ) (mem : ℕ → ℕ) (at w : ℕ) → w < 256 ^ n → Holds mem at (le_bytes n w) → read n mem at ≡ w
unfolding le_bytes read
read-le_bytes zero mem at w small h = omega (arith, small)
read-le_bytes (suc n) mem at w small (e, h) =
    let p = pow-suc 256 n in
    let ih = read-le_bytes n mem (at + 1) (w / 256) (omega (arith, small, p)) h in
    rw (e, ih) (omega arith)

-- The bytes behind the first four.
pub past_four :
    (mem : ℕ → ℕ) (cursor : ℕ) (bytes : List ℕ)
    → Holds mem (cursor + 1 + 1 + 1 + 1) bytes
    → Holds mem (cursor + 4) bytes
past_four mem cursor bytes h =
    rw (let e : cursor + 1 + 1 + 1 + 1 ≡ cursor + 4 = omega arith in e) at h
