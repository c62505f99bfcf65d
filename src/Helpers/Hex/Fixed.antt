-- ===== src/Helpers/Hex/Fixed.antt =====
-- The fixed-width texts are those of the big-endian bytes.
use crap_os.Base.{
  ℕ, zero, suc, ◌*◌, ◌/◌, ◌%◌, ◌^◌, ◌<◌, ◌≡◌, refl, ap, List, [], ◌∷◌, arith, All, bit_and, some,
}
use crap_os.Base.Bits.{and_mask}
use crap_os.Helpers.Hex.{
  hex_char, hex_digits, bytes_to_hex, hex_to_bytes, u64_to_hex_bytes, u32_to_hex_bytes,
}
use crap_os.Helpers.Hex.Pairs.{hex_to_bytes-bytes_to_hex}

-- The bytes of a number, the most significant one first.
abbrev pub be_bytes : ℕ → ℕ → List ℕ
be_bytes zero value = []
be_bytes (suc n) value = (value / 2 ^ (8 * n)) % 256 ∷ be_bytes n value

be_bytes-All : (n value : ℕ) → All (λ b. b < 256) (be_bytes n value)
be_bytes-All zero value = tt
be_bytes-All (suc n) value = (omega arith, be_bytes-All n value)

-- Two rounds of the loop write the two digits of one byte.
byte_digits :
    (x value n : ℕ) {written : List ℕ}
    → x % 256 ≡ value / 2 ^ (8 * n) % 256
    → written ≡ hex_digits (be_bytes n value)
    → hex_char (bit_and (x / 16) 15) ∷ hex_char (bit_and x 15) ∷ written
      ≡ hex_digits (be_bytes (suc n) value)
unfolding hex_digits
byte_digits x value n e rest =
    let high : x / 16 % 16 ≡ value / 2 ^ (8 * n) % 256 / 16 = omega arith in
    let low : x % 16 ≡ value / 2 ^ (8 * n) % 256 % 16 = omega arith in
    rw (and_mask 4 x, and_mask 4 (x / 16), and_mask 4 (value / 2 ^ (8 * n) % 256), rest, high, low)
      refl

-- `u32_to_hex_bytes` writes the four bytes of the value, the most significant one first, as
-- `bytes_to_hex` does, and `hex_to_bytes` gives them back.
pub u32-bytes :
    (value : ℕ)
    → value < 2 ^ 32
    → (u32_to_hex_bytes value ≡ bytes_to_hex (be_bytes 4 value))
      × (hex_to_bytes (u32_to_hex_bytes value) ≡ some (be_bytes 4 value))
u32-bytes value small = (text, rw text (hex_to_bytes-bytes_to_hex _ (be_bytes-All 4 value)))
  where
    text : u32_to_hex_bytes value ≡ bytes_to_hex (be_bytes 4 value)
    text =
        unfold u32_to_hex_bytes bytes_to_hex in
        ap (λ t. 48 ∷ 120 ∷ t)
          (byte_digits _ value 3 (omega arith) (
            byte_digits _ value 2 (omega arith)
              (byte_digits _ value 1 (omega arith) (byte_digits value value 0 (omega arith) refl))))

-- `u64_to_hex_bytes` writes the eight bytes of the value, the most significant one first, as
-- `bytes_to_hex` does, and `hex_to_bytes` gives them back.
pub u64-bytes :
    (value : ℕ)
    → value < 2 ^ 64
    → (u64_to_hex_bytes value ≡ bytes_to_hex (be_bytes 8 value))
      × (hex_to_bytes (u64_to_hex_bytes value) ≡ some (be_bytes 8 value))
u64-bytes value small = (text, rw text (hex_to_bytes-bytes_to_hex _ (be_bytes-All 8 value)))
  where
    text : u64_to_hex_bytes value ≡ bytes_to_hex (be_bytes 8 value)
    text =
        unfold u64_to_hex_bytes bytes_to_hex in
        ap (λ t. 48 ∷ 120 ∷ t)
          (byte_digits _ value 7 (omega arith) (
            byte_digits _ value 6 (omega arith) (
              byte_digits _ value 5 (omega arith) (
                byte_digits _ value 4 (omega arith) (
                  byte_digits _ value 3 (omega arith) (
                    byte_digits _ value 2 (omega arith) (
                      byte_digits _ value 1 (omega arith)
                        (byte_digits value value 0 (omega arith) refl))))))))
