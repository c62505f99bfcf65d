-- ===== src/Helpers/Hex/Pairs.antt =====
-- Decoding what `bytes_to_hex` wrote.
use crap_os.Base.{
  ℕ, ◌*◌, ◌/◌, ◌%◌, ◌^◌, ◌<◌, ◌≡◌, refl, true, none, some, List, [], ◌∷◌, ◌==◌, length, arith,
  every_below, every_below_sound, All, bit_or,
}
use crap_os.Base.Bits.{or_shifted, and_mask}
use crap_os.Helpers.Hex.{hex_char, hex_digits, bytes_to_hex, hex_nibble, decode_pairs, hex_to_bytes}

-- The value of a digit, with 16 for a character that is none.
abbrev nibble_or : ℕ → ℕ
nibble_or c = elim (hex_nibble c) [ none ↦ 16 | some n ↦ n ]

nibble_table : every_below 16 (λ n. nibble_or (hex_char n) == n) ≡ true
unfolding every_below hex_char hex_nibble
nibble_table = refl

pub nibble-hex_char : (n : ℕ) → n < 16 → hex_nibble (hex_char n) ≡ some n
nibble-hex_char n h =
    ground (arith, every_below_sound 16 (λ n. nibble_or (hex_char n) == n) n nibble_table)

nibble_join : (byte : ℕ) → byte < 256 → bit_or ((byte / 2 ^ 4 * 2 ^ 4) % 2 ^ 8) (byte % 16) ≡ byte
nibble_join byte h = ground (arith, or_shifted 4 (byte / 16) (byte % 16))

pub decode-hex_digits :
    (bytes : List ℕ) → All (λ b. b < 256) bytes → decode_pairs (hex_digits bytes) ≡ some bytes
unfolding decode_pairs hex_digits
decode-hex_digits [] all = refl
decode-hex_digits (byte ∷ bytes) (small, all) =
    rw
      (
        and_mask 4 byte,
        nibble-hex_char (byte / 16) (omega arith),
        nibble-hex_char (byte % 16) (omega arith),
        decode-hex_digits bytes all,
      )
      (rw (nibble_join byte small))

length_even : (bytes : List ℕ) → length (hex_digits bytes) % 2 ≡ 0
unfolding hex_digits
length_even [] = refl
length_even (byte ∷ bytes) = omega (arith, length_even bytes)

-- A text that `bytes_to_hex` wrote for at least one byte decodes to these bytes. The empty list
-- is written as a bare prefix, which `hex_to_bytes` refuses.
pub hex_to_bytes-bytes_to_hex :
    (bytes : List ℕ)
    → All (λ b. b < 256) bytes
    → hex_to_bytes (bytes_to_hex bytes) ≡ elim bytes [ [] ↦ none | b ∷ bs ↦ some (b ∷ bs) ]
unfolding hex_to_bytes bytes_to_hex
hex_to_bytes-bytes_to_hex [] all = refl
hex_to_bytes-bytes_to_hex (byte ∷ bytes) all =
    ground (arith, length_even (byte ∷ bytes), decode-hex_digits (byte ∷ bytes) all)
