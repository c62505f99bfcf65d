-- ===== src/Helpers/Hex.antt =====
-- `bytes_to_hex`, `hex_nibble`, `hex_to_bytes`, `u64_to_hex_bytes` and `u32_to_hex_bytes`.
pub mod Accepts
pub mod Fixed
pub mod Pairs
use crap_os.Base.{
  ℕ, zero, suc, ◌+◌, ◌-◌, ◌*◌, ◌/◌, ◌%◌, ◌^◌, Bool, true, false, ◌&&◌, ◌||◌, Option, none, some,
  List, [], ◌∷◌, ◌++◌, leb, ◌==◌, if◌then◌else◌, length, set, get_or, replicate, bit_and, bit_or,
  ◌>>=◌,
}

-- `HEX_CHARS_UPPER`, "0123456789ABCDEF".
abbrev pub hex_chars_upper : List ℕ
hex_chars_upper = 48 ∷ 49 ∷ 50 ∷ 51 ∷ 52 ∷ 53 ∷ 54 ∷ 55 ∷ 56 ∷ 57 ∷ 65 ∷ 66 ∷ 67 ∷ 68 ∷ 69 ∷ 70 ∷ []

-- An index is below 16 at every use, so the value for an index out of range is never read.
unfoldable pub hex_char : ℕ → ℕ
hex_char n = get_or hex_chars_upper n 0

unfoldable pub hex_digits : List ℕ → List ℕ
hex_digits [] = []
hex_digits (byte ∷ bytes) = hex_char (byte / 2 ^ 4) ∷ hex_char (bit_and byte 0xf) ∷ hex_digits bytes

pub bytes_to_hex : List ℕ → List ℕ
unfolding hex_digits
bytes_to_hex bytes = b'0' ∷ b'x' ∷ hex_digits bytes

unfoldable pub hex_nibble : ℕ → Option ℕ
hex_nibble byte =
    if leb b'0' byte && leb byte b'9'
    then some (byte - b'0')
    else if leb b'a' byte && leb byte b'f'
    then some (byte - b'a' + 10)
    else if leb b'A' byte && leb byte b'F'
    then some (byte - b'A' + 10)
    else none

-- The loop over pairs of characters. Its caller leaves it an even number of them, so that the
-- index `i + 1` stays in range; a last single character has no value here.
unfoldable pub decode_pairs : List ℕ → Option (List ℕ)
decode_pairs [] = some []
decode_pairs (c ∷ []) = none
decode_pairs (c ∷ d ∷ rest) = hex_nibble c >>= λ high. hex_nibble d >>= λ low.
    decode_pairs rest >>= λ bytes. some (bit_or ((high * 2 ^ 4) % 2 ^ 8) low ∷ bytes)

abbrev pub strip_prefix : List ℕ → List ℕ
strip_prefix [] = []
strip_prefix (c ∷ []) = c ∷ []
strip_prefix (c ∷ d ∷ rest) =
    if (c == b'0') && ((d == b'x') || (d == b'X')) then rest else c ∷ d ∷ rest

-- An odd number of digits: the first one is a byte of its own.
unfoldable pub decode_digits : List ℕ → Option (List ℕ)
unfolding decode_pairs
decode_digits [] = none
decode_digits (c ∷ rest) =
    if length (c ∷ rest) % 2 == 0
    then decode_pairs (c ∷ rest)
    else (hex_nibble c >>= λ first. decode_pairs rest >>= λ bytes. some (first ∷ bytes))

pub hex_to_bytes : List ℕ → Option (List ℕ)
unfolding decode_digits
hex_to_bytes hex = decode_digits (strip_prefix hex)

-- The loop that fills the buffer from its end: the rounds left, the index and the value.
unfoldable pub fill_hex : ℕ → ℕ → ℕ → List ℕ → List ℕ
fill_hex zero i value buffer = buffer
fill_hex (suc rounds) i value buffer =
    fill_hex rounds (i - 1) (value / 2 ^ 4) (set buffer i (hex_char (bit_and value 0xf)))

pub u64_to_hex_bytes : ℕ → List ℕ
unfolding fill_hex
u64_to_hex_bytes value = set (set (fill_hex 16 (18 - 1) value (replicate 18 b'0')) 0 b'0') 1 b'x'

pub u32_to_hex_bytes : ℕ → List ℕ
unfolding fill_hex
u32_to_hex_bytes value = set (set (fill_hex 8 (10 - 1) value (replicate 10 b'0')) 0 b'0') 1 b'x'
