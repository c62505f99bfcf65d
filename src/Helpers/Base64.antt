-- ===== src/Helpers/Base64.antt =====
-- `base64_encode_unpadded`, `base64_encode`, `base64_val` and `base64_decode`.
pub mod Groups
pub mod Padding
pub mod RoundTrip
use crap_os.Base.{
  ℕ, ◌+◌, ◌-◌, ◌*◌, ◌/◌, ◌%◌, ◌^◌, Bool, true, false, not, ◌&&◌, Option, none, some, List, [], ◌∷◌,
  ◌++◌, leb, ◌==◌, if◌then◌else◌, length, get_or, replicate, bit_and, bit_or, ◌>>=◌,
}

-- `BASE64_CHARS`: the upper and the lower case letters, the digits, `+` and `/`.
abbrev pub base64_chars : List ℕ
base64_chars =
    65 ∷ 66 ∷ 67 ∷ 68 ∷ 69 ∷ 70 ∷ 71 ∷ 72 ∷ 73 ∷ 74 ∷ 75 ∷ 76 ∷ 77 ∷ 78 ∷ 79 ∷ 80 ∷ 81 ∷ 82 ∷ 83
    ∷ 84 ∷ 85 ∷ 86 ∷ 87 ∷ 88 ∷ 89 ∷ 90 ∷ 97 ∷ 98 ∷ 99 ∷ 100 ∷ 101 ∷ 102 ∷ 103 ∷ 104 ∷ 105 ∷ 106
    ∷ 107 ∷ 108 ∷ 109 ∷ 110 ∷ 111 ∷ 112 ∷ 113 ∷ 114 ∷ 115 ∷ 116 ∷ 117 ∷ 118 ∷ 119 ∷ 120 ∷ 121 ∷ 122
    ∷ 48 ∷ 49 ∷ 50 ∷ 51 ∷ 52 ∷ 53 ∷ 54 ∷ 55 ∷ 56 ∷ 57 ∷ 43 ∷ 47 ∷ []

-- The index is masked to six bits at every use, so it is in range.
unfoldable pub base64_char : ℕ → ℕ
base64_char n = get_or base64_chars n 0

-- `BASE64_CHARS[(n >> shift) as usize & 0x3F]`.
unfoldable pub sextet : ℕ → ℕ → ℕ
sextet n shift = base64_char (bit_and (n / 2 ^ shift) 0x3f)

-- Whole groups of three bytes, then one or two bytes that are left.
unfoldable pub base64_encode_unpadded : List ℕ → List ℕ
base64_encode_unpadded [] = []
base64_encode_unpadded (a ∷ []) = let n = a * 2 ^ 16 in sextet n 18 ∷ sextet n 12 ∷ []
base64_encode_unpadded (a ∷ b ∷ []) =
    let n = bit_or (a * 2 ^ 16) (b * 2 ^ 8) in sextet n 18 ∷ sextet n 12 ∷ sextet n 6 ∷ []
base64_encode_unpadded (a ∷ b ∷ c ∷ rest) =
    let n = bit_or (bit_or (a * 2 ^ 16) (b * 2 ^ 8)) c in
    sextet n 18 ∷ sextet n 12 ∷ sextet n 6 ∷ sextet n 0 ∷ base64_encode_unpadded rest

unfoldable pub base64_encode : List ℕ → List ℕ
base64_encode input =
    let result = base64_encode_unpadded input in
    let remainder = length result % 4 in
    if not (remainder == 0) then result ++ replicate (4 - remainder) b'=' else result

unfoldable pub base64_val : ℕ → Option ℕ
base64_val byte =
    if leb b'A' byte && leb byte b'Z'
    then some (byte - b'A')
    else if leb b'a' byte && leb byte b'z'
    then some (byte - b'a' + 26)
    else if leb b'0' byte && leb byte b'9'
    then some (byte - b'0' + 52)
    else if byte == b'+'
    then some 62
    else if byte == b'/'
    then some 63
    else none

-- `str::trim_end_matches('=')`.
unfoldable pub trim_end : List ℕ → List ℕ
trim_end [] = []
trim_end (c ∷ cs) = elim (trim_end cs) [
  | [] ↦ (if c == b'=' then [] else c ∷ [])
  | d ∷ ds ↦ c ∷ d ∷ ds
]

-- Whole groups of four characters, then two or three characters that are left.
unfoldable pub decode_groups : List ℕ → Option (List ℕ)
decode_groups [] = some []
decode_groups (p ∷ []) = none
decode_groups (p ∷ q ∷ []) = base64_val p >>= λ a. base64_val q >>= λ b.
    let n = bit_or (a * 2 ^ 18) (b * 2 ^ 12) in some ((n / 2 ^ 16) % 2 ^ 8 ∷ [])
decode_groups (p ∷ q ∷ r ∷ []) = base64_val p >>= λ a. base64_val q >>= λ b. base64_val r >>= λ c.
    let n = bit_or (bit_or (a * 2 ^ 18) (b * 2 ^ 12)) (c * 2 ^ 6) in
    some ((n / 2 ^ 16) % 2 ^ 8 ∷ (n / 2 ^ 8) % 2 ^ 8 ∷ [])
decode_groups (p ∷ q ∷ r ∷ s ∷ rest) =
    let more = decode_groups rest in
    base64_val p >>= λ a. base64_val q >>= λ b. base64_val r >>= λ c. base64_val s >>= λ d.
    let n = bit_or (bit_or (bit_or (a * 2 ^ 18) (b * 2 ^ 12)) (c * 2 ^ 6)) d in
    more >>= λ bytes. some ((n / 2 ^ 16) % 2 ^ 8 ∷ (n / 2 ^ 8) % 2 ^ 8 ∷ n % 2 ^ 8 ∷ bytes)

unfoldable pub base64_decode : List ℕ → Option (List ℕ)
unfolding decode_groups trim_end
base64_decode input = decode_groups (trim_end input)
