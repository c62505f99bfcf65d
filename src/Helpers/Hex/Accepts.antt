-- ===== src/Helpers/Hex/Accepts.antt =====
-- Which texts `hex_to_bytes` accepts, and how long the result is.
use crap_os.Base.{
  sym, false, ◌||◌, ◌&&◌, ◌∙◌, leb, ap, if◌then◌else◌, ◌==◌, ◌↔◌, Bool-cases, ◌≢◌, ◌/◌, ℕ, ◌+◌, ◌-◌,
  ◌*◌, ◌%◌, ◌^◌, ◌<◌, ◌≤◌, ◌≡◌, refl, Option, some, List, [], ◌∷◌, arith, All, length, ◌⊎◌, inl,
  inr, Option-cases, bit_or,
}
use crap_os.Base.Bits.{or_shifted}
use crap_os.Helpers.Hex.{strip_prefix, hex_to_bytes, decode_digits, hex_nibble, decode_pairs}

abbrev pub IsHexDigit : ℕ → Type 0
IsHexDigit c = ((b'0' ≤ c) × (c ≤ b'9')) ⊎ ((b'a' ≤ c) × (c ≤ b'f')) ⊎ ((b'A' ≤ c) × (c ≤ b'F'))

-- The number that a digit stands for: the digits, the capitals and the small letters follow in this order.
abbrev pub digit : ℕ → ℕ
digit c = if leb c b'9' then c - 48 else if leb c b'F' then c - 55 else c - 87

-- The number with some digits to the base 16, and with some bytes to the base 256, the highest first, behind a
-- number that was read before.
abbrev pub hex_value : ℕ → List ℕ → ℕ
hex_value n [] = n
hex_value n (c ∷ cs) = hex_value (n * 16 + digit c) cs

abbrev pub bytes_value : ℕ → List ℕ → ℕ
bytes_value n [] = n
bytes_value n (b ∷ bs) = bytes_value (n * 256 + b) bs

nibble_of : (c : ℕ) → IsHexDigit c → (hex_nibble c ≡ some (digit c)) × (digit c < 16)
unfolding hex_nibble
nibble_of c (inl h) = (ground arith, ground arith)
nibble_of c (inr (inl h)) = (ground arith, ground arith)
nibble_of c (inr (inr h)) = (ground arith, ground arith)

digit_of : (c : ℕ) {n : ℕ} → hex_nibble c ≡ some n → IsHexDigit c
unfolding hex_nibble
digit_of c h = ground arith

-- What a successful run returned: bytes, half as many as there were digits.
abbrev Decoded : List ℕ → Option (List ℕ) → Type 0
Decoded cs r =
    (bytes : List ℕ) × (r ≡ some bytes)
    × All (λ b. b < 256) bytes
    × (length bytes * 2 ≡ length cs)
    × ((n : ℕ) → bytes_value n bytes ≡ hex_value n cs)

join : (high low : ℕ) → high < 16 → low < 16 → bit_or ((high * 2 ^ 4) % 2 ^ 8) low ≡ high * 16 + low
join high low h k = ground (arith, or_shifted 4 high low)

decode_pairs-Decoded :
    (cs : List ℕ) → length cs % 2 ≡ 0 → All IsHexDigit cs → Decoded cs (decode_pairs cs)
unfolding decode_pairs
decode_pairs-Decoded [] even all = ([], refl, tt, refl, λ n. refl)
decode_pairs-Decoded (c ∷ []) even all = absurd (omega arith)
decode_pairs-Decoded (c ∷ d ∷ rest) even (hc, (hd, all)) =
    let (e, small) = nibble_of c hc in
    let (e', small') = nibble_of d hd in
    let (bytes, r, bounds, count, value) = decode_pairs-Decoded rest (omega arith) all in
    let joined = join (digit c) (digit d) small small' in
    (
      bit_or ((digit c * 2 ^ 4) % 2 ^ 8) (digit d) ∷ bytes,
      rw (e, e', r),
      (omega (arith, joined, small, small'), bounds),
      omega arith,
      λ n.
          (let same : n * 256 + bit_or ((digit c * 2 ^ 4) % 2 ^ 8) (digit d)
                ≡ (n * 16 + digit c) * 16 + digit d =
              omega (arith, joined) in
            ap (λ m. bytes_value m bytes) same ∙ value ((n * 16 + digit c) * 16 + digit d)),
    )

decode_pairs-All : (cs : List ℕ) {bytes : List ℕ} → decode_pairs cs ≡ some bytes → All IsHexDigit cs
unfolding decode_pairs
decode_pairs-All [] h = tt
decode_pairs-All (c ∷ []) h = cc
decode_pairs-All (c ∷ d ∷ rest) h = elim (Option-cases (hex_nibble c)) [
  | inl e ↦ cc (rw e at h)
  | inr (high, e) ↦ elim (Option-cases (hex_nibble d)) [
    | inl e' ↦ cc (rw (e, e') at h)
    | inr (low, e') ↦ elim (Option-cases (decode_pairs rest)) [
      | inl r ↦ cc (rw (e, e', r) at h)
      | inr (more, r) ↦ (digit_of c e, (digit_of d e', decode_pairs-All rest r))
    ]
  ]
]

-- A result of `hex_to_bytes` for the digits `cs`: bytes, one for two digits, rounded up, that stand for the same
-- number.
abbrev pub Parsed : List ℕ → Option (List ℕ) → Type 0
Parsed cs r =
    (bytes : List ℕ) × (r ≡ some bytes)
    × All (λ b. b < 256) bytes
    × (length bytes ≡ (length cs + 1) / 2)
    × (bytes_value 0 bytes ≡ hex_value 0 cs)

decode_digits-Parsed :
    (c : ℕ) (rest : List ℕ)
    → All IsHexDigit (c ∷ rest)
    → Parsed (c ∷ rest) (decode_digits (c ∷ rest))
unfolding decode_digits
decode_digits-Parsed c rest (hc, all) = elim (Bool-cases (length (c ∷ rest) % 2 == 0)) [
  | inl e ↦
      let (bytes, r, small, count, value) =
        decode_pairs-Decoded (c ∷ rest) (ground arith) (hc, all) in
      (bytes, rw (e, r), small, ground arith, value 0)
  | inr e ↦
      let (n, low) = nibble_of c hc in
      let (bytes, r, small, count, value) = decode_pairs-Decoded rest (ground arith) all in
      let start : 0 * 256 + digit c ≡ 0 * 16 + digit c = omega arith in
      (
        digit c ∷ bytes,
        rw (e, n, r),
        (omega (arith, low), small),
        ground arith,
        ap (λ m. bytes_value m bytes) start ∙ value (0 * 16 + digit c),
      )
]

decode_digits-All :
    (c : ℕ) (rest : List ℕ) {bytes : List ℕ}
    → decode_digits (c ∷ rest) ≡ some bytes
    → All IsHexDigit (c ∷ rest)
unfolding decode_digits
decode_digits-All c rest h = elim (Bool-cases (length (c ∷ rest) % 2 == 0)) [
  | inl e ↦ decode_pairs-All (c ∷ rest) (rw e at h)
  | inr e ↦ elim (Option-cases (hex_nibble c)) [
    | inl n ↦ cc (rw (e, n) at h)
    | inr (first, n) ↦ elim (Option-cases (decode_pairs rest)) [
      | inl r ↦ cc (rw (e, n, r) at h)
      | inr (more, r) ↦ (digit_of c n, decode_pairs-All rest r)
    ]
  ]
]

accepted :
    (cs : List ℕ) {bytes : List ℕ} → decode_digits cs ≡ some bytes → (cs ≢ []) × All IsHexDigit cs
unfolding decode_digits
accepted [] h = cc
accepted (c ∷ rest) h = (λ e. cc, decode_digits-All c rest h)

parsed : (cs : List ℕ) → cs ≢ [] → All IsHexDigit cs → Parsed cs (decode_digits cs)
parsed [] some_digit all = absurd (some_digit refl)
parsed (c ∷ rest) some_digit all = decode_digits-Parsed c rest all

-- A text of the digits `cs`, with the prefix `0x` or `0X` or without one.
abbrev pub Spelled : List ℕ → List ℕ → Type 0
Spelled cs hex = (hex ≡ cs) ⊎ (hex ≡ b'0' ∷ b'x' ∷ cs) ⊎ (hex ≡ b'0' ∷ b'X' ∷ cs)

-- The prefix is two characters.
strip_prefix-cases :
    (cs : List ℕ) → (strip_prefix cs ≡ cs) ⊎ (length (strip_prefix cs) + 2 ≡ length cs)
strip_prefix-cases [] = inl refl
strip_prefix-cases (c ∷ []) = inl refl
strip_prefix-cases (c ∷ d ∷ rest) =
    elim (Bool-cases ((c == b'0') && ((d == b'x') || (d == b'X')))) [
      | inl e ↦ inr (rw e (omega arith))
      | inr e ↦ inl (rw e refl)
    ]

-- No digit is the letter of the prefix.
strip_prefix-digits : (cs : List ℕ) → All IsHexDigit cs → strip_prefix cs ≡ cs
strip_prefix-digits [] h = refl
strip_prefix-digits (c ∷ []) h = refl
strip_prefix-digits (c ∷ d ∷ rest) (_, (hd, _)) =
    let e : ((d == b'x') || (d == b'X')) ≡ false = not_prefix d hd in
    elim (Bool-cases (c == b'0')) [ inl z ↦ rw (z, e) refl | inr z ↦ rw z refl ]
  where
    not_prefix : (d : ℕ) → IsHexDigit d → ((d == b'x') || (d == b'X')) ≡ false
    not_prefix d (inl h) = ground arith
    not_prefix d (inr (inl h)) = ground arith
    not_prefix d (inr (inr h)) = ground arith

-- The digits of a result are what stands behind the prefix.
digits-Parsed :
    (cs hex : List ℕ)
    → Spelled cs hex
    → Parsed cs (decode_digits (strip_prefix hex))
    → strip_prefix hex ≡ cs
digits-Parsed cs hex (inr (inl e)) p = rw e refl
digits-Parsed cs hex (inr (inr e)) p = rw e refl
digits-Parsed cs hex (inl e) (bytes, h, _, count, _) =
    let (some_digit, all) = accepted (strip_prefix hex) h in
    let (bytes', h', _, count', _) = parsed (strip_prefix hex) some_digit all in
    let same : bytes ≡ bytes' = cc (sym h ∙ h') in
    let n = ap length same in
    let m = ap length e in
    elim (strip_prefix-cases hex) [
      | inl kept ↦ kept ∙ e
      | inr shorter ↦ absurd (omega (arith, n, m, count, count', shorter))
    ]

-- A text is a list of digits `cs` with the prefix `0x` or `0X` or without one. Then `hex_to_bytes`
-- succeeds and returns bytes, half as many as there are digits, rounded up, that stand for the same number to the
-- base 256 as `cs` to the base 16, if and only if `cs` is one hex digit or more.
pub hex_to_bytes-Parsed_iff :
    (hex cs : List ℕ)
    → Spelled cs hex
    → ((cs ≢ []) × All IsHexDigit cs) ↔ Parsed cs (hex_to_bytes hex)
unfolding hex_to_bytes
hex_to_bytes-Parsed_iff hex cs spelled = (
  λ (some_digit, all).
      (let e : strip_prefix hex ≡ cs = same cs hex all spelled in rw e (parsed cs some_digit all)),
  λ p.
      (let e = digits-Parsed cs hex spelled p in
        let (_, h, _, _, _) = p in accepted cs (rw e at h)),
)
  where
    same : (cs hex : List ℕ) → All IsHexDigit cs → Spelled cs hex → strip_prefix hex ≡ cs
    same cs hex all (inl e) = rw e (strip_prefix-digits cs all)
    same cs hex all (inr (inl e)) = rw e refl
    same cs hex all (inr (inr e)) = rw e refl
