-- ===== src/Helpers/Base64/RoundTrip.antt =====
-- Decoding after encoding, with and without padding, and the lengths of the texts.
use crap_os.Base.{
  append-nil, ℕ, ◌+◌, ◌-◌, ◌*◌, ◌/◌, ◌%◌, ◌<◌, ◌≡◌, refl, ◌∙◌, ap, some, List, [], ◌∷◌, ◌++◌, ◌==◌,
  arith, All, length, length-append, length-replicate, replicate, Bool-cases, inl, inr,
}
use crap_os.Helpers.Base64.{base64_encode_unpadded, base64_encode, decode_groups, base64_decode}
use crap_os.Helpers.Base64.Groups.{decode-encode_groups}
use crap_os.Helpers.Base64.Padding.{trim_end-append_pad, trim_end_id, encode-All_ne_pad}

-- `base64_decode` gives the same result for a text with any number of `=` appended: one, two,
-- or more than two.
pub decode-append_pad :
    (cs : List ℕ) (k : ℕ) → base64_decode (cs ++ replicate k b'=') ≡ base64_decode cs
decode-append_pad cs k = unfold base64_decode in ap decode_groups (trim_end-append_pad cs k)

-- The bytes that `base64_encode_unpadded` encoded are decoded again, with any padding.
pub decode-encode_unpadded :
    (bytes : List ℕ) (k : ℕ)
    → All (λ b. b < 256) bytes
    → base64_decode (base64_encode_unpadded bytes ++ replicate k b'=') ≡ some bytes
unfolding base64_decode
decode-encode_unpadded bytes k all =
    decode-append_pad (base64_encode_unpadded bytes) k
    ∙ ap decode_groups (trim_end_id _ (encode-All_ne_pad bytes))
    ∙ decode-encode_groups bytes all

-- The bytes that `base64_encode` encoded are decoded again.
pub decode-encode :
    (bytes : List ℕ) → All (λ b. b < 256) bytes → base64_decode (base64_encode bytes) ≡ some bytes
unfolding base64_encode
decode-encode bytes all = elim (Bool-cases (length (base64_encode_unpadded bytes) % 4 == 0)) [
  | inl e ↦ rw (e, ← append-nil (base64_encode_unpadded bytes)) (decode-encode_unpadded bytes 0 all)
  | inr e ↦ rw e (decode-encode_unpadded bytes (4 - length (base64_encode_unpadded bytes) % 4) all)
]

length-encode_unpadded :
    (bytes : List ℕ) → length (base64_encode_unpadded bytes) ≡ (length bytes * 4 + 2) / 3
unfolding base64_encode_unpadded
length-encode_unpadded [] = refl
length-encode_unpadded (a ∷ []) = refl
length-encode_unpadded (a ∷ b ∷ []) = refl
length-encode_unpadded (a ∷ b ∷ c ∷ rest) = omega (arith, length-encode_unpadded rest)

length-encode : (bytes : List ℕ) → length (base64_encode bytes) ≡ (length bytes + 2) / 3 * 4
unfolding base64_encode
length-encode bytes =
    let n = length-encode_unpadded bytes in
    elim (Bool-cases (length (base64_encode_unpadded bytes) % 4 == 0)) [
      | inl e ↦ rw e (ground (arith, n))
      | inr e ↦ rw (e, length-append {0}, length-replicate {0}) (ground (arith, n))
    ]

-- The unpadded text has `ceil(4 n / 3)` characters, the padded one four for each group of three
-- bytes, a last group of one or two bytes included.
pub encode_lengths :
    (bytes : List ℕ)
    → (length (base64_encode_unpadded bytes) ≡ (length bytes * 4 + 2) / 3)
      × (length (base64_encode bytes) ≡ (length bytes + 2) / 3 * 4)
encode_lengths bytes = (length-encode_unpadded bytes, length-encode bytes)
