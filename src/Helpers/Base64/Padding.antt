-- ===== src/Helpers/Base64/Padding.antt =====
-- Padding: `trim_end_matches('=')` and the characters that `base64_encode` appends.
use crap_os.Base.{
  ◌%◌, ◌^◌, ◌/◌, ℕ, zero, suc, ◌≡◌, refl, true, false, List, [], ◌∷◌, ◌++◌, ◌==◌, arith, All,
  replicate, every_below, every_below_sound, not,
}
use crap_os.Base.Bits.{and_mask}
use crap_os.Helpers.Base64.{base64_char, sextet, base64_encode_unpadded, trim_end}

pub trim_end-replicate : (k : ℕ) → trim_end (replicate k b'=') ≡ []
unfolding trim_end
trim_end-replicate zero = refl
trim_end-replicate (suc k) = rw (trim_end-replicate k) refl

-- Any number of `=` at the end is dropped.
pub trim_end-append_pad : (cs : List ℕ) (k : ℕ) → trim_end (cs ++ replicate k b'=') ≡ trim_end cs
unfolding trim_end
trim_end-append_pad [] k = trim_end-replicate k
trim_end-append_pad (c ∷ cs) k = rw (trim_end-append_pad cs k) refl

-- A text with no `=` is left as it is.
pub trim_end_id : (cs : List ℕ) → All (λ c. (c == b'=') ≡ false) cs → trim_end cs ≡ cs
unfolding trim_end
trim_end_id [] all = refl
trim_end_id (c ∷ []) (h, _) = rw h refl
trim_end_id (c ∷ d ∷ ds) (h, all) = rw (trim_end_id (d ∷ ds) all) refl

no_pad_table : every_below 64 (λ n. not (base64_char n == b'=')) ≡ true
unfolding every_below base64_char
no_pad_table = refl

sextet-ne_pad : (n shift : ℕ) → (sextet n shift == b'=') ≡ false
unfolding sextet
sextet-ne_pad n shift =
    let at =
      every_below_sound 64 (λ n. not (base64_char n == b'=')) (n / 2 ^ shift % 64) no_pad_table
        (omega arith) in
    rw (and_mask 6 (n / 2 ^ shift)) (ground (arith, at))

-- What holds of every character of the alphabet holds of the whole text.
pub encode-All :
    (P : ℕ → Type 0)
    → ((n shift : ℕ) → P (sextet n shift))
    → (bytes : List ℕ) → All P (base64_encode_unpadded bytes)
unfolding base64_encode_unpadded
encode-All P h [] = tt
encode-All P h (a ∷ []) = (h _ 18, (h _ 12, tt))
encode-All P h (a ∷ b ∷ []) = (h _ 18, (h _ 12, (h _ 6, tt)))
encode-All P h (a ∷ b ∷ c ∷ rest) = (h _ 18, (h _ 12, (h _ 6, (h _ 0, encode-All P h rest))))

-- The encoder's alphabet has no `=`.
pub encode-All_ne_pad :
    (bytes : List ℕ) → All (λ c. (c == b'=') ≡ false) (base64_encode_unpadded bytes)
encode-All_ne_pad bytes = encode-All (λ c. (c == b'=') ≡ false) sextet-ne_pad bytes

no_dollar_table : every_below 64 (λ n. not (base64_char n == b'$')) ≡ true
unfolding every_below base64_char
no_dollar_table = refl

pub sextet-ne_dollar : (n shift : ℕ) → (sextet n shift == b'$') ≡ false
unfolding sextet
sextet-ne_dollar n shift =
    let at =
      every_below_sound 64 (λ n. not (base64_char n == b'$')) (n / 2 ^ shift % 64) no_dollar_table
        (omega arith) in
    rw (and_mask 6 (n / 2 ^ shift)) (ground (arith, at))
