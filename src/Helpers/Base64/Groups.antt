-- ===== src/Helpers/Base64/Groups.antt =====
-- Groups of characters: what is encoded is decoded.
use crap_os.Base.{
  ◌∙◌, true, ℕ, ◌+◌, ◌*◌, ◌/◌, ◌%◌, ◌^◌, ◌<◌, ◌≡◌, refl, none, some, List, [], ◌∷◌, ◌==◌, arith,
  All, every_below, every_below_sound, bit_or,
}
use crap_os.Base.Bits.{or_shifted, and_mask}
use crap_os.Helpers.Base64.{base64_char, sextet, base64_val, base64_encode_unpadded, decode_groups}

-- The value of a character, with 64 for one that is none.
abbrev val_or : ℕ → ℕ
val_or c = elim (base64_val c) [ none ↦ 64 | some n ↦ n ]

char_table : every_below 64 (λ n. val_or (base64_char n) == n) ≡ true
unfolding every_below base64_char base64_val
char_table = refl

pub val-char : (n : ℕ) → n < 64 → base64_val (base64_char n) ≡ some n
val-char n h = ground (arith, every_below_sound 64 (λ n. val_or (base64_char n) == n) n char_table)

pub val-sextet : (n shift v : ℕ) → n / 2 ^ shift % 64 ≡ v → base64_val (sextet n shift) ≡ some v
unfolding sextet
val-sextet n shift v e = rw (and_mask 6 (n / 2 ^ shift), e) (val-char v (omega arith))

-- The fields of a group are added up.
pack2 : (a b : ℕ) → b < 256 → bit_or (a * 2 ^ 16) (b * 2 ^ 8) ≡ a * 2 ^ 16 + b * 2 ^ 8
pack2 a b h = or_shifted 16 a (b * 2 ^ 8) (omega arith)

pack3 :
    (a b c : ℕ)
    → b < 256
    → c < 256
    → bit_or (bit_or (a * 2 ^ 16) (b * 2 ^ 8)) c ≡ a * 2 ^ 16 + b * 2 ^ 8 + c
pack3 a b c hb hc = ground (arith, pack2 a b, or_shifted 8 (a * 2 ^ 8 + b) c)

unpack2 : (a b : ℕ) → b < 64 → bit_or (a * 2 ^ 18) (b * 2 ^ 12) ≡ a * 2 ^ 18 + b * 2 ^ 12
unpack2 a b h = or_shifted 18 a (b * 2 ^ 12) (omega arith)

unpack3 :
    (a b c : ℕ)
    → b < 64
    → c < 64
    → bit_or (bit_or (a * 2 ^ 18) (b * 2 ^ 12)) (c * 2 ^ 6) ≡ a * 2 ^ 18 + b * 2 ^ 12 + c * 2 ^ 6
unpack3 a b c hb hc = ground (arith, unpack2 a b, or_shifted 12 (a * 2 ^ 6 + b) (c * 2 ^ 6))

unpack4 :
    (a b c d : ℕ)
    → b < 64
    → c < 64
    → d < 64
    → bit_or (bit_or (bit_or (a * 2 ^ 18) (b * 2 ^ 12)) (c * 2 ^ 6)) d
      ≡ a * 2 ^ 18 + b * 2 ^ 12 + c * 2 ^ 6 + d
unpack4 a b c d hb hc hd =
    ground (arith, unpack3 a b c, or_shifted 6 (a * 2 ^ 12 + b * 2 ^ 6 + c) d)

-- What the decoder does with a group whose characters have values.
decode_four :
    (p q r s : ℕ) (rest : List ℕ) {a b c d : ℕ} {bytes : List ℕ}
    → base64_val p ≡ some a
    → base64_val q ≡ some b
    → base64_val r ≡ some c
    → base64_val s ≡ some d
    → decode_groups rest ≡ some bytes
    → let n = bit_or (bit_or (bit_or (a * 2 ^ 18) (b * 2 ^ 12)) (c * 2 ^ 6)) d in
      decode_groups (p ∷ q ∷ r ∷ s ∷ rest)
      ≡ some ((n / 2 ^ 16) % 2 ^ 8 ∷ (n / 2 ^ 8) % 2 ^ 8 ∷ n % 2 ^ 8 ∷ bytes)
unfolding decode_groups
decode_four p q r s rest hp hq hr hs h = rw (hp, hq, hr, hs, h)

pub decode-encode_groups :
    (bytes : List ℕ)
    → All (λ b. b < 256) bytes
    → decode_groups (base64_encode_unpadded bytes) ≡ some bytes
unfolding base64_encode_unpadded
decode-encode_groups [] all = unfold decode_groups in refl
decode-encode_groups (a ∷ []) (ha, _) =
    unfold decode_groups in
    rw
      (
        val-sextet (a * 2 ^ 16) 18 (a / 4) (omega arith),
        val-sextet (a * 2 ^ 16) 12 (a % 4 * 16) (omega arith),
      )
      (ground (arith, unpack2 (a / 4) (a % 4 * 16)))
decode-encode_groups (a ∷ b ∷ []) (ha, (hb, _)) =
    unfold decode_groups in
    rw
      (
        pack2 a b hb,
        val-sextet (a * 2 ^ 16 + b * 2 ^ 8) 18 (a / 4) (omega arith),
        val-sextet (a * 2 ^ 16 + b * 2 ^ 8) 12 (a % 4 * 16 + b / 16) (omega arith),
        val-sextet (a * 2 ^ 16 + b * 2 ^ 8) 6 (b % 16 * 4) (omega arith),
      )
      (ground (arith, unpack3 (a / 4) (a % 4 * 16 + b / 16) (b % 16 * 4)))
decode-encode_groups (a ∷ b ∷ c ∷ rest) (ha, (hb, (hc, all))) =
    let n = a * 2 ^ 16 + b * 2 ^ 8 + c in
    let ih = decode-encode_groups rest all in
    let group =
      decode_four _ _ _ _ _ (val-sextet n 18 (a / 4) (omega arith))
        (val-sextet n 12 (a % 4 * 16 + b / 16) (omega arith))
        (val-sextet n 6 (b % 16 * 4 + c / 64) (omega arith)) (val-sextet n 0 (c % 64) (omega arith))
        ih in
    rw (pack3 a b c hb hc)
      (group ∙ ground (arith, unpack4 (a / 4) (a % 4 * 16 + b / 16) (b % 16 * 4 + c / 64) (c % 64)))
