-- ===== src/Rng/Pseudo.antt =====
-- The pseudo-random bytes are the words of xoshiro256++, in one stream.
use crap_os.Base.{
  ◌<◌, bit_xor, ◌-◌, length, [], ◌^◌, ◌∷◌, ℕ, zero, suc, refl, sym, ap, ap₂, inl, inr, List,
  append_assoc, arith, Bool-cases, ==_iff, ◌/◌, ◌+◌, ◌*◌, ◌%◌, ◌≡◌, ◌++◌, ◌==◌, ◌∙◌,
}
use crap_os.Blake.{wrapping_add, take, all_bytes, le_bytes, rotate_right}
use crap_os.Blake.Lengths.{length-all_bytes, length-le_bytes, length-take, take-append, take_within}
use crap_os.Rng.{
  xoshiro256pp, CpuRngState, get_pseudo_random_bytes, prng_draw_8_bytes, pseudo_rounds,
}

abbrev pub then_bytes : List ℕ → List ℕ × CpuRngState → List ℕ × CpuRngState
then_bytes before (bytes, s) = (before ++ bytes, s)

-- Whole words first, and then the rest.
pseudo_rounds-add :
    (k rounds last : ℕ) (s : CpuRngState)
    → pseudo_rounds (k + rounds) last s
      ≡ then_bytes (pseudo_rounds k 0 s).0 (pseudo_rounds rounds last (pseudo_rounds k 0 s).1)
unfolding pseudo_rounds
pseudo_rounds-add zero rounds last s = let e : 0 + rounds ≡ rounds = omega arith in rw e refl
pseudo_rounds-add (suc k) rounds last s =
    let (word, s') = prng_draw_8_bytes s in
    let e : suc k + rounds ≡ suc (k + rounds) = omega arith in
    let ih = pseudo_rounds-add k rounds last s' in
    ap (λ n. pseudo_rounds n last s) e
    ∙ ap (then_bytes word) ih
    ∙ ap (λ b. (b, (pseudo_rounds rounds last (pseudo_rounds k 0 s').1).1))
        (sym (
          append_assoc word (pseudo_rounds k 0 s').0
            (pseudo_rounds rounds last (pseudo_rounds k 0 s').1).0))

-- The two parts of a length.
get-rounds :
    (len : ℕ) (s : CpuRngState)
    → get_pseudo_random_bytes len s ≡ pseudo_rounds (len / 8) (len % 8) s
unfolding get_pseudo_random_bytes
get-rounds len s = elim (Bool-cases (len == 0)) [
  | inl e ↦ let z : len ≡ 0 = (==_iff len 0).0 e in rw (e, z) (unfold pseudo_rounds in refl)
  | inr e ↦ rw e refl
]

-- Two calls, the first one for a multiple of eight bytes, give the bytes of one call for both lengths,
-- and leave the same state.
pub get_pseudo_random_bytes-append :
    (k len : ℕ) (s : CpuRngState)
    → get_pseudo_random_bytes (8 * k + len) s
      ≡ then_bytes
          (get_pseudo_random_bytes (8 * k) s).0
          (get_pseudo_random_bytes len (get_pseudo_random_bytes (8 * k) s).1)
get_pseudo_random_bytes-append k len s =
    let rounds : (8 * k + len) / 8 ≡ k + len / 8 = omega arith in
    let last : (8 * k + len) % 8 ≡ len % 8 = omega arith in
    let first : get_pseudo_random_bytes (8 * k) s ≡ pseudo_rounds k 0 s =
      get-rounds (8 * k) s
      ∙ ap₂ (λ r l. pseudo_rounds r l s) (let q : 8 * k / 8 ≡ k = omega arith in q)
          (let r : 8 * k % 8 ≡ 0 = omega arith in r) in
    get-rounds (8 * k + len) s
    ∙ ap₂ (λ r l. pseudo_rounds r l s) rounds last
    ∙ pseudo_rounds-add k (len / 8) (len % 8) s
    ∙ ap₂ (λ a b. then_bytes a.0 b) (sym first)
        (sym (get-rounds len (pseudo_rounds k 0 s).1)
          ∙ ap (λ a. get_pseudo_random_bytes len a.1) (sym first))

-- The generator xoshiro256++ as it is published, with a rotation to the left and four words of state.
pub record Xoshiro : Type 0 where
  pub s0 : ℕ
  pub s1 : ℕ
  pub s2 : ℕ
  pub s3 : ℕ

abbrev pub four : Xoshiro → List ℕ
four x = x.s0 ∷ x.s1 ∷ x.s2 ∷ x.s3 ∷ []

abbrev pub rotl : ℕ → ℕ → ℕ
rotl x k = x * 2 ^ k % 2 ^ 64 + x / 2 ^ (64 - k)

abbrev pub output : Xoshiro → ℕ
output x = (rotl ((x.s0 + x.s3) % 2 ^ 64) 23 + x.s0) % 2 ^ 64

abbrev pub next : Xoshiro → Xoshiro
next x =
    let shifted = x.s1 * 2 ^ 17 % 2 ^ 64 in
    let s2 = bit_xor x.s2 x.s0 in
    let s3 = bit_xor x.s3 x.s1 in
    record { s0 = bit_xor x.s0 s3; s1 = bit_xor x.s1 s2; s2 = bit_xor s2 shifted; s3 = rotl s3 45 }

unfoldable pub outputs : ℕ → Xoshiro → List ℕ
outputs zero x = []
outputs (suc n) x = output x ∷ outputs n (next x)

unfoldable pub after : ℕ → Xoshiro → Xoshiro
after zero x = x
after (suc n) x = after n (next x)

length-outputs : (n : ℕ) (x : Xoshiro) → length (outputs n x) ≡ n
unfolding outputs
length-outputs zero x = refl
length-outputs (suc n) x = ap suc (length-outputs n (next x))

right-rotl_23 : (x : ℕ) → rotate_right x 41 ≡ rotl x 23
right-rotl_23 x = omega arith

right-rotl_45 : (x : ℕ) → rotate_right x 19 ≡ rotl x 45
right-rotl_45 x = omega arith

xoshiro256pp-next : (x : Xoshiro) → xoshiro256pp (four x) ≡ (output x, four (next x))
unfolding xoshiro256pp
xoshiro256pp-next x =
    rw (right-rotl_23 (wrapping_add x.s0 x.s3), right-rotl_45 (bit_xor x.s3 x.s1)) refl

abbrev with_words : CpuRngState → Xoshiro → CpuRngState
with_words s x = record s { xoshiro_state = four x }

draw-next :
    (s : CpuRngState) (x : Xoshiro)
    → prng_draw_8_bytes (with_words s x) ≡ (le_bytes 8 (output x), with_words s (next x))
unfolding prng_draw_8_bytes
draw-next s x = ap (λ r. (le_bytes 8 r.0, record s { xoshiro_state = r.1 })) (xoshiro256pp-next x)

pseudo_rounds-outputs :
    (rounds last n : ℕ) (s : CpuRngState) (x : Xoshiro)
    → last < 8
    → n ≡ rounds + (last + 7) / 8
    → pseudo_rounds rounds last (with_words s x)
      ≡ (take (8 * rounds + last) (all_bytes (outputs n x)), with_words s (after n x))
unfolding pseudo_rounds outputs after all_bytes
pseudo_rounds-outputs zero zero n s x small count =
    let z : n ≡ 0 = omega (arith, count) in rw z refl
pseudo_rounds-outputs zero (suc last) n s x small count =
    let z : n ≡ 1 = omega (arith, count, small) in
    let flat : 8 * 0 + suc last ≡ suc last = omega arith in
    let within =
      take_within (suc last) (le_bytes 8 (output x)) []
        (omega (arith, small, length-le_bytes 8 (output x))) in
    rw (z, flat)
      (ap (λ r. (take (suc last) r.0, r.1)) (draw-next s x)
        ∙ ap (λ bytes. (bytes, with_words s (next x))) (sym within))
pseudo_rounds-outputs (suc rounds) last zero s x small count = absurd (omega (arith, count))
pseudo_rounds-outputs (suc rounds) last (suc n) s x small count =
    let ih = pseudo_rounds-outputs rounds last n s (next x) small (omega (arith, count)) in
    let bytes =
      take-append (8 * suc rounds + last) (8 * rounds + last) (le_bytes 8 (output x))
        (all_bytes (outputs n (next x))) (omega (arith, length-le_bytes 8 (output x))) in
    ap (λ r. then_bytes r.0 (pseudo_rounds rounds last r.1)) (draw-next s x)
    ∙ ap (then_bytes (le_bytes 8 (output x))) ih
    ∙ ap (λ b. (b, with_words s (after n (next x)))) (sym bytes)

-- The generator's state is four words. Then the bytes are the outputs of xoshiro256++ from this state, eight for each word,
-- the lowest first, as many as were asked for, and the state is the one behind as many words as were begun;
-- nothing else changes.
pub get_pseudo_random_bytes-outputs :
    (len : ℕ) (s : CpuRngState) (x : Xoshiro)
    → s.xoshiro_state ≡ four x
    → (get_pseudo_random_bytes len s ≡ (
      take len (all_bytes (outputs ((len + 7) / 8) x)),
      record s { xoshiro_state = four (after ((len + 7) / 8) x) },
    ))
      × (length (get_pseudo_random_bytes len s).0 ≡ len)
get_pseudo_random_bytes-outputs len s x e =
    let n = (len + 7) / 8 in
    let all : 8 * (len / 8) + len % 8 ≡ len = omega arith in
    let same : s ≡ with_words s x = ap (λ w. record s { xoshiro_state = w }) e in
    let run : get_pseudo_random_bytes len s
        ≡ (take len (all_bytes (outputs n x)), with_words s (after n x)) =
      get-rounds len s
      ∙ ap (pseudo_rounds (len / 8) (len % 8)) same
      ∙ pseudo_rounds-outputs (len / 8) (len % 8) n s x (omega arith) (omega arith)
      ∙ ap (λ l. (take l (all_bytes (outputs n x)), with_words s (after n x))) all in
    (
      run,
      ap (λ r. length r.0) run
          ∙ length-take len (all_bytes (outputs n x))
              (omega (arith, length-all_bytes (outputs n x), length-outputs n x)),
    )
