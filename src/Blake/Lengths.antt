-- ===== src/Blake/Lengths.antt =====
-- The lengths of what the hashes give back: `blake2b` and `h_prime`.
use crap_os.Base.{
  ℕ, zero, suc, ◌+◌, ◌-◌, ◌*◌, ◌/◌, ◌%◌, ◌^◌, ◌≤◌, ◌<◌, ◌≡◌, refl, ap, ◌∙◌, true, false, List, [],
  ◌∷◌, ◌++◌, length, length-append, Option, none, some, ◌==◌, ◌||◌, leb, ltb, if◌then◌else◌, arith,
  inl, inr, Bool-cases, ◌⊎◌,
}
use crap_os.Blake.{
  last_block, blake2b_256, blake2b_512, blake2b_mac_256, blake2b_mac_512, Blake2bState, all_bytes,
  blake2b, chain, compress, finalize, h_prime, hash, increment_counter, le_bytes, key_length,
  max_out_len, refuses_key, take,
}
use crap_os.Blake.Absorb.{
  IsState, absorb_all, absorb_all-IsState, concat, length-fold_back, new_state-cases,
  update_each-absorb_all,
}
use crap_os.Tasks.Outcome.{Outcome, done, panic, ◌>>=◌}

pub length-le_bytes : (n w : ℕ) → length (le_bytes n w) ≡ n
unfolding le_bytes
length-le_bytes zero w = refl
length-le_bytes (suc n) w = ap suc (length-le_bytes n (w / 256))

pub length-all_bytes : (ws : List ℕ) → length (all_bytes ws) ≡ 8 * length ws
unfolding all_bytes
length-all_bytes [] = refl
length-all_bytes (w ∷ ws) =
    length-append (le_bytes 8 w) (all_bytes ws)
    ∙ omega (arith, length-le_bytes 8 w, length-all_bytes ws)

pub length-take : (n : ℕ) (xs : List ℕ) → n ≤ length xs → length (take n xs) ≡ n
length-take zero xs h = refl
length-take (suc n) [] h = absurd (omega arith)
length-take (suc n) (x ∷ xs) h = ap suc (length-take n xs (omega arith))

pub take-append :
    (k m : ℕ) (xs ys : List ℕ) → k ≡ length xs + m → take k (xs ++ ys) ≡ xs ++ take m ys
take-append k m [] ys e = ap (λ j. take j ys) (e ∙ omega arith)
take-append zero m (x ∷ xs) ys e = absurd (omega (arith, e))
take-append (suc k) m (x ∷ xs) ys e = ap (λ zs. x ∷ zs) (take-append k m xs ys (omega (arith, e)))

pub take_within : (k : ℕ) (xs ys : List ℕ) → k ≤ length xs → take k (xs ++ ys) ≡ take k xs
take_within zero xs ys h = refl
take_within (suc k) [] ys h = absurd (omega (arith, h))
take_within (suc k) (x ∷ xs) ys h = ap (λ zs. x ∷ zs) (take_within k xs ys (omega (arith, h)))

-- A hash that is returned, with its length.
abbrev pub Returns : ℕ → Outcome (List ℕ) → Type 0
Returns n result = (out : List ℕ) × (result ≡ done out) × (length out ≡ n)

last_block-words : (s : Blake2bState) → length (last_block s).h ≡ length s.h
unfolding last_block compress increment_counter
last_block-words s = length-fold_back 0 _ s.h

finalize-Returns :
    (out_len : ℕ) (s : Blake2bState)
    → IsState out_len s
    → out_len ≤ 64
    → Returns out_len (finalize s)
unfolding finalize
finalize-Returns out_len s h small =
    let e : leb s.out_len 64 ≡ true = ground (arith, h.out) in
    let words = last_block-words s in
    let bytes = length-all_bytes (last_block s).h in
    let whole : length (take s.out_len (all_bytes (last_block s).h)) ≡ s.out_len =
      length-take s.out_len (all_bytes (last_block s).h)
        (omega (arith, bytes, words, h.words, h.out)) in
    (take s.out_len (all_bytes (last_block s).h), rw e refl, whole ∙ h.out)

-- A hash with a key of at most a block and at most 64 bytes of output returns these bytes.
pub hash-Returns :
    (inputs : List (List ℕ)) (out_len : ℕ) (key : Option (List ℕ))
    → out_len ≤ 64
    → key_length key ≤ 128
    → Returns out_len (hash inputs out_len key)
hash-Returns inputs out_len key small short = elim (new_state-cases out_len key) [
  | inl (long, e) ↦ absurd (omega arith)
  | inr (s, e, h) ↦ rw e (
      rw (update_each-absorb_all out_len inputs s h) (
        finalize-Returns out_len (absorb_all (concat inputs) s)
          (absorb_all-IsState out_len (concat inputs) s h) small))
]

key_fits : (key : Option (List ℕ)) → refuses_key key ≡ false → key_length key ≤ 128
key_fits none h = omega arith
key_fits (some k) h = ground arith

-- A key of no bytes or of more than 64.
abbrev pub BadKey : Option (List ℕ) → Type 0
BadKey none = ⊥
BadKey (some k) = (length k ≡ 0) ⊎ (64 < length k)

abbrev pub GoodKey : Option (List ℕ) → Type 0
GoodKey none = Unit
GoodKey (some k) = (0 < length k) × (length k ≤ 64)

refused-BadKey : (key : Option (List ℕ)) → refuses_key key ≡ true → BadKey key
refused-BadKey none h = cc
refused-BadKey (some k) h = elim (Bool-cases (length k == 0)) [
  | inl e ↦ inl (ground arith)
  | inr e ↦ inr (ground arith)
]

taken-GoodKey : (key : Option (List ℕ)) → refuses_key key ≡ false → GoodKey key
taken-GoodKey none h = tt
taken-GoodKey (some k) h = (ground arith, ground arith)

-- The hash fails for an output of no bytes or of more than 64, and for a key of no bytes or of more
-- than 64. Otherwise it returns as many bytes as were asked for.
pub blake2b-cases :
    (input : List ℕ) (out_len : ℕ) (key : Option (List ℕ))
    → (((out_len ≡ 0) ⊎ (64 < out_len) ⊎ BadKey key) × (blake2b input out_len key ≡ done none))
      ⊎ ((0 < out_len)
          × (out_len ≤ 64)
          × GoodKey key
          × ((out : List ℕ) × (blake2b input out_len key ≡ done (some out))
              × (length out ≡ out_len)))
unfolding blake2b
blake2b-cases input out_len key =
    let wrong_length : ((out_len == 0) || ltb max_out_len out_len) ≡ true
        → (out_len ≡ 0) ⊎ ((64 < out_len) ⊎ BadKey key) =
      λ e. elim (Bool-cases (out_len == 0)) [
        | inl z ↦ inl (ground arith)
        | inr z ↦ inr (inl (ground arith))
      ] in
    elim (Bool-cases ((out_len == 0) || ltb max_out_len out_len)) [
      | inl e ↦ inl (wrong_length e, rw e refl)
      | inr e ↦ elim (Bool-cases (refuses_key key)) [
        | inl k ↦ inl (inr (inr (refused-BadKey key k)), rw (e, k) refl)
        | inr k ↦
            let (out, returned, n) =
              hash-Returns (input ∷ []) out_len key (ground arith) (key_fits key k) in
            inr (
              ground arith,
              ground arith,
              taken-GoodKey key k,
              (out, rw (e, k) (rw returned refl), n),
            )
      ]
    ]

-- With a key that is not refused, the length is the one that was asked for.
keyed :
    (input key : List ℕ) (n : ℕ)
    → n ≤ 64
    → (if refuses_key (some key)
        then done none
        else (hash (input ∷ []) n (some key) >>= λ out. done (some out)))
      ≡ (if refuses_key (some key)
          then done none
          else (hash (input ∷ []) n (some key) >>= λ out.
              if length out == n then done out else panic)
            >>= λ out. done (some out))
keyed input key n small = elim (Bool-cases (refuses_key (some key))) [
  | inl e ↦ rw e refl
  | inr e ↦
      let (out, returned, size) =
        hash-Returns (input ∷ []) n (some key) small (key_fits (some key) e) in
      let same : (length out == n) ≡ true = ground (arith, size) in
      rw e (rw returned (rw same refl))
]

-- The four functions of a fixed length are `blake2b` of that length.
pub blake2b_512-blake2b :
    (input key : List ℕ)
    → (blake2b input 64 none ≡ (blake2b_512 input >>= λ out. done (some out)))
      × (blake2b input 32 none ≡ (blake2b_256 input >>= λ out. done (some out)))
      × (blake2b input 64 (some key) ≡ blake2b_mac_512 input key)
      × (blake2b input 32 (some key) ≡ blake2b_mac_256 input key)
unfolding blake2b blake2b_512 blake2b_256 blake2b_mac_512 blake2b_mac_256
blake2b_512-blake2b input key =
    let (out, e, n) = hash-Returns (input ∷ []) 64 none (omega arith) (omega arith) in
    let (out', e', n') = hash-Returns (input ∷ []) 32 none (omega arith) (omega arith) in
    (
      rw e (rw n refl),
      rw e' (rw n' refl),
      keyed input key 64 (omega arith),
      keyed input key 32 (omega arith),
    )

pub blake2b_512-Returns : (input : List ℕ) → Returns 64 (blake2b_512 input)
unfolding blake2b_512
blake2b_512-Returns input =
    let (out, e, n) = hash-Returns (input ∷ []) 64 none (omega arith) (omega arith) in
    (out, rw e (rw n refl), n)

chain-Returns :
    (n : ℕ) (a out : List ℕ)
    → length a ≡ 64
    → (r : List ℕ × List ℕ) × (chain n a out ≡ done r)
      × (length r.0 ≡ 64)
      × (length r.1 ≡ length out + 32 * n)
unfolding chain
chain-Returns zero a out h = ((a, out), refl, h, omega arith)
chain-Returns (suc n) a out h =
    let (a', returned, size) = hash-Returns (a ∷ []) 64 none (omega arith) (omega arith) in
    let (r, ends, left, right) = chain-Returns n a' (out ++ take 32 a') size in
    let part = length-take 32 a' (omega (arith, size)) in
    let joined = length-append out (take 32 a') in
    (r, rw returned ends, left, omega (arith, right, part, joined))

-- H' returns as many bytes as were asked for, and one byte when none were.
pub h_prime-Returns :
    (input : List ℕ) (tau : ℕ) → Returns (if tau == 0 then 1 else tau) (h_prime input tau)
unfolding h_prime
h_prime-Returns input tau =
    let inputs = le_bytes 4 (tau % 2 ^ 32) ∷ input ∷ [] in
    elim (Bool-cases (leb tau 64)) [
      | inl e ↦
          let (out, returned, n) =
            hash-Returns inputs (if tau == 0 then 1 else tau) none (ground arith) (omega arith) in
          (out, rw e returned, n)
      | inr e ↦
          let r = (tau + 31) / 32 - 2 in
          let some_bytes : (tau == 0) ≡ false = ground arith in
          let (a, first, size) = hash-Returns inputs 64 none (omega arith) (omega arith) in
          let (c, chained, left, right) = chain-Returns (r - 1) a (take 32 a) size in
          let (last, ends, n) =
            hash-Returns (c.0 ∷ []) (tau - 32 * r) none (ground arith) (omega arith) in
          let part = length-take 32 a (omega (arith, size)) in
          let joined = length-append c.1 last in
          let whole : length (c.1 ++ last) ≡ tau = ground (arith, right, part, joined, n) in
          (c.1 ++ last, rw e (rw first (rw chained (rw ends refl))), rw some_bytes whole)
    ]
