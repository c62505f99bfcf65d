-- ===== src/Blake/Absorb.antt =====
-- `update` against the input taken in byte by byte, and a hash of several inputs against the hash of
-- their concatenation.
use crap_os.Base.{
  ◌⊎◌, ℕ, zero, suc, ◌+◌, ◌-◌, ◌≤◌, ◌<◌, ◌≡◌, refl, ap, ◌∙◌, sym, false, List, [], ◌∷◌, ◌++◌,
  length, Option, none, some, set, replicate, ◌==◌, leb, arith, inl, inr, Bool-cases, append-nil,
}
use crap_os.Blake.{
  fold_back, initial, key_length, parameter_word, Blake2bState, block_size, compress,
  copy_from_slice, drop, fill, finalize, hash, increment_counter, make_room, new_state, take,
  update_each, update_loop, update_state,
}
use crap_os.Tasks.Outcome.{done, panic, ◌>>=◌}

-- One byte, and all bytes of an input.
abbrev pub absorb : ℕ → Blake2bState → Blake2bState
absorb x s = fill (x ∷ []) (make_room s)

abbrev pub absorb_all : List ℕ → Blake2bState → Blake2bState
absorb_all [] s = s
absorb_all (x ∷ xs) s = absorb_all xs (absorb x s)

make_room-small : (s : Blake2bState) → s.buf_len ≤ block_size → (make_room s).buf_len < block_size
unfolding make_room
make_room-small s h = elim (Bool-cases (s.buf_len == block_size)) [
  | inl e ↦ rw e (omega arith)
  | inr e ↦ rw e (ground arith)
]

make_room-same : (s : Blake2bState) → s.buf_len < block_size → make_room s ≡ s
unfolding make_room
make_room-same s h = let e : (s.buf_len == block_size) ≡ false = ground arith in rw e refl

-- The state with another buffer and a length.
abbrev with_len : List ℕ → Blake2bState → ℕ → Blake2bState
with_len buf s n = record s { buf = buf; buf_len = n }

fill-next : (x : ℕ) (xs : List ℕ) (s : Blake2bState) → fill xs (fill (x ∷ []) s) ≡ fill (x ∷ xs) s
unfolding copy_from_slice
fill-next x xs s =
    let n : s.buf_len + 1 + length xs ≡ s.buf_len + suc (length xs) = omega arith in
    ap (with_len (copy_from_slice xs (s.buf_len + 1) (set s.buf s.buf_len x)) s) n

-- A chunk that fits goes in as its bytes do.
fill-absorb_all :
    (xs : List ℕ) (s : Blake2bState)
    → s.buf_len + length xs ≤ block_size
    → absorb_all xs s ≡ fill xs s
unfolding copy_from_slice
fill-absorb_all [] s h = let n : s.buf_len ≡ s.buf_len + 0 = omega arith in ap (with_len s.buf s) n
fill-absorb_all (x ∷ xs) s h =
    ap (λ r. absorb_all xs (fill (x ∷ []) r)) (make_room-same s (omega arith))
    ∙ fill-absorb_all xs (fill (x ∷ []) s) (omega arith)
    ∙ fill-next x xs s

absorb_all-take-drop :
    (n : ℕ) (xs : List ℕ) (s : Blake2bState)
    → absorb_all (drop n xs) (absorb_all (take n xs) s) ≡ absorb_all xs s
absorb_all-take-drop zero xs s = refl
absorb_all-take-drop (suc n) [] s = refl
absorb_all-take-drop (suc n) (x ∷ xs) s = absorb_all-take-drop n xs (absorb x s)

length-take : (n : ℕ) (xs : List ℕ) → length (take n xs) ≤ n
length-take zero xs = omega arith
length-take (suc n) [] = omega arith
length-take (suc n) (x ∷ xs) = omega (arith, length-take n xs)

length-drop : (n : ℕ) (xs : List ℕ) → length (drop n xs) ≤ length xs - n
length-drop zero xs = omega arith
length-drop (suc n) [] = omega arith
length-drop (suc n) (x ∷ xs) = omega (arith, length-drop n xs)

update_loop-absorb_all :
    (fuel : ℕ) (input : List ℕ) (s : Blake2bState)
    → length input < fuel
    → s.buf_len ≤ block_size
    → update_loop fuel input s ≡ done (absorb_all input s)
unfolding update_loop
update_loop-absorb_all zero input s enough h = absurd (omega arith)
update_loop-absorb_all (suc fuel) [] s enough h = refl
update_loop-absorb_all (suc fuel) (x ∷ xs) s enough h =
    let room = make_room s in
    let input = x ∷ xs in
    let small = make_room-small s h in
    let space = block_size - room.buf_len in
    let part = length-take space input in
    let fewer = length-drop space input in
    update_loop-absorb_all fuel (drop space input) (fill (take space input) room)
      (omega (arith, fewer, small)) (omega (arith, part, small))
    ∙ ap (λ r. done (absorb_all (drop space input) r))
        (sym (fill-absorb_all (take space input) room (omega (arith, part, small))))
    ∙ ap done (absorb_all-take-drop space input room)
    ∙ ap (λ r. done (absorb_all xs (fill (x ∷ []) r))) (make_room-same room small)

absorb_all-append :
    (xs ys : List ℕ) (s : Blake2bState) → absorb_all (xs ++ ys) s ≡ absorb_all ys (absorb_all xs s)
absorb_all-append [] ys s = refl
absorb_all-append (x ∷ xs) ys s = absorb_all-append xs ys (absorb x s)

-- A state of a hash with an output of some length.
pub record IsState (out_len : ℕ) (s : Blake2bState) : Type 0 where
  pub fits : s.buf_len ≤ block_size
  pub words : length s.h ≡ 8
  pub out : s.out_len ≡ out_len

pub length-fold_back : (i : ℕ) (v xs : List ℕ) → length (fold_back i v xs) ≡ length xs
unfolding fold_back
length-fold_back i v [] = refl
length-fold_back i v (x ∷ xs) = ap suc (length-fold_back (i + 1) v xs)

make_room-words : (s : Blake2bState) → length (make_room s).h ≡ length s.h
unfolding make_room compress increment_counter
make_room-words s = elim (Bool-cases (s.buf_len == block_size)) [
  | inl e ↦ rw e (length-fold_back 0 _ s.h)
  | inr e ↦ rw e refl
]

make_room-out : (s : Blake2bState) → (make_room s).out_len ≡ s.out_len
unfolding make_room compress increment_counter
make_room-out s = elim (Bool-cases (s.buf_len == block_size)) [
  | inl e ↦ rw e refl
  | inr e ↦ rw e refl
]

pub absorb_all-IsState :
    (out_len : ℕ) (xs : List ℕ) (s : Blake2bState)
    → IsState out_len s
    → IsState out_len (absorb_all xs s)
absorb_all-IsState out_len [] s h = h
absorb_all-IsState out_len (x ∷ xs) s h =
    let small = make_room-small s h.fits in
    absorb_all-IsState out_len xs (absorb x s) (record {
      fits = omega (arith, small);
      words = make_room-words s ∙ h.words;
      out = make_room-out s ∙ h.out;
    })

pub update_state-absorb_all :
    (input : List ℕ) (s : Blake2bState)
    → s.buf_len ≤ block_size
    → update_state input s ≡ done (absorb_all input s)
update_state-absorb_all input s h =
    update_loop-absorb_all (length input + 1) input s (omega arith) h

abbrev pub concat : List (List ℕ) → List ℕ
concat [] = []
concat (xs ∷ xss) = xs ++ concat xss

pub update_each-absorb_all :
    (out_len : ℕ) (xss : List (List ℕ)) (s : Blake2bState)
    → IsState out_len s
    → update_each xss s ≡ done (absorb_all (concat xss) s)
unfolding update_each
update_each-absorb_all out_len [] s h = refl
update_each-absorb_all out_len (xs ∷ xss) s h =
    ap (λ o. o >>= update_each xss) (update_state-absorb_all xs s h.fits)
    ∙ update_each-absorb_all out_len xss (absorb_all xs s) (absorb_all-IsState out_len xs s h)
    ∙ ap done (sym (absorb_all-append xs (concat xss) s))

initial-IsState : (out_len p0 : ℕ) → IsState out_len (initial out_len p0)
initial-IsState out_len p0 = record { fits = omega arith; words = refl; out = refl }

-- There is no new state when the key is longer than a block.
pub new_state-cases :
    (out_len : ℕ) (key : Option (List ℕ))
    → ((block_size < key_length key) × (new_state out_len key ≡ panic))
      ⊎ ((s : Blake2bState) × (new_state out_len key ≡ done s) × IsState out_len s)
unfolding new_state
new_state-cases out_len none = inr (
  initial out_len (parameter_word out_len 0),
  refl,
  initial-IsState out_len (parameter_word out_len 0),
)
new_state-cases out_len (some k) = elim (Bool-cases (leb (length k) block_size)) [
  | inl e ↦
      let start = initial out_len (parameter_word out_len (length k)) in
      let block = copy_from_slice k 0 (replicate block_size 0) in
      let first = initial-IsState out_len (parameter_word out_len (length k)) in
      inr (
        absorb_all block start,
        rw e (update_state-absorb_all block start first.fits),
        absorb_all-IsState out_len block start first,
      )
  | inr e ↦ inl (ground arith, rw e refl)
]

-- A hash of several inputs, one call of `update` for each, is the hash of their concatenation.
pub hash-concat :
    (inputs : List (List ℕ)) (out_len : ℕ) (key : Option (List ℕ))
    → hash inputs out_len key ≡ hash (concat inputs ∷ []) out_len key
hash-concat inputs out_len key = elim (new_state-cases out_len key) [
  | inl (long, e) ↦ rw e refl
  | inr (s, e, h) ↦ rw e (
      rw
        (
          update_each-absorb_all out_len inputs s h,
          update_each-absorb_all out_len (concat inputs ∷ []) s h,
        )
        (ap (λ xs. finalize (absorb_all xs s)) (sym (append-nil (concat inputs)))))
]
