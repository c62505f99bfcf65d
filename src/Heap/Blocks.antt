-- ===== src/Heap/Blocks.antt =====
-- The free list of the heap as a list of blocks, and what it is for the memory to hold it.
use crap_os.Base.{
  true, refl, ap, ◌∙◌, inl, inr, Bool-cases, ◌&&◌, ◌||◌, Bool-cases, false, leb, ◌⊎◌, ℕ, ◌+◌, ◌≤◌,
  ◌<◌, ◌≡◌, Bool, List, [], ◌∷◌, ◌==◌, ltb, if◌then◌else◌, arith,
}
use crap_os.Heap.{size_of, next_of}

-- A block takes in the first one of a list when that one starts where it ends.
unfoldable pub join : ℕ → ℕ → List (ℕ × ℕ) → List (ℕ × ℕ)
join p n [] = (p, n) ∷ []
join p n ((b, k) ∷ bs) = if p + n == b then (p, n + k) ∷ bs else (p, n) ∷ (b, k) ∷ bs

-- The blocks with one more, at the place of its address.
unfoldable pub insert_block : ℕ → ℕ → List (ℕ × ℕ) → List (ℕ × ℕ)
insert_block p n [] = (p, n) ∷ []
insert_block p n ((a, m) ∷ bs) =
    let rest = insert_block p n bs in if ltb a p then join a m rest else join p n ((a, m) ∷ bs)

-- The words hold the list of the blocks from `head` on.
unfoldable pub Linked : (ℕ → ℕ) → ℕ → List (ℕ × ℕ) → Type 0
Linked words head [] = head ≡ 0
Linked words head ((a, m) ∷ bs) =
    (head ≡ a) × (0 < a) × (size_of words a ≡ m) × Linked words (next_of words a) bs

-- Blocks of 16 bytes at least, in order from an address on, that do not touch.
unfoldable pub Apart : ℕ → List (ℕ × ℕ) → Type 0
Apart lo [] = Unit
Apart lo ((a, m) ∷ bs) = (lo ≤ a) × (16 ≤ m) × Apart (a + m + 1) bs

-- A stretch of memory overlaps no block.
unfoldable pub Unused : ℕ → ℕ → List (ℕ × ℕ) → Type 0
Unused p n [] = Unit
Unused p n ((a, m) ∷ bs) = ((a + m ≤ p) ⊎ (p + n ≤ a)) × Unused p n bs

abbrev pub within : ℕ → ℕ → ℕ → Bool
within p n x = leb p x && ltb x (p + n)

-- An address is in one of the blocks.
unfoldable pub is_free : ℕ → List (ℕ × ℕ) → Bool
is_free x [] = false
is_free x ((a, m) ∷ bs) = within a m x || is_free x bs

pub Apart-from : (lo hi : ℕ) (bs : List (ℕ × ℕ)) → lo ≤ hi → Apart hi bs → Apart lo bs
unfolding Apart
Apart-from lo hi [] le h = tt
Apart-from lo hi (b ∷ bs) le (at, big, h) = (omega arith, big, h)

pub join-Apart :
    (lo p n : ℕ) (bs : List (ℕ × ℕ)) → lo ≤ p → 16 ≤ n → Apart (p + n) bs → Apart lo (join p n bs)
unfolding Apart join
join-Apart lo p n [] le big h = (le, big, tt)
join-Apart lo p n ((b, k) ∷ bs) le big (at, big', h) = elim (Bool-cases (p + n == b)) [
  | inl e ↦
      let same : p + n ≡ b = ground arith in
      let later : Apart (p + (n + k) + 1) bs =
        Apart-from (p + (n + k) + 1) (b + k + 1) bs (omega arith) h in
      rw e (le, omega arith, later)
  | inr e ↦ rw e (le, big, (ground arith, big', h))
]

-- The blocks stay in order, apart and large enough when a stretch that was not free goes in.
pub insert_block-Apart :
    (lo p n : ℕ) (bs : List (ℕ × ℕ))
    → Apart lo bs
    → lo ≤ p
    → 16 ≤ n
    → Unused p n bs
    → Apart lo (insert_block p n bs)
unfolding Apart insert_block Unused
insert_block-Apart lo p n [] h le big u = (le, big, tt)
insert_block-Apart lo p n ((a, m) ∷ bs) (at, big', h) le big (here, u) =
    elim (Bool-cases (ltb a p)) [
      | inl e ↦
          let past : a + m ≤ p = elim here [ inl k ↦ k | inr k ↦ ground arith ] in
          let rest =
            insert_block-Apart (a + m) p n bs (Apart-from (a + m) (a + m + 1) bs (omega arith) h)
              past big u in
          rw e (join-Apart lo a m (insert_block p n bs) at big' rest)
      | inr e ↦
          let past : p + n ≤ a = elim here [ inl k ↦ ground arith | inr k ↦ k ] in
          rw e (join-Apart lo p n ((a, m) ∷ bs) le big (past, big', h))
    ]

join-is_free :
    (x p n : ℕ) (bs : List (ℕ × ℕ)) → is_free x (join p n bs) ≡ (within p n x || is_free x bs)
unfolding is_free join
join-is_free x p n [] = refl
join-is_free x p n ((b, k) ∷ bs) = elim (Bool-cases (p + n == b)) [
  | inl e ↦ let same : p + n ≡ b = ground arith in rw e (ground arith)
  | inr e ↦ rw e refl
]

or_swap : (x y z : Bool) → (x || (y || z)) ≡ (y || (x || z))
or_swap true true z = refl
or_swap true false z = refl
or_swap false y z = refl

-- The free addresses are those from before and those of the stretch that goes in.
pub insert_block-is_free :
    (x p n : ℕ) (bs : List (ℕ × ℕ))
    → is_free x (insert_block p n bs) ≡ (within p n x || is_free x bs)
unfolding is_free insert_block
insert_block-is_free x p n [] = refl
insert_block-is_free x p n ((a, m) ∷ bs) = elim (Bool-cases (ltb a p)) [
  | inl e ↦ rw e (
      join-is_free x a m (insert_block p n bs)
      ∙ ap (λ b. within a m x || b) (insert_block-is_free x p n bs)
      ∙ or_swap (within a m x) (within p n x) (is_free x bs))
  | inr e ↦ rw e (join-is_free x p n ((a, m) ∷ bs))
]
