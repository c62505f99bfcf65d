-- ===== src/Paging/Walk.antt =====
-- The walk through the four tables, by recursion on the level.
use crap_os.Base.{
  ℕ, zero, suc, ◌+◌, ◌*◌, ◌/◌, ◌%◌, ◌^◌, ◌<◌, ◌≤◌, ◌≡◌, ◌≢◌, refl, ap, ◌∙◌, Bool, true, false,
  Option, none, some, List, ◌∷◌, ◌==◌, if◌then◌else◌, arith, bit_or, ◌>>=◌, Bool-cases, inl, inr,
  update,
}
use crap_os.Pages.{virt}
use crap_os.Paging.{absent, frame, slot, get_physical_addr, zero_words}

-- The entry of a page.
abbrev pub entry : ℕ → ℕ → ℕ
entry p i = slot (virt true p) i

abbrev pub index : ℕ → ℕ → ℕ
index k v = (v / 2 ^ (12 + 9 * k)) % 512

-- What stands for an address in the last table, from a page on with some levels below it.
unfoldable pub walk : ℕ → ℕ → ℕ → (ℕ → ℕ) → Option ℕ
walk zero p v mem = let e = mem (entry p (index 0 v)) in if absent e then none else some e
walk (suc k) p v mem =
    let e = mem (entry p (index (suc k) v)) in
    let rest = walk k (frame e) v mem in if absent e then none else rest

-- The address in the page that an entry of the last table stands for.
abbrev pub offset : ℕ → Option ℕ → Option ℕ
offset v o = o >>= λ pte. some (bit_or (frame pte) (v % 4096))

pub get_physical_addr-walk :
    (root v : ℕ) (mem : ℕ → ℕ)
    → get_physical_addr (virt true root) v mem ≡ offset v (walk 3 root v mem)
unfolding get_physical_addr walk
get_physical_addr-walk root v mem =
    let e3 = mem (entry root (index 3 v)) in
    let e2 = mem (entry (frame e3) (index 2 v)) in
    let e1 = mem (entry (frame e2) (index 1 v)) in
    let e0 = mem (entry (frame e1) (index 0 v)) in
    go (absent e3) (absent e2) (absent e1) (absent e0) e0
  where
    go :
        (a b c d : Bool) (e : ℕ)
        → (if a
            then none
            else if b
            then none
            else if c
            then none
            else if d
            then none
            else some (bit_or (frame e) (v % 4096)))
          ≡ ((if a
                then none
                else if b
                then none
                else if c
                then none
                else if d
                then none
                else some e)
              >>= λ pte. some (bit_or (frame pte) (v % 4096)))
    go true b c d e = refl
    go false true c d e = refl
    go false false true d e = refl
    go false false false true e = refl
    go false false false false e = refl

-- A page of the memory below `2 ^ 47`.
abbrev pub IsFrame : ℕ → Type 0
IsFrame p = (p % 4096 ≡ 0) × (p < 2 ^ 47)

pub entry-injective :
    (p q i j : ℕ)
    → IsFrame p
    → IsFrame q
    → i < 512
    → j < 512
    → entry p i ≡ entry q j
    → (p ≡ q) × (i ≡ j)
entry-injective p q i j (ap, bp) (aq, bq) hi hj e = (omega arith, omega arith)

pub index-lt : (k v : ℕ) → index k v < 512
index-lt k v = omega arith

-- The page that the walk comes to from the label of its start: the indices on the way.
abbrev pub path : ℕ → List ℕ → ℕ → List ℕ
path zero π v = π
path (suc k) π v = path k (index (suc k) v ∷ π) v

pub walk-step :
    (k p q v : ℕ) (mem : ℕ → ℕ)
    → absent (mem (entry p (index (suc k) v))) ≡ false
    → frame (mem (entry p (index (suc k) v))) ≡ q
    → walk (suc k) p v mem ≡ walk k q v mem
unfolding walk
walk-step k p q v mem here next = rw (here, next) refl

pub walk-absent :
    (k p v : ℕ) (mem : ℕ → ℕ) → absent (mem (entry p (index k v))) ≡ true → walk k p v mem ≡ none
unfolding walk
walk-absent zero p v mem h = rw h refl
walk-absent (suc k) p v mem h = rw h refl

-- The words that `zero_words` clears, and the others.
pub zero_words-miss :
    (rounds i address : ℕ) (mem : ℕ → ℕ) (b : ℕ)
    → ((j : ℕ) → i ≤ j → j < i + rounds → b ≢ slot address j)
    → zero_words rounds i address mem b ≡ mem b
unfolding zero_words
zero_words-miss zero i address mem b h = refl
zero_words-miss (suc rounds) i address mem b h =
    let ne = h i (omega arith) (omega arith) in
    zero_words-miss rounds (i + 1) address (update mem (slot address i) 0) b
      (λ j lo hi. h j (omega arith) (omega arith))
    ∙ ground (arith, ne)

pub zero_words-hit :
    (rounds i address : ℕ) (mem : ℕ → ℕ) (j : ℕ)
    → i ≤ j
    → j < i + rounds
    → zero_words rounds i address mem (slot address j) ≡ 0
unfolding zero_words
zero_words-hit zero i address mem j lo hi = absurd (omega arith)
zero_words-hit (suc rounds) i address mem j lo hi = elim (Bool-cases (i == j)) [
  | inl e ↦
      let same : i ≡ j = ground arith in
      zero_words-miss rounds (i + 1) address (update mem (slot address i) 0) (slot address j)
        (λ k lo' hi' e'. omega arith)
      ∙ ground (arith, same)
  | inr e ↦
      let ne : i ≢ j = λ e'. ground arith in
      zero_words-hit rounds (i + 1) address (update mem (slot address i) 0) j (omega arith)
        (omega arith)
]
