-- ===== src/Heap/Search.antt =====
-- The search of `allocate` for the first block that fits, and the list without that block.
use crap_os.Base.{
  ℕ, zero, suc, ◌+◌, ◌≤◌, ◌<◌, ◌≡◌, refl, true, false, List, [], ◌∷◌, Option, some, ◌==◌, leb,
  arith, inl, inr, Bool-cases, length,
}
use crap_os.Heap.{Heap, find_block, next_of, set_next, size_of, unlink}
use crap_os.Heap.Blocks.{Apart, Linked, is_free, within}
use crap_os.Heap.FirstFit.{
  first_fit-further, first_fit-here, none-some, first_fit, first_fit-IsTaken, remove_first,
}
use crap_os.Heap.Insert.{Holds}
use crap_os.Heap.Link.{or_false, Linked-other}
use crap_os.Tasks.Outcome.{Outcome, done}

-- The search from a block on that is too small, and the list without the block that it finds.
record IsFound (words : ℕ → ℕ) (prev a m : ℕ) (bs rest : List (ℕ × ℕ))
    (search : Outcome (Option (ℕ × ℕ))) : Type 0 where
  before : ℕ
  found : search ≡ done (some (before, a))
  not_first : prev ≤ before
  size : size_of words a ≡ m
  linked : Linked (set_next words before (next_of words a)) prev rest
  safe : (x : ℕ) → is_free x bs ≡ false → set_next words before (next_of words a) x ≡ words x

find_after :
    (words : ℕ → ℕ) (t fuel prev k next a m : ℕ) (bs : List (ℕ × ℕ))
    → length bs < fuel
    → 0 < prev
    → 16 ≤ k
    → size_of words prev ≡ k
    → next_of words prev ≡ next
    → Linked words next bs
    → Apart (prev + k + 1) bs
    → first_fit t bs ≡ some (a, m)
    → IsFound words prev a m
        ((prev, k) ∷ bs)
        ((prev, k) ∷ remove_first t bs)
        (find_block fuel words t prev next)
unfolding find_block first_fit remove_first Linked Apart is_free
find_after words t zero prev k next a m bs enough some_prev big size link h apart f =
    absurd (omega arith)
find_after words t (suc fuel) prev k next a m [] enough some_prev big size link h apart f =
    absurd (none-some f)
find_after words t (suc fuel) prev k next a m ((b, l) ∷ bs) enough some_prev big size link
      (here, some_b, size', h) (at, big', apart) f =
    elim (Bool-cases (leb t l)) [
      | inl e ↦
          let (block, size'') = first_fit-here t b l a m bs e f in
          let words' = set_next words prev (next_of words b) in
          let kept : size_of words' prev ≡ k = ground arith in
          let kept' : next_of words' prev ≡ next_of words b = ground arith in
          let some_next : (next == 0) ≡ false = ground arith in
          let large : leb t (words next) ≡ true = rw here (rw size' e) in
          let rest : Linked words' (next_of words b) bs =
            Linked-other words words' (next_of words b) (b + l + 1) bs apart (λ x le. ground arith)
              h in
          let one : IsFound words prev b l ((prev, k) ∷ (b, l) ∷ bs)
              ((prev, k) ∷ remove_first t ((b, l) ∷ bs)) (find_block (suc fuel) words t prev next) =
            record {
              before = prev;
              found = rw (some_next, large) (rw here refl);
              not_first = omega arith;
              size = size';
              linked = rw e (refl, some_prev, kept, rw kept' rest);
              safe = λ x out.
                  ground (arith, (or_false (within prev k x) (is_free x ((b, l) ∷ bs)) out).0);
            } in
          rw (block, size'') one
      | inr e ↦
          let further = first_fit-further t b l a m bs e f in
          let ih =
            find_after words t fuel b l (next_of words b) a m bs (omega arith) some_b big' size'
              refl h apart further in
          let far = ih.not_first in
          let words' = set_next words ih.before (next_of words a) in
          let kept : size_of words' prev ≡ k = ground (arith, far) in
          let kept' : next_of words' prev ≡ b = ground (arith, far) in
          let some_next : (next == 0) ≡ false = ground arith in
          let small : leb t (words next) ≡ false = ground arith in
          record {
            before = ih.before;
            found = rw (some_next, small) (rw here ih.found);
            not_first = omega (arith, far);
            size = ih.size;
            linked = rw e (refl, some_prev, kept, rw kept' ih.linked);
            safe = λ x out. ih.safe x (or_false (within prev k x) (is_free x ((b, l) ∷ bs)) out).1;
          }
    ]

-- The heap without the first block that fits.
pub record IsCut (h : Heap) (t fuel a m : ℕ) (bs : List (ℕ × ℕ)) : Type 0 where
  pub before : ℕ
  pub cut : Heap
  pub found : find_block fuel h.words t 0 h.kernel_heap.free_list ≡ done (some (before, a))
  pub unlinked : unlink before a h ≡ cut
  pub positive : 0 < a
  pub size : size_of h.words a ≡ m
  pub holds : Holds cut (remove_first t bs)
  pub safe : (x : ℕ) → is_free x bs ≡ false → cut.words x ≡ h.words x
  pub committed : cut.kernel_heap.committed ≡ h.kernel_heap.committed
  pub pages : cut.pages ≡ h.pages

pub find_first :
    (h : Heap) (t fuel a m : ℕ) (bs : List (ℕ × ℕ))
    → Holds h bs
    → length bs < fuel
    → first_fit t bs ≡ some (a, m)
    → IsCut h t fuel a m bs
unfolding find_block remove_first first_fit Linked Apart
find_first h t zero a m bs holds enough f = absurd (omega arith)
find_first h t (suc fuel) a m [] holds enough f = absurd (none-some f)
find_first h t (suc fuel) a m ((b, l) ∷ bs) holds enough f =
    let head = h.kernel_heap.free_list in
    let (here, some_b, size, rest) = holds.linked in
    let (from, big, apart) = holds.apart in
    let some_head : (head == 0) ≡ false = ground (arith, here, some_b) in
    let taken = first_fit-IsTaken 1 t a m ((b, l) ∷ bs) holds.apart f in
    let lo = taken.from in
    elim (Bool-cases (leb t l)) [
      | inl e ↦
          let (block, size') = first_fit-here t b l a m bs e f in
          let large : leb t (h.words head) ≡ true = rw here (rw size e) in
          let tail : Linked h.words (next_of h.words a) bs = rw block rest in
          record {
            before = 0;
            cut = record h { kernel_heap = record h.kernel_heap { free_list = next_of h.words a } };
            found = rw (some_head, large) (rw (here, block) refl);
            unlinked = refl;
            positive = omega (arith, lo);
            size = rw (block, size') size;
            holds = record { linked = rw e tail; apart = taken.apart };
            safe = λ x out. refl;
            committed = refl;
            pages = refl;
          }
      | inr e ↦
          let further = first_fit-further t b l a m bs e f in
          let found =
            find_after h.words t fuel b l (next_of h.words b) a m bs (omega arith) some_b big size
              refl rest apart further in
          let far = found.not_first in
          let middle : (found.before == 0) ≡ false = ground (arith, far) in
          let small : leb t (h.words head) ≡ false = rw here (rw size e) in
          record {
            before = found.before;
            cut = record h { words = set_next h.words found.before (next_of h.words a) };
            found = rw (some_head, small) (rw here found.found);
            unlinked = rw middle refl;
            positive = omega (arith, lo);
            size = found.size;
            holds = record { linked = rw (here, e) found.linked; apart = taken.apart };
            safe = found.safe;
            committed = refl;
            pages = refl;
          }
    ]
