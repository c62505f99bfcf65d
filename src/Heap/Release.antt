-- ===== src/Heap/Release.antt =====
-- `deallocate` gives back what `allocate` took.
use crap_os.Base.{
  ℕ, suc, ◌+◌, ◌-◌, ◌≤◌, ◌<◌, ◌≡◌, refl, ap, ◌∙◌, sym, false, List, [], ◌∷◌, some, ◌==◌, ltb, leb,
  arith, inl, inr, Bool-cases, length, ◌⊎◌,
}
use crap_os.Heap.{Heap, Layout, allocate, allocation_sizes, deallocate, insert_free_block_sorted}
use crap_os.Heap.Allocate.{Linked-free, allocate-first_fit, offset-large}
use crap_os.Heap.Blocks.{insert_block, insert_block-is_free, is_free, join, within, Unused}
use crap_os.Heap.FirstFit.{
  Unused-part, IsTaken, cut_block, cut_block-is_free, cut_block-outside, first_fit,
  first_fit-IsTaken, remove_first,
}
use crap_os.Heap.Insert.{Holds, insert_free_block_sorted-inserts}
use crap_os.Tasks.Outcome.{Outcome, done}

join-length : (p n : ℕ) (bs : List (ℕ × ℕ)) → length (join p n bs) ≤ suc (length bs)
unfolding join
join-length p n [] = omega arith
join-length p n ((b, k) ∷ bs) = elim (Bool-cases (p + n == b)) [
  | inl e ↦ rw e (omega arith)
  | inr e ↦ rw e (omega arith)
]

pub insert_block-length :
    (p n : ℕ) (bs : List (ℕ × ℕ)) → length (insert_block p n bs) ≤ suc (length bs)
unfolding insert_block
insert_block-length p n [] = omega arith
insert_block-length p n ((a, m) ∷ bs) =
    let ih = insert_block-length p n bs in
    let one = join-length a m (insert_block p n bs) in
    let two = join-length p n ((a, m) ∷ bs) in
    elim (Bool-cases (ltb a p)) [
      | inl e ↦ rw e (omega (arith, ih, one))
      | inr e ↦ rw e (omega (arith, two))
    ]

cut_block-length :
    (t a m : ℕ) (bs : List (ℕ × ℕ)) → length (cut_block t a m bs) ≤ suc (length (remove_first t bs))
cut_block-length t a m bs =
    let put = insert_block-length (a + t) (m - t) (remove_first t bs) in
    elim (Bool-cases (leb 16 (m - t))) [ inl e ↦ rw e put | inr e ↦ rw e (omega arith) ]

done_eq : {A : Type 0} {a b : A} → ◌≡◌ {A = Outcome A} (done a) (done b) → a ≡ b
done_eq h = cc

join-Unused :
    (p n a m : ℕ) (bs : List (ℕ × ℕ))
    → 0 < n
    → (a + m ≤ p) ⊎ (p + n ≤ a)
    → Unused p n bs
    → Unused p n (join a m bs)
unfolding Unused join
join-Unused p n a m [] some_n out u = (out, tt)
join-Unused p n a m ((b, k) ∷ bs) some_n out (here, u) = elim (Bool-cases (a + m == b)) [
  | inl e ↦
      let both : (a + (m + k) ≤ p) ⊎ (p + n ≤ a) = elim out [
        | inl le ↦ elim here [ inl le' ↦ inl (ground arith) | inr le' ↦ inr (ground arith) ]
        | inr le ↦ inr le
      ] in
      rw e (both, u)
  | inr e ↦ rw e (out, (here, u))
]

insert_block-Unused :
    (p n q k : ℕ) (bs : List (ℕ × ℕ))
    → 0 < n
    → (q + k ≤ p) ⊎ (p + n ≤ q)
    → Unused p n bs
    → Unused p n (insert_block q k bs)
unfolding Unused insert_block
insert_block-Unused p n q k [] some_n out u = (out, tt)
insert_block-Unused p n q k ((a, m) ∷ bs) some_n out (here, u) = elim (Bool-cases (ltb a q)) [
  | inl e ↦ rw e (
      join-Unused p n a m (insert_block q k bs) some_n here
        (insert_block-Unused p n q k bs some_n out u))
  | inr e ↦ rw e (join-Unused p n q k ((a, m) ∷ bs) some_n out (here, u))
]

Unused-cut :
    (t a m : ℕ) (bs : List (ℕ × ℕ)) → 0 < t → IsTaken 1 t a m bs → Unused a t (cut_block t a m bs)
Unused-cut t a m bs some_t taken =
    let large = taken.large in
    let part =
      Unused-part a t a m (remove_first t bs) (omega arith) (omega (arith, large)) taken.unused in
    elim (Bool-cases (leb 16 (m - t))) [
      | inl e ↦ rw e (
          insert_block-Unused a t (a + t) (m - t) (remove_first t bs) some_t (inr (omega arith))
            part)
      | inr e ↦ rw e part
    ]

released_free :
    (t a m x : ℕ) (bs : List (ℕ × ℕ))
    → IsTaken 1 t a m bs
    → (16 ≤ m - t) ⊎ (t ≡ m)
    → is_free x (insert_block a t (cut_block t a m bs)) ≡ is_free x bs
released_free t a m x bs taken kept =
    let put = insert_block-is_free x a t (cut_block t a m bs) in
    let whole = taken.free x in
    let large = taken.large in
    elim (Bool-cases (within a t x)) [
      | inl e ↦ ground (arith, put, whole, large, e)
      | inr e ↦
          let same = cut_block-is_free 1 t a m x bs taken kept e in ground (arith, put, same, e)
    ]

-- What a heap has after a block comes back.
pub record IsReleased (bs : List (ℕ × ℕ)) (result : Outcome Heap) : Type 0 where
  pub heap : Heap
  pub blocks : List (ℕ × ℕ)
  pub returned : result ≡ done heap
  pub holds : Holds heap blocks
  pub free : (x : ℕ) → is_free x blocks ≡ is_free x bs

abbrev with_words : (ℕ → ℕ) → Heap → Heap
with_words words h = record h { words = words }

deallocate-reads :
    (h : Heap) (fuel ptr a t off : ℕ)
    → ptr ≡ a + off
    → h.words (a + off - 8) ≡ off
    → h.words a ≡ t
    → deallocate fuel ptr h ≡ insert_free_block_sorted fuel a t h
unfolding deallocate
deallocate-reads h fuel ptr a t off at back total =
    let block : a + off - off ≡ a = omega arith in rw at (rw back (rw block (rw total refl)))

-- A heap holds a list of free blocks, a first block fits, and of that block 16 bytes or more stay, or
-- none. After `allocate` has returned a pointer, only bytes of its data are written. Then `deallocate`
-- of the pointer returns a heap that holds a list again, with the same free addresses as before.
pub allocate-deallocate :
    (h h' : Heap) (layout : Layout) (rounds fuel pml4 a m ptr : ℕ) (bs : List (ℕ × ℕ))
    (words : ℕ → ℕ)
    → 0 < layout.align
    → Holds h bs
    → length bs < fuel
    → first_fit (allocation_sizes layout).0 bs ≡ some (a, m)
    → (16 ≤ m - (allocation_sizes layout).0) ⊎ ((allocation_sizes layout).0 ≡ m)
    → allocate (suc rounds) fuel pml4 layout h ≡ done (ptr, h')
    → ((x : ℕ) → within ptr layout.layout_size x ≡ false → words x ≡ h'.words x)
    → IsReleased bs (deallocate fuel ptr (record h' { words = words }))
allocate-deallocate h h' layout rounds fuel pml4 a m ptr bs words positive holds enough f kept
      called same =
    let (t, off) = allocation_sizes layout in
    let large = offset-large layout positive in
    let taken = first_fit-IsTaken 1 t a m bs holds.apart f in
    let g = allocate-first_fit h layout rounds fuel pml4 a m bs positive holds enough f in
    let result : ◌≡◌ {A = ℕ × Heap} (ptr, h') (a + off, g.heap) =
      done_eq (sym called ∙ g.returned) in
    let at : ptr ≡ a + off = ap (λ r. r.0) result in
    let after : h' ≡ g.heap = ap (λ r. r.1) result in
    let same' : (x : ℕ) → within (a + off) layout.layout_size x ≡ false → words x ≡ g.heap.words x =
      rw (sym at, sym after) same in
    let fewer = taken.fewer in
    let short = cut_block-length t a m bs in
    let h1 = record g.heap { words = words } in
    let back : words (a + off - 8) ≡ off = same' (a + off - 8) (ground (arith, large)) ∙ g.offset in
    let total : words a ≡ t = same' a (ground (arith, large)) ∙ g.header in
    let holds' : Holds h1 (cut_block t a m bs) = record {
      linked =
          Linked-free g.heap.words words g.heap.kernel_heap.free_list 1 (cut_block t a m bs)
            g.holds.apart
            (λ x free.
              (let out = (cut_block-outside 1 t a m x bs taken free).1 in
                same' x (ground (arith, out))))
            g.holds.linked;
      apart = g.holds.apart;
    } in
    let lo = taken.from in
    let put =
      insert_free_block_sorted-inserts h1 a t fuel (cut_block t a m bs) holds'
        (omega (arith, fewer, short)) (omega (arith, lo)) (omega (arith, large))
        (Unused-cut t a m bs (omega (arith, large)) taken) in
    let same_heap = ap (with_words words) after in
    record {
      heap = put.heap;
      blocks = insert_block a t (cut_block t a m bs);
      returned =
          ap (deallocate fuel ptr) same_heap
          ∙ deallocate-reads h1 fuel ptr a t off at back total
          ∙ put.returned;
      holds = put.holds;
      free = λ x. released_free t a m x bs taken kept;
    }
