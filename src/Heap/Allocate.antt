-- ===== src/Heap/Allocate.antt =====
-- `allocate` takes the first block that is large enough, and `deallocate` gives it back.
use native.Mathlib.Nat.{mod-add-div, mod-lt, mul-mod_right}
use crap_os.Base.{
  ap, ◌/◌, ◌*◌, ℕ, suc, ◌+◌, ◌-◌, ◌%◌, ◌≤◌, ◌<◌, ◌≡◌, refl, ◌∙◌, true, false, List, [], ◌∷◌, some,
  leb, if◌then◌else◌, arith, inl, inr, Bool-cases, length,
}
use crap_os.Heap.{
  Heap, Layout, allocate, allocation_sizes, header_size, insert_free_block_sorted, next_of,
  take_block, write_header,
}
use crap_os.Heap.Blocks.{Apart, Linked, is_free, within}
use crap_os.Heap.FirstFit.{
  cut_block-outside, IsTaken, cut_block, first_fit, first_fit-IsTaken, remove_first, Unused-part,
}
use crap_os.Heap.Insert.{Holds, insert_free_block_sorted-inserts}
use crap_os.Tasks.Outcome.{Outcome, done}
use crap_os.Heap.Search.{IsCut, find_first}

-- The heap after the rest of the block is back in the list.
record IsShrunk (h cut : Heap) (t a m : ℕ) (bs : List (ℕ × ℕ)) (result : Outcome Heap)
    : Type 0 where
  shrunk : Heap
  returned : result ≡ done shrunk
  holds : Holds shrunk (cut_block t a m bs)
  safe : (x : ℕ) → is_free x bs ≡ false → shrunk.words x ≡ h.words x
  committed : shrunk.kernel_heap.committed ≡ h.kernel_heap.committed
  pages : shrunk.pages ≡ h.pages

shrink :
    (h : Heap) (t fuel a m : ℕ) (bs : List (ℕ × ℕ)) (c : IsCut h t fuel a m bs)
    → 16 ≤ t
    → length bs < fuel
    → IsTaken 1 t a m bs
    → IsShrunk h c.cut t a m bs (
        if leb header_size (m - t)
        then insert_free_block_sorted fuel (a + t) (m - t) c.cut
        else done c.cut)
shrink h t fuel a m bs c big enough taken = elim (Bool-cases (leb header_size (m - t))) [
  | inl e ↦
      let large = taken.large in
      let fewer = taken.fewer in
      let unused =
        Unused-part (a + t) (m - t) a m (remove_first t bs) (omega arith) (omega (arith, large))
          taken.unused in
      let put =
        insert_free_block_sorted-inserts c.cut (a + t) (m - t) fuel (remove_first t bs) c.holds
          (omega (arith, fewer)) (omega arith) (ground arith) unused in
      record {
        shrunk = put.heap;
        returned = rw e put.returned;
        holds = rw e put.holds;
        safe = λ x out.
            (let whole = taken.free x in
              put.safe x (ground (arith, whole, out)) (ground (arith, whole, out, large))
              ∙ c.safe x out);
        committed = put.committed ∙ c.committed;
        pages = put.pages ∙ c.pages;
      }
  | inr e ↦ record {
    shrunk = c.cut;
    returned = rw e refl;
    holds = rw e c.holds;
    safe = c.safe;
    committed = c.committed;
    pages = c.pages;
  }
]

-- The list is as before when no word of a free block is written.
pub Linked-free :
    (words words' : ℕ → ℕ) (head lo : ℕ) (bs : List (ℕ × ℕ))
    → Apart lo bs
    → ((x : ℕ) → is_free x bs ≡ true → words' x ≡ words x)
    → Linked words head bs
    → Linked words' head bs
unfolding Linked Apart is_free
Linked-free words words' head lo [] apart same h = h
Linked-free words words' head lo ((b, k) ∷ bs) (at, big, apart) same (here, positive, size, h) =
    let rest : Linked words' (next_of words b) bs =
      Linked-free words words' (next_of words b) (b + k + 1) bs apart
        (λ x free. same x (ground (arith, free))) h in
    let first : words' b ≡ words b = same b (ground arith) in
    let second : words' (b + 8) ≡ words (b + 8) = same (b + 8) (ground arith) in
    (here, positive, first ∙ size, rw second rest)

-- The total size and the offset of the data for a layout: the data stands at the first multiple of the
-- alignment behind the header.
pub record IsPlaced (layout : Layout) (t off : ℕ) : Type 0 where
  pub total : t ≡ off + layout.layout_size
  pub aligned : off % layout.align ≡ 0
  pub behind : 16 ≤ off
  pub first : off < 16 + layout.align

-- A heap after an allocation from the first block that fits.
pub record IsAllocated (h : Heap) (layout : Layout) (a m : ℕ) (bs : List (ℕ × ℕ))
    (result : Outcome (ℕ × Heap)) : Type 0 where
  pub heap : Heap
  pub returned : result ≡ done (a + (allocation_sizes layout).1, heap)
  pub holds : Holds heap (cut_block (allocation_sizes layout).0 a m bs)
  pub placed : IsPlaced layout (allocation_sizes layout).0 (allocation_sizes layout).1
  pub header : heap.words a ≡ (allocation_sizes layout).0
  pub header_offset : heap.words (a + 8) ≡ (allocation_sizes layout).1
  pub offset : heap.words (a + (allocation_sizes layout).1 - 8) ≡ (allocation_sizes layout).1
  pub safe : (x : ℕ) → is_free x bs ≡ false → heap.words x ≡ h.words x
  pub committed : heap.kernel_heap.committed ≡ h.kernel_heap.committed
  pub pages : heap.pages ≡ h.pages

rounded-multiple : (n k : ℕ) → (n - n % k) % k ≡ 0
rounded-multiple n k =
    let parts = mod-add-div n k in
    let e : n - n % k ≡ k * (n / k) = omega (arith, parts) in
    ap (λ m. m % k) e ∙ mul-mod_right k (n / k)

-- The data stands after the header.
pub offset-large : (layout : Layout) → 0 < layout.align → 16 ≤ (allocation_sizes layout).1
offset-large layout positive =
    let small : (header_size + layout.align - 1) % layout.align < layout.align =
      mod-lt (header_size + layout.align - 1) positive in
    omega (arith, small)

allocation_sizes-IsPlaced :
    (layout : Layout)
    → 0 < layout.align
    → IsPlaced layout (allocation_sizes layout).0 (allocation_sizes layout).1
allocation_sizes-IsPlaced layout positive =
    let small : (header_size + layout.align - 1) % layout.align < layout.align =
      mod-lt (header_size + layout.align - 1) positive in
    record {
      total = refl;
      aligned = rounded-multiple (header_size + layout.align - 1) layout.align;
      behind = omega (arith, small);
      first = omega (arith, small);
    }

module _ (words : ℕ → ℕ) (a t off x : ℕ) (large : 16 ≤ off) (fits : off ≤ t) where
  write_header-elsewhere : within a t x ≡ false → write_header a t off words x ≡ words x
  write_header-elsewhere out = ground (arith, out)

  write_header-header : write_header a t off words a ≡ t
  write_header-header = ground arith

-- The alignment is positive, and the heap holds a list of free blocks, fewer than the fuel, of which a first
-- one fits. Then `allocate` returns, in its first round, the pointer to the data in this block: its offset in the
-- block is the first multiple of the alignment behind the header of 16 bytes. The total size, which is
-- this offset and the size asked for, and the offset are written in the two words of the header, the offset
-- also in the word before the data. The heap holds the list with what is left of the block, and no
-- word outside the free blocks, the committed size and the pages change.
pub allocate-first_fit :
    (h : Heap) (layout : Layout) (rounds fuel pml4 a m : ℕ) (bs : List (ℕ × ℕ))
    → 0 < layout.align
    → Holds h bs
    → length bs < fuel
    → first_fit (allocation_sizes layout).0 bs ≡ some (a, m)
    → IsAllocated h layout a m bs (allocate (suc rounds) fuel pml4 layout h)
unfolding allocate take_block
allocate-first_fit h layout rounds fuel pml4 a m bs positive holds enough f =
    let (t, off) = allocation_sizes layout in
    let large = offset-large layout positive in
    let taken = first_fit-IsTaken 1 t a m bs holds.apart f in
    let c = find_first h t fuel a m bs holds enough f in
    let s = shrink h t fuel a m bs c (omega (arith, large)) enough taken in
    let words = write_header a t off s.shrunk.words in
    let outside = cut_block-outside 1 t a m in
    record {
      heap = record s.shrunk { words = words };
      returned = rw c.found (rw c.unlinked (rw c.size (rw s.returned refl)));
      holds = record {
        linked =
            Linked-free s.shrunk.words words s.shrunk.kernel_heap.free_list 1 (cut_block t a m bs)
              s.holds.apart
              (λ x free.
                write_header-elsewhere s.shrunk.words a t off x large (omega arith)
                  (outside x bs taken free).1)
              s.holds.linked;
        apart = s.holds.apart;
      };
      placed = allocation_sizes-IsPlaced layout positive;
      header = write_header-header s.shrunk.words a t off a large (omega arith);
      header_offset = ground (arith, large);
      offset = ground arith;
      safe = λ x out.
          (let whole = taken.free x in
            let fits = taken.large in
            write_header-elsewhere s.shrunk.words a t off x large (omega arith)
              (ground (arith, whole, out, fits))
            ∙ s.safe x out);
      committed = s.committed;
      pages = s.pages;
    }
