-- ===== src/Heap/Grow.antt =====
-- `grow`, and `allocate` when no block is large enough: the second round of the loop finds one.
use crap_os.Base.{
  ◌%◌, ℕ, zero, suc, ◌+◌, ◌*◌, ◌≤◌, ◌<◌, ◌≡◌, refl, ap, ◌∙◌, sym, true, false, List, [], ◌∷◌,
  Option, none, some, ◌==◌, ltb, leb, arith, inl, inr, Bool-cases, length, ◌⊎◌,
}
use crap_os.Heap.{
  Heap, Layout, allocate, allocation_sizes, find_block, grow, map_heap_pages, next_of, pages_needed,
}
use crap_os.Heap.Allocate.{IsAllocated, allocate-first_fit}
use crap_os.Heap.Blocks.{Linked, Unused, insert_block, is_free, join, within}
use crap_os.Heap.FirstFit.{none-some, first_fit}
use crap_os.Heap.Insert.{Holds, insert_free_block_sorted-inserts}
use crap_os.Heap.Release.{insert_block-length}
use crap_os.Heap.Commit.{IsCommitted, is_mapped, map_heap_pages-maps}
use crap_os.Paging.Tables.{IsSound}
use crap_os.Pages.{virt, page_size}
use crap_os.Paging.{PageState}
use crap_os.Tasks.Outcome.{Outcome, done}

-- All blocks end below an address.
unfoldable pub Below : ℕ → List (ℕ × ℕ) → Type 0
Below hi [] = Unit
Below hi ((a, m) ∷ bs) = (a + m ≤ hi) × Below hi bs

Below-Unused : (hi n : ℕ) (bs : List (ℕ × ℕ)) → Below hi bs → Unused hi n bs
unfolding Below Unused
Below-Unused hi n [] h = tt
Below-Unused hi n ((a, m) ∷ bs) (le, h) = (inl le, Below-Unused hi n bs h)

-- A list in which a block of the size is found.
abbrev Finds : ℕ → List (ℕ × ℕ) → Type 0
Finds t bs = (b : ℕ × ℕ) × (first_fit t bs ≡ some b)

Finds-step : (t p n : ℕ) (bs : List (ℕ × ℕ)) → (t ≤ n) ⊎ Finds t bs → Finds t ((p, n) ∷ bs)
unfolding first_fit
Finds-step t p n bs h = elim (Bool-cases (leb t n)) [
  | inl e ↦ ((p, n), rw e refl)
  | inr e ↦ elim h [ inl le ↦ absurd (ground arith) | inr (b, f) ↦ (b, rw e f) ]
]

Finds-tail : (t p n : ℕ) (bs : List (ℕ × ℕ)) → Finds t ((p, n) ∷ bs) → (t ≤ n) ⊎ Finds t bs
unfolding first_fit
Finds-tail t p n bs (b, f) = elim (Bool-cases (leb t n)) [
  | inl e ↦ inl (ground arith)
  | inr e ↦
      let further : first_fit t ((p, n) ∷ bs) ≡ first_fit t bs = rw e refl in
      inr (b, sym further ∙ f)
]

join-Finds : (t p n : ℕ) (bs : List (ℕ × ℕ)) → (t ≤ n) ⊎ Finds t bs → Finds t (join p n bs)
unfolding join
join-Finds t p n [] h = Finds-step t p n [] h
join-Finds t p n ((a, m) ∷ bs) h = elim (Bool-cases (p + n == a)) [
  | inl e ↦
      let larger : (t ≤ n + m) ⊎ Finds t bs = elim h [
        | inl le ↦ inl (omega arith)
        | inr found ↦ elim (Finds-tail t a m bs found) [
          | inl le ↦ inl (omega arith)
          | inr rest ↦ inr rest
        ]
      ] in
      rw e (Finds-step t p (n + m) bs larger)
  | inr e ↦ rw e (Finds-step t p n ((a, m) ∷ bs) h)
]

insert_block-Finds : (t p n : ℕ) (bs : List (ℕ × ℕ)) → t ≤ n → Finds t (insert_block p n bs)
unfolding insert_block first_fit
insert_block-Finds t p n [] le = let e : leb t n ≡ true = ground arith in ((p, n), rw e refl)
insert_block-Finds t p n ((a, m) ∷ bs) le = elim (Bool-cases (ltb a p)) [
  | inl e ↦ rw e (join-Finds t a m (insert_block p n bs) (inr (insert_block-Finds t p n bs le)))
  | inr e ↦ rw e (join-Finds t p n ((a, m) ∷ bs) (inl le))
]

pub record IsGrown (h : Heap) (n : ℕ) (pages : PageState) (bs : List (ℕ × ℕ))
    (result : Outcome Heap) : Type 0 where
  pub heap : Heap
  pub returned : result ≡ done heap
  pub holds :
      Holds heap (insert_block (h.kernel_heap.base + h.kernel_heap.committed) (n * page_size) bs)
  pub safe :
      (x : ℕ)
      → is_free x bs ≡ false
      → within (h.kernel_heap.base + h.kernel_heap.committed) (n * page_size) x ≡ false
      → heap.words x ≡ h.words x
  pub committed : heap.kernel_heap.committed ≡ h.kernel_heap.committed + n * page_size
  pub mapped_pages : heap.pages ≡ pages

pub grow-grows :
    (h : Heap) (n fuel pml4 : ℕ) (bs : List (ℕ × ℕ)) (pages : PageState)
    → Holds h bs
    → Below (h.kernel_heap.base + h.kernel_heap.committed) bs
    → 0 < h.kernel_heap.base + h.kernel_heap.committed
    → 0 < n
    → h.kernel_heap.committed + n * page_size ≤ h.kernel_heap.max_size
    → length bs < fuel
    → map_heap_pages n 0 pml4 (h.kernel_heap.base + h.kernel_heap.committed) h.pages ≡ done pages
    → IsGrown h n pages bs (grow fuel pml4 n h)
unfolding grow
grow-grows h n fuel pml4 bs pages holds below some_base some_n room enough mapped =
    let region = h.kernel_heap.base + h.kernel_heap.committed in
    let fits : leb (h.kernel_heap.committed + n * page_size) h.kernel_heap.max_size ≡ true =
      ground arith in
    let larger = record h.kernel_heap { committed = h.kernel_heap.committed + n * page_size } in
    let h1 = record h { pages = pages; kernel_heap = larger } in
    let holds1 : Holds h1 bs = record { linked = holds.linked; apart = holds.apart } in
    let put =
      insert_free_block_sorted-inserts h1 region (n * page_size) fuel bs holds1 enough (omega arith)
        (omega arith) (Below-Unused region (n * page_size) bs below) in
    record {
      heap = put.heap;
      returned = rw (fits, mapped) put.returned;
      holds = put.holds;
      safe = put.safe;
      committed = put.committed;
      mapped_pages = put.pages;
    }

-- The search passes all blocks when none is large enough.
find_block-none :
    (words : ℕ → ℕ) (t fuel previous current : ℕ) (bs : List (ℕ × ℕ))
    → Linked words current bs
    → length bs < fuel
    → first_fit t bs ≡ none
    → find_block fuel words t previous current ≡ done none
unfolding find_block first_fit Linked
find_block-none words t zero previous current bs h enough f = absurd (omega arith)
find_block-none words t (suc fuel) previous current [] h enough f = rw h refl
find_block-none words t (suc fuel) previous current ((a, m) ∷ bs) (here, some_a, size, h) enough f =
    let some_block : (current == 0) ≡ false = ground arith in
    elim (Bool-cases (leb t m)) [
      | inl e ↦
          let found : first_fit t ((a, m) ∷ bs) ≡ some (a, m) = rw e refl in
          absurd (none-some (sym f ∙ found))
      | inr e ↦
          let small : leb t (words current) ≡ false = rw here (rw size e) in
          let further : first_fit t ((a, m) ∷ bs) ≡ first_fit t bs = rw e refl in
          rw (some_block, small)
            (rw here (
              find_block-none words t fuel a (next_of words a) bs h (omega arith)
                (sym further ∙ f)))
    ]

-- The bytes that the heap grows by, and the blocks with them.
abbrev region_of : Heap → ℕ
region_of h = h.kernel_heap.base + h.kernel_heap.committed

abbrev needed : Layout → ℕ
needed layout = pages_needed (allocation_sizes layout).0

-- What `allocate` comes to when no block was large enough.
pub record IsAllocatedGrown (h : Heap) (layout : Layout) (root : ℕ) (bs : List (ℕ × ℕ))
    (result : Outcome (ℕ × Heap)) : Type 0 where
  pub commit :
      IsCommitted root
        (region_of h)
        0
        (needed layout)
        h.pages
        (map_heap_pages (needed layout) 0 (virt true root) (region_of h) h.pages)
  pub grown : Outcome Heap
  pub growth : IsGrown h (needed layout) commit.pages bs grown
  pub block : ℕ
  pub size : ℕ
  pub allocated :
      IsAllocated growth.heap layout block size
        (insert_block (region_of h) (needed layout * page_size) bs)
        result
  pub mapped :
      (w : ℕ)
      → region_of h ≤ w
      → w < region_of h + needed layout * page_size
      → is_mapped root w allocated.heap.pages.1 ≡ true

-- The heap has no block that is large enough, its blocks end below the region that it grows by, which
-- is aligned and stays within the limit, and the page tables are sound, with four free pages for each
-- page that is needed. Then `allocate` grows the heap and returns in its second round, with the first
-- block that fits in the list with the new region, and every address of the region is mapped.
pub allocate-grows :
    (h : Heap) (layout : Layout) (rounds fuel root : ℕ) (bs : List (ℕ × ℕ))
    (label : ℕ → Option (List ℕ)) (free : List ℕ)
    → Holds h bs
    → Below (region_of h) bs
    → 0 < region_of h
    → region_of h % page_size ≡ 0
    → 0 < layout.align
    → length bs + 1 < fuel
    → first_fit (allocation_sizes layout).0 bs ≡ none
    → h.kernel_heap.committed + needed layout * page_size ≤ h.kernel_heap.max_size
    → IsSound label root h.pages free
    → 4 * needed layout ≤ length free
    → IsAllocatedGrown h layout root bs (allocate (suc (suc rounds)) fuel (virt true root) layout h)
unfolding allocate
allocate-grows h layout rounds fuel root bs label free holds below some_region aligned positive
      enough f room sound supply =
    let t = (allocation_sizes layout).0 in
    let n = needed layout in
    let region = region_of h in
    let some_pages : 0 < n = ground arith in
    let large : t ≤ n * page_size = ground arith in
    let commit = map_heap_pages-maps label root region n 0 h.pages free sound supply aligned in
    let g =
      grow-grows h n fuel (virt true root) bs commit.pages holds below some_region some_pages room
        (omega arith) commit.returned in
    let (at, found) = insert_block-Finds t region (n * page_size) bs large in
    let longer = insert_block-length region (n * page_size) bs in
    let again =
      allocate-first_fit g.heap layout rounds fuel (virt true root) at.0 at.1
        (insert_block region (n * page_size) bs) positive g.holds (omega (arith, longer)) found in
    let missed =
      find_block-none h.words t fuel 0 h.kernel_heap.free_list bs holds.linked (omega arith) f in
    let round : allocate (suc (suc rounds)) fuel (virt true root) layout h
        ≡ allocate (suc rounds) fuel (virt true root) layout g.heap =
      rw missed (rw g.returned refl) in
    let same : again.heap.pages ≡ commit.pages = again.pages ∙ g.mapped_pages in
    record {
      commit = commit;
      grown = grow fuel (virt true root) n h;
      growth = g;
      block = at.0;
      size = at.1;
      allocated = rw round again;
      mapped = λ w lo hi.
          ap (λ p. is_mapped root w p.1) same ∙ commit.mapped w (omega arith) (omega arith);
    }
