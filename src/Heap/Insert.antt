-- ===== src/Heap/Insert.antt =====
-- `insert_free_block_sorted` on a memory that holds a list of free blocks: the list with the block
-- in its place, joined with its neighbours.
use crap_os.Base.{
  ◌||◌, length, ℕ, ◌≤◌, ◌<◌, ◌≡◌, refl, false, List, ◌==◌, ltb, if◌then◌else◌, arith,
}
use crap_os.Heap.{done, Outcome, Heap, header_size, insert_free_block_sorted, link_block}
use crap_os.Heap.Blocks.{
  insert_block-is_free, is_free, within, Apart, Linked, Unused, insert_block, insert_block-Apart,
}
use crap_os.Heap.Place.{place_first}

-- The memory of the heap holds a list of free blocks.
pub record Holds (h : Heap) (bs : List (ℕ × ℕ)) : Type 0 where
  pub linked : Linked h.words h.kernel_heap.free_list bs
  pub apart : Apart 1 bs

-- A heap after one more block is in its list.
pub record Inserted (h : Heap) (p n : ℕ) (bs bs' : List (ℕ × ℕ)) (result : Outcome Heap)
    : Type 0 where
  pub heap : Heap
  pub returned : result ≡ done heap
  pub holds : Holds heap bs'
  pub free : (x : ℕ) → is_free x bs' ≡ (within p n x || is_free x bs)
  pub safe : (x : ℕ) → is_free x bs ≡ false → within p n x ≡ false → heap.words x ≡ h.words x
  pub committed : heap.kernel_heap.committed ≡ h.kernel_heap.committed
  pub pages : heap.pages ≡ h.pages

-- The heap holds a list of free blocks, with fewer blocks than the fuel, and a stretch of 16 bytes or
-- more that is not at the null pointer overlaps none of them. Then the call returns a heap that holds
-- the list with the stretch in its place, joined with its neighbours; the free addresses are those
-- from before and those of the stretch, and no word elsewhere has changed.
pub insert_free_block_sorted-inserts :
    (h : Heap) (p n fuel : ℕ) (bs : List (ℕ × ℕ))
    → Holds h bs
    → length bs < fuel
    → 0 < p
    → 16 ≤ n
    → Unused p n bs
    → Inserted h p n bs (insert_block p n bs) (insert_free_block_sorted fuel p n h)
unfolding insert_free_block_sorted
insert_free_block_sorted-inserts h p n fuel bs holds enough some_p big u =
    let (at, found, linked, safe) =
      place_first h.words p n fuel h.kernel_heap.free_list bs enough some_p big holds.linked
        holds.apart u in
    let fits : ltb n header_size ≡ false = ground arith in
    record {
      heap = record h {
        words = link_block p n at.0 at.1 h.words;
        kernel_heap = record h.kernel_heap {
          free_list = if at.0 == 0 then p else h.kernel_heap.free_list;
        };
      };
      returned = rw (fits, found) refl;
      holds = record {
        linked = linked;
        apart = insert_block-Apart 1 p n bs holds.apart (omega arith) big u;
      };
      free = λ x. insert_block-is_free x p n bs;
      safe = safe;
      committed = refl;
      pages = refl;
    }
