-- ===== src/Heap.antt =====
-- The kernel heap (crap_os/src/memory_manager/kernel_heap.rs): a list of free blocks, sorted by
-- address, through the blocks themselves. The memory of the heap is its words by their virtual address:
-- a free block has its size at its address and the next block at the word after it, a block in use the
-- header's two words there, and the offset of its data in the word before the data.
pub mod Allocate
pub mod Blocks
pub mod Commit
pub mod FirstFit
pub mod Grow
pub mod Insert
pub mod Link
pub mod Place
pub mod Search
pub mod Release
use crap_os.Base.{
  ℕ, zero, suc, ◌+◌, ◌-◌, ◌*◌, ◌/◌, ◌%◌, ◌^◌, Bool, true, false, ◌&&◌, not, Option, none, some,
  ◌==◌, ltb, leb, if◌then◌else◌, update,
}
use crap_os.Pages.{PhysicalMemoryManager, alloc_page, page_size}
use crap_os.Paging.{PageState, map_page, present_flag, writable}
use crap_os.Paging.Boot.{nx}
use crap_os.Tasks.Outcome.{Outcome, done, panic, no_fuel, ◌>>=◌, unwrap}

-- The fields of a `FreeBlock` in the memory. The null pointer is 0.
abbrev pub size_of : (ℕ → ℕ) → ℕ → ℕ
size_of words p = words p

abbrev pub next_of : (ℕ → ℕ) → ℕ → ℕ
next_of words p = words (p + 8)

abbrev pub set_size : (ℕ → ℕ) → ℕ → ℕ → ℕ → ℕ
set_size words p size = update words p size

abbrev pub set_next : (ℕ → ℕ) → ℕ → ℕ → ℕ → ℕ
set_next words p next = update words (p + 8) next

-- A `FreeBlock` and an `AllocHeader` have two words each.
abbrev pub header_size : ℕ
header_size = 16

pub record KernelHeap : Type 0 where
  pub base : ℕ
  pub max_size : ℕ
  pub committed : ℕ
  pub free_list : ℕ

pub record Heap : Type 0 where
  pub kernel_heap : KernelHeap
  pub words : ℕ → ℕ
  pub pages : PageState

pub record Layout : Type 0 where
  pub layout_size : ℕ
  pub align : ℕ

abbrev pub new_heap : ℕ → ℕ → KernelHeap
new_heap base max_size = record { base = base; max_size = max_size; committed = 0; free_list = 0 }

-- The neighbours of an address in the list: the loop ends at the first block that is not below it.
unfoldable pub find_place : ℕ → (ℕ → ℕ) → ℕ → ℕ → ℕ → Outcome (ℕ × ℕ)
find_place zero words ptr prev next = no_fuel
find_place (suc fuel) words ptr prev next =
    let rest = find_place fuel words ptr next (next_of words next) in
    if not (next == 0) && ltb next ptr then rest else done (prev, next)

-- A block takes in the one that starts where it ends.
abbrev pub take_in : ℕ → ℕ → (ℕ → ℕ) → ℕ → ℕ
take_in block other words =
    let grown = set_size words block (size_of words block + size_of words other) in
    set_next grown block (next_of grown other)

abbrev pub join_next : ℕ → ℕ → (ℕ → ℕ) → ℕ → ℕ
join_next block next words =
    if not (next == 0) && (block + size_of words block == next)
    then take_in block next words
    else words

abbrev pub join_prev : ℕ → ℕ → (ℕ → ℕ) → ℕ → ℕ
join_prev prev block words =
    if not (prev == 0) && (prev + size_of words prev == block)
    then take_in prev block words
    else words

-- The block goes between its neighbours.
abbrev pub link_block : ℕ → ℕ → ℕ → ℕ → (ℕ → ℕ) → ℕ → ℕ
link_block ptr total_size prev next words =
    let written = set_next (set_size words ptr total_size) ptr next in
    let linked = if prev == 0 then written else set_next written prev ptr in
    join_prev prev ptr (join_next ptr next linked)

unfoldable pub insert_free_block_sorted : ℕ → ℕ → ℕ → Heap → Outcome Heap
insert_free_block_sorted fuel ptr total_size h =
    let place = find_place fuel h.words ptr 0 h.kernel_heap.free_list in
    if ltb total_size header_size
    then panic
    else (place >>= λ found. done (record h {
      words = link_block ptr total_size found.0 found.1 h.words;
      kernel_heap = record h.kernel_heap {
        free_list = if found.0 == 0 then ptr else h.kernel_heap.free_list;
      };
    }))

-- The loop of `grow`: the rounds that are left, the index. `pml4` is `KERNEL_PML4`.
unfoldable pub map_heap_pages : ℕ → ℕ → ℕ → ℕ → PageState → Outcome PageState
map_heap_pages zero i pml4 region s = done s
map_heap_pages (suc rounds) i pml4 region (pmm, mem) = do
  phys_addr ← unwrap (alloc_page pmm mem).0
  s ←
      map_page pml4 (region + i * page_size) phys_addr (present_flag + writable + nx) true
        ((alloc_page pmm mem).1, mem)
  map_heap_pages rounds (i + 1) pml4 region s

unfoldable pub grow : ℕ → ℕ → ℕ → Heap → Outcome Heap
grow fuel pml4 num_pages h =
    let num_bytes = num_pages * page_size in
    let region = h.kernel_heap.base + h.kernel_heap.committed in
    let larger = record h.kernel_heap { committed = h.kernel_heap.committed + num_bytes } in
    let pages? = map_heap_pages num_pages 0 pml4 region h.pages in
    let grown =
      (pages? >>= λ pages.
      insert_free_block_sorted fuel region num_bytes
        (record h { pages = pages; kernel_heap = larger })) in
    if leb (h.kernel_heap.committed + num_bytes) h.kernel_heap.max_size then grown else panic

-- The total size and the offset of the data. The mask rounds down to a multiple, the alignment being a power of two.
abbrev pub allocation_sizes : Layout → ℕ × ℕ
allocation_sizes layout =
    let rounded = header_size + layout.align - 1 in
    let data_offset = rounded - rounded % layout.align in
    (data_offset + layout.layout_size, data_offset)

-- What the search for a block comes to: its predecessor and itself, or the end of the list.
unfoldable pub find_block : ℕ → (ℕ → ℕ) → ℕ → ℕ → ℕ → Outcome (Option (ℕ × ℕ))
find_block zero words total_size previous current = no_fuel
find_block (suc fuel) words total_size previous current =
    let rest = find_block fuel words total_size current (next_of words current) in
    if current == 0
    then done none
    else if leb total_size (size_of words current)
    then done (some (previous, current))
    else rest

-- The block leaves the list.
abbrev pub unlink : ℕ → ℕ → Heap → Heap
unlink previous current h =
    let next = next_of h.words current in
    if previous == 0
    then record h { kernel_heap = record h.kernel_heap { free_list = next } }
    else record h { words = set_next h.words previous next }

-- The header at the start of the block and the offset before its data.
abbrev pub write_header : ℕ → ℕ → ℕ → (ℕ → ℕ) → ℕ → ℕ
write_header block total_size data_offset words =
    let sized = update words block total_size in
    update (update sized (block + 8) data_offset) (block + data_offset - 8) data_offset

-- What is left of a block goes back to the list, if a free block fits there.
unfoldable pub take_block : ℕ → ℕ → ℕ → ℕ → ℕ → Heap → Outcome (ℕ × Heap)
take_block fuel total_size data_offset previous current h =
    let remaining = size_of h.words current - total_size in
    let cut = unlink previous current h in
    let returned = insert_free_block_sorted fuel (current + total_size) remaining cut in
    let shrunk? = if leb header_size remaining then returned else done cut in
    (shrunk? >>= λ shrunk. done (
      current + data_offset,
      record shrunk { words = write_header current total_size data_offset shrunk.words },
    ))

abbrev pub pages_needed : ℕ → ℕ
pages_needed total_size =
    let pages = (total_size + page_size - 1) / page_size in if leb pages 4 then 4 else pages

-- The search starts again when the heap has grown. The fuel of the rounds comes first.
unfoldable pub allocate : ℕ → ℕ → ℕ → Layout → Heap → Outcome (ℕ × Heap)
allocate zero fuel pml4 layout h = no_fuel
allocate (suc rounds) fuel pml4 layout h =
    let (total_size, data_offset) = allocation_sizes layout in
    do
      found ← find_block fuel h.words total_size 0 h.kernel_heap.free_list
      elim found [
        | some at ↦ take_block fuel total_size data_offset at.0 at.1 h
        | none ↦ do
          h' ← grow fuel pml4 (pages_needed total_size) h
          allocate rounds fuel pml4 layout h'
      ]

unfoldable pub deallocate : ℕ → ℕ → Heap → Outcome Heap
deallocate fuel ptr h =
    let block = ptr - h.words (ptr - 8) in insert_free_block_sorted fuel block (h.words block) h
