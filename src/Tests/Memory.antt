-- ===== src/Tests/Memory.antt =====
-- Page tables, the heap and the locks at concrete inputs.
use crap_os.Base.{
  ℕ, zero, suc, ◌+◌, ◌-◌, ◌*◌, ◌/◌, ◌%◌, ◌^◌, ◌≤◌, ◌<◌, ◌≡◌, ◌≢◌, refl, ◌∙◌, sym, true, false, List,
  [], ◌∷◌, Option, none, some, ◌==◌, ◌&&◌, ltb, leb, if◌then◌else◌, arith, inl, inr, Bool-cases,
  length, All, bit_or,
}
use crap_os.Heap.{Heap, Layout, allocate, deallocate, insert_free_block_sorted, new_heap}
use crap_os.Heap.Allocate.{IsAllocated, allocate-first_fit}
use crap_os.Heap.Blocks.{Apart, Unused, Linked, insert_block}
use crap_os.Heap.FirstFit.{first_fit}
use crap_os.Heap.Grow.{Below, IsAllocatedGrown, allocate-grows}
use crap_os.Heap.Insert.{Holds, Inserted, insert_free_block_sorted-inserts}
use crap_os.Heap.Release.{IsReleased, allocate-deallocate}
use crap_os.Pages.{kernel_physical_map_base, virt}
use crap_os.Pages.FreeList.{Chain}
use crap_os.Paging.{PageState, absent, frame, get_physical_addr, leaf, map_page}
use crap_os.Paging.Manager.{
  manager_get_physical_addr, MemoryManager, manager_map_page, unmap_and_free_page,
  unmap_and_free_page-nx,
}
use crap_os.Paging.AddressSpace.{new_root, new_root-translates}
use crap_os.Paging.Map.{map_page-translates}
use crap_os.Paging.Way.{same_page}
use crap_os.Paging.Tables.{Distinct, IsSound}
use crap_os.Paging.Walk.{IsFrame, entry}
use crap_os.Tasks.Outcome.{panic, done}

-- Sixteen free pages from 0x2000 on, each with the address of the next one in its first word, and an
-- empty top table at 0x1000.
abbrev supply : ℕ → ℕ → List ℕ
supply k zero = []
supply k (suc n) = k * 4096 ∷ supply (k + 1) n

abbrev memory : ℕ → ℕ
memory a =
    let p = a - kernel_physical_map_base in
    if leb kernel_physical_map_base a && (p % 4096 == 0) && leb 2 (p / 4096) && ltb (p / 4096) 17
    then p + 4096
    else 0

abbrev tables : ℕ → Option (List ℕ)
tables p = if p == 0x1000 then some [] else none

Chain-from :
    (k n : ℕ) → 2 ≤ k → k + suc n ≡ 18 → Chain true memory (some (k * 4096)) (supply k (suc n))
Chain-from k zero lo hi =
    let last : memory (virt true (k * 4096)) ≡ 0 = ground arith in
    (refl, omega arith, omega arith, rw last refl)
Chain-from k (suc n) lo hi =
    let next : memory (virt true (k * 4096)) ≡ (k + 1) * 4096 = ground arith in
    let some_next : ((k + 1) * 4096 == 0) ≡ false = ground arith in
    (
      refl,
      omega arith,
      omega arith,
      rw (next, some_next) (Chain-from (k + 1) n (omega arith) (omega arith)),
    )

supply_apart :
    (k n : ℕ) → 2 ≤ k → k + n ≤ 18 → All (λ p. IsFrame p × (tables p ≡ none)) (supply k n)
supply_apart k zero lo hi = tt
supply_apart k (suc n) lo hi =
    let other : (k * 4096 == 0x1000) ≡ false = ground arith in
    (
      ((omega arith, omega arith), rw other refl),
      supply_apart (k + 1) n (omega arith) (omega arith),
    )

supply_above : (j k n : ℕ) → j < k → All (λ q. q ≢ j * 4096) (supply k n)
supply_above j k zero lt = tt
supply_above j k (suc n) lt = ((λ e. omega arith), supply_above j (k + 1) n (omega arith))

supply-Distinct : (k n : ℕ) → Distinct (supply k n)
supply-Distinct k zero = tt
supply-Distinct k (suc n) = (supply_above k (k + 1) n (omega arith), supply-Distinct (k + 1) n)

abbrev pub some_pages : PageState
some_pages = (
  record {
    kernel_load_addr = 0;
    kernel_image_size = 0;
    kernel_stack_base_addr = 0;
    kernel_stack_size = 0;
    framebuffer_addr = 0;
    framebuffer_size = 0;
    memory_map_addr = 0;
    memory_map_size = 0;
    memory_map_desc_size = 48;
    kernel_start = 0;
    kernel_end = 0;
    is_higher_half = true;
    free_list_head = some 0x2000;
    free_pages = 16;
  },
  memory,
)

memory-absent : (a : ℕ) → absent (memory a) ≡ true
memory-absent a = ground arith

true_false : {A : Type 0} → true ≡ false → A
true_false h = cc

none-some : {A : Type 0} {π : List ℕ} → ◌≡◌ {A = Option (List ℕ)} none (some π) → A
none-some h = cc

tables_root : (p : ℕ) (π : List ℕ) → tables p ≡ some π → IsFrame p
tables_root p π h = elim (Bool-cases (p == 0x1000)) [
  | inl e ↦ (ground arith, ground arith)
  | inr e ↦ let nothing : tables p ≡ none = rw e refl in none-some (sym nothing ∙ h)
]

some_pages-IsSound : IsSound tables 0x1000 some_pages (supply 2 16)
some_pages-IsSound = record {
  high = refl;
  tree = record {
    root_label = refl;
    frames = tables_root;
    children = λ p i π here short bound alive. true_false (sym (memory-absent (entry p i)) ∙ alive);
  };
  list = record { chain = Chain-from 2 15 (omega arith) refl; count = refl; bound = omega arith };
  apart = supply_apart 2 16 (omega arith) (omega arith);
  distinct = supply-Distinct 2 16;
}

map_page-translates_example :
    (label' : ℕ → Option (List ℕ)) × (s' : PageState) × (free' : List ℕ) × (map_page
        (virt true 0x1000)
        0x40000000
        0x30000
        3
        false
        some_pages
      ≡ done s')
    × IsSound label' 0x1000 s' free'
    × (16 ≤ length free' + 3)
    × ((w : ℕ)
        → get_physical_addr (virt true 0x1000) w s'.1 ≡ (
            if same_page 0x40000000 w
            then some (bit_or (frame (leaf 0x30000 3)) (w % 4096))
            else get_physical_addr (virt true 0x1000) w memory))
map_page-translates_example =
    map_page-translates tables 0x1000 some_pages (supply 2 16) 0x40000000 0x30000 3 false
      some_pages-IsSound (omega arith)

-- A block of 256 bytes at 0x1000 and one of 4096 bytes at 0x2000.
abbrev some_words : ℕ → ℕ
some_words a =
    if a == 0x1000 then 256 else if a == 0x1008 then 0x2000 else if a == 0x2000 then 4096 else 0

abbrev some_heap : Heap
some_heap = record {
  kernel_heap = record {
    base = 0x1000;
    max_size = 0x10000;
    committed = 0x2000;
    free_list = 0x1000;
  };
  words = some_words;
  pages = some_pages;
}

abbrev some_blocks : List (ℕ × ℕ)
some_blocks = (0x1000, 256) ∷ (0x2000, 4096) ∷ []

some_heap-Holds : Holds some_heap some_blocks
unfolding Linked Apart
some_heap-Holds = record {
  linked = (refl, omega arith, refl, (refl, omega arith, refl, refl));
  apart = (omega arith, omega arith, (omega arith, omega arith, tt));
}

insert_free_block_sorted-inserts_example :
    Inserted some_heap 0x1100 3840 some_blocks
      (insert_block 0x1100 3840 some_blocks)
      (insert_free_block_sorted 3 0x1100 3840 some_heap)
insert_free_block_sorted-inserts_example =
    insert_free_block_sorted-inserts some_heap 0x1100 3840 3 some_blocks some_heap-Holds
      (omega arith) (omega arith) (omega arith)
      (unfold Unused in (inl (omega arith), (inr (omega arith), tt)))

abbrev some_layout : Layout
some_layout = record { layout_size = 1000; align = 16 }

allocate-first_fit_example :
    IsAllocated some_heap some_layout 0x2000 4096 some_blocks (allocate 1 3 0 some_layout some_heap)
allocate-first_fit_example =
    allocate-first_fit some_heap some_layout 0 3 0 0x2000 4096 some_blocks (omega arith)
      some_heap-Holds (omega arith) (unfold first_fit in refl)

allocated :
    IsAllocated some_heap some_layout 0x2000 4096 some_blocks (allocate 1 3 0 some_layout some_heap)
allocated =
    allocate-first_fit some_heap some_layout 0 3 0 0x2000 4096 some_blocks (omega arith)
      some_heap-Holds (omega arith) (unfold first_fit in refl)

allocate-deallocate_example :
    IsReleased some_blocks
      (deallocate 3 0x2010 (record allocated.heap { words = allocated.heap.words }))
allocate-deallocate_example =
    allocate-deallocate some_heap allocated.heap some_layout 0 3 0 0x2000 4096 0x2010 some_blocks
      allocated.heap.words (omega arith) some_heap-Holds (omega arith) (unfold first_fit in refl)
      (inl (omega arith)) allocated.returned (λ x out. refl)

abbrev empty_heap : Heap
empty_heap = record {
  kernel_heap = new_heap 0x50000000 0x100000;
  words = λ a. 0;
  pages = some_pages;
}

allocate-grows_example :
    IsAllocatedGrown empty_heap some_layout 0x1000 []
      (allocate 2 2 (virt true 0x1000) some_layout empty_heap)
allocate-grows_example =
    allocate-grows empty_heap some_layout 0 2 0x1000 [] tables (supply 2 16)
      (record { linked = unfold Linked in refl; apart = unfold Apart in tt }) (unfold Below in tt)
      (omega arith) refl (omega arith) (omega arith) (unfold first_fit in refl) (omega arith)
      some_pages-IsSound (omega arith)

abbrev some_manager : MemoryManager
some_manager = record { pml4 = virt true 0x9000; pml4_phys = 0x9000 }

unmap_and_free_page-nx_example :
    (s' : PageState) × (manager_map_page some_manager 0x1000 0x40000000 0x30000
        (3 + 2 ^ 63)
        some_pages
      ≡ done s')
    × (manager_get_physical_addr some_manager 0x1000 0x40000000 s'
        ≡ some (frame 0x30000 + 0x40000000 % 4096 + 2 ^ 63))
    × (unmap_and_free_page some_manager 0x1000 0x40000000 s' ≡ panic)
unmap_and_free_page-nx_example =
    unmap_and_free_page-nx tables some_manager 0x1000 some_pages (supply 2 16) 0x40000000 0x30000 3
      some_pages-IsSound refl (omega arith) (omega arith) (omega arith)

-- The kernel maps the second page of the upper half, through three tables behind its root.
abbrev kernel_memory : ℕ → ℕ
kernel_memory a =
    if a == entry 0x1000 256
    then 0x3003
    else if a == entry 0x3000 0
    then 0x4003
    else if a == entry 0x4000 0
    then 0x5003
    else if a == entry 0x5000 1
    then 0x9003
    else 0

new_root-translates_example :
    (get_physical_addr
        (virt true 0x2000)
        0xFFFF800000001008
        (new_root (virt true 0x1000) (virt true 0x2000) kernel_memory)
      ≡ some 0x9008)
    × (get_physical_addr
          (virt true 0x1000)
          0xFFFF800000001008
          (new_root (virt true 0x1000) (virt true 0x2000) kernel_memory)
        ≡ some 0x9008)
unfolding get_physical_addr
new_root-translates_example =
    new_root-translates 0x1000 0x2000 0xFFFF800000001008 kernel_memory (refl, omega arith)
      (
        (refl, omega arith),
        λ e. omega (arith, e),
        inr (
          (refl, omega arith),
          λ e. omega (arith, e),
          inr (
            (refl, omega arith),
            λ e. omega (arith, e),
            inr ((refl, omega arith), λ e. omega (arith, e)),
          ),
        ),
      )
