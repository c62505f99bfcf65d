-- ===== src/Paging.antt =====
-- The page tables (crap_os/src/memory_manager/vmm.rs): four levels of tables in the words of the
-- memory, with the pages of the allocator. The flush of the translation buffer is left out.
pub mod Boot
pub mod Walk
pub mod Tables
pub mod Create
pub mod Obtain
pub mod Way
pub mod Map
pub mod Nx
pub mod Manager
pub mod AddressSpace
use crap_os.Base.{
  ℕ, zero, suc, ◌+◌, ◌-◌, ◌*◌, ◌/◌, ◌%◌, ◌^◌, Bool, true, false, ◌&&◌, ◌||◌, Option, none, some,
  ◌==◌, ltb, if◌then◌else◌, update, bit_or,
}
use crap_os.Pages.{PhysicalMemoryManager, virt, alloc_page, free_page}
use crap_os.Tasks.Outcome.{Outcome, done, panic, no_fuel, ◌>>=◌, unwrap}

-- The allocator and the memory.
abbrev pub PageState : Type 0
PageState = PhysicalMemoryManager × (ℕ → ℕ)

abbrev pub present_flag : ℕ
present_flag = 1

abbrev pub writable : ℕ
writable = 2

abbrev pub user : ℕ
user = 4

-- `x & PRESENT == 0`
abbrev pub absent : ℕ → Bool
absent x = x % 2 == 0

-- `x & !0xFFF`
abbrev pub frame : ℕ → ℕ
frame x = x - x % 4096

-- `table.add(index)`, a pointer to words.
abbrev pub slot : ℕ → ℕ → ℕ
slot table index = table + 8 * index

-- The four indices of an address.
abbrev pub pml4_index : ℕ → ℕ
pml4_index v = (v / 2 ^ 39) % 512

abbrev pub pdpt_index : ℕ → ℕ
pdpt_index v = (v / 2 ^ 30) % 512

abbrev pub pd_index : ℕ → ℕ
pd_index v = (v / 2 ^ 21) % 512

abbrev pub pt_index : ℕ → ℕ
pt_index v = (v / 2 ^ 12) % 512

-- The words from the index `i` on: the rounds that are left come first.
unfoldable pub zero_words : ℕ → ℕ → ℕ → (ℕ → ℕ) → ℕ → ℕ
zero_words zero i address mem = mem
zero_words (suc rounds) i address mem =
    zero_words rounds (i + 1) address (update mem (slot address i) 0)

unfoldable pub zero_out_page : ℕ → (ℕ → ℕ) → ℕ → ℕ
zero_out_page address mem = zero_words 512 0 address mem

-- The table that an entry points to. An entry that is absent gets a new one.
unfoldable pub get_or_create_table : ℕ → ℕ → ℕ → PageState → Outcome (ℕ × PageState)
get_or_create_table table index intermediate_flags (pmm, mem) =
    let entry = slot table index in
    if absent (mem entry)
    then (let (page?, pmm') = alloc_page pmm mem in
        elim page? [
          | none ↦ panic
          | some new_table_phys ↦
              let zeroed = zero_out_page (virt pmm'.is_higher_half new_table_phys) mem in
              let mem' = update zeroed entry (bit_or new_table_phys intermediate_flags) in
              done (virt pmm'.is_higher_half (frame (mem' entry)), (pmm', mem'))
        ])
    else done (virt pmm.is_higher_half (frame (mem entry)), (pmm, mem))

abbrev pub intermediate : Bool → ℕ
intermediate is_user_page =
    if is_user_page then present_flag + writable + user else present_flag + writable

-- What `map_page` writes into the last table.
abbrev pub leaf : ℕ → ℕ → ℕ
leaf physical_addr flags = bit_or (bit_or (frame physical_addr) flags) present_flag

unfoldable pub map_page : ℕ → ℕ → ℕ → ℕ → Bool → PageState → Outcome PageState
map_page pml4 virtual_addr physical_addr flags is_user_page s = do
  (pdpt, s1) ← get_or_create_table pml4 (pml4_index virtual_addr) (intermediate is_user_page) s
  (pd, s2) ← get_or_create_table pdpt (pdpt_index virtual_addr) (intermediate is_user_page) s1
  (pt, s3) ← get_or_create_table pd (pd_index virtual_addr) (intermediate is_user_page) s2
  done (s3.0, update s3.1 (slot pt (pt_index virtual_addr)) (leaf physical_addr flags))

-- The table below an entry, in the higher half.
abbrev pub below : ℕ → ℕ
below entry = virt true (frame entry)

unfoldable pub get_physical_addr : ℕ → ℕ → (ℕ → ℕ) → Option ℕ
get_physical_addr pml4 virtual_addr mem =
    let pml4e = mem (slot pml4 (pml4_index virtual_addr)) in
    let pdpte = mem (slot (below pml4e) (pdpt_index virtual_addr)) in
    let pde = mem (slot (below pdpte) (pd_index virtual_addr)) in
    let pte = mem (slot (below pde) (pt_index virtual_addr)) in
    if absent pml4e
    then none
    else if absent pdpte
    then none
    else if absent pde
    then none
    else if absent pte
    then none
    else some (bit_or (frame pte) (virtual_addr % 4096))

-- The entries from the index `i` on are absent.
unfoldable pub is_table_empty : ℕ → ℕ → ℕ → (ℕ → ℕ) → Bool
is_table_empty zero i table mem = true
is_table_empty (suc rounds) i table mem =
    let rest = is_table_empty rounds (i + 1) table mem in
    if absent (mem (slot table i)) then rest else false

-- A table that is empty is cut off from its entry and freed: the answer says so.
unfoldable pub prune : ℕ → PageState → Bool × PageState
prune entry (pmm, mem) =
    let table = mem entry in
    if is_table_empty 512 0 (below table) mem
    then (true, free_page (frame table) pmm (update mem entry 0))
    else (false, (pmm, mem))

unfoldable pub unmap_page : ℕ → ℕ → PageState → Bool × PageState
unmap_page pml4 virtual_addr (pmm, mem) =
    let pml4e = slot pml4 (pml4_index virtual_addr) in
    let pdpte = slot (below (mem pml4e)) (pdpt_index virtual_addr) in
    let pde = slot (below (mem pdpte)) (pd_index virtual_addr) in
    let pte = slot (below (mem pde)) (pt_index virtual_addr) in
    if absent (mem pml4e) || absent (mem pdpte) || absent (mem pde) || absent (mem pte)
    then (false, (pmm, mem))
    else (let (emptied, s1) = prune pde (pmm, update mem pte 0) in
        let (emptied', s2) = prune pdpte s1 in
        let (emptied'', s3) = prune pml4e s2 in
        (true, if emptied then (if emptied' then s3 else s2) else s1))
