-- ===== src/Paging/Manager.antt =====
-- The memory manager (crap_os/src/memory_manager/manager.rs) and the address space of a process
-- (crap_os/src/memory_manager/address_space.rs).
use crap_os.Base.{
  update, inl, inr, map, arith, ltb, leb, Bool-cases, ◌-◌, ◌||◌, ◌∙◌, ℕ, ◌+◌, ◌%◌, ◌^◌, ◌<◌, ◌≤◌,
  ◌≡◌, refl, Bool, true, false, Option, none, some, List, length, ◌==◌, if◌then◌else◌,
}
use crap_os.Pages.{FramebufferInfo, MemoryMapInfo, free_page, kernel_physical_map_base, virt}
use crap_os.Paging.{
  pt_index, pd_index, pdpt_index, pml4_index, slot, below, is_table_empty, prune, PageState, frame,
  get_physical_addr, map_page, unmap_page,
}
use crap_os.Paging.Boot.{
  build_direct_map, map_framebuffer_higher_half, reclaim_boot_memory, remove_identity_maps,
}
use crap_os.Paging.Nx.{get_physical_addr-nx}
use crap_os.Paging.Tables.{IsSound}
use crap_os.Tasks.Outcome.{Outcome, done, panic, ◌>>=◌}

-- The addresses of the kernel's root table; the allocator and the memory are the page state.
pub record MemoryManager : Type 0 where
  pub pml4 : ℕ
  pub pml4_phys : ℕ

abbrev pub kernel_pml4 : ℕ
kernel_pml4 = 0

abbrev pub higher_half : PageState → PageState
higher_half s = (record s.0 { is_higher_half = true }, s.1)

unfoldable pub init_higher_half :
    FramebufferInfo
    → MemoryMapInfo
    → MemoryManager
    → PageState
    → Outcome (MemoryManager × PageState)
init_higher_half fb map mm s = do
  s1 ← build_direct_map mm.pml4 map s
  s2 ← map_framebuffer_higher_half mm.pml4 fb (higher_half s1)
  s3 ← reclaim_boot_memory map (s2.0, remove_identity_maps mm.pml4_phys s2.1)
  done (record mm { pml4 = (mm.pml4_phys + kernel_physical_map_base) % 2 ^ 64 }, s3)

-- The root table that a call means.
abbrev pub resolve : MemoryManager → ℕ → ℕ
resolve mm pml4_phys = if pml4_phys == kernel_pml4 then mm.pml4 else virt true pml4_phys

abbrev pub manager_map_page : MemoryManager → ℕ → ℕ → ℕ → ℕ → PageState → Outcome PageState
manager_map_page mm pml4_phys virtual_addr physical_addr flags s =
    map_page (resolve mm pml4_phys) virtual_addr physical_addr flags true s

abbrev pub manager_get_physical_addr : MemoryManager → ℕ → ℕ → PageState → Option ℕ
manager_get_physical_addr mm pml4_phys virtual_addr s =
    get_physical_addr (resolve mm pml4_phys) virtual_addr s.1

abbrev pub manager_unmap_page : MemoryManager → ℕ → ℕ → PageState → Bool × PageState
manager_unmap_page mm pml4_phys virtual_addr s = unmap_page (resolve mm pml4_phys) virtual_addr s

-- Bits 47 to 63 are alike. A write to another address raises the general protection exception, whose
-- handler halts.
abbrev pub is_canonical : ℕ → Bool
is_canonical a = ltb a (2 ^ 47) || leb (2 ^ 64 - 2 ^ 47) a

unfoldable pub unmap_and_free_page : MemoryManager → ℕ → ℕ → PageState → Outcome PageState
unmap_and_free_page mm pml4_phys virtual_addr s =
    let unmapped = (manager_unmap_page mm pml4_phys virtual_addr s).1 in
    elim (manager_get_physical_addr mm pml4_phys virtual_addr s) [
      | none ↦ done s
      | some phys ↦
          if is_canonical (virt unmapped.0.is_higher_half phys)
          then done (free_page phys unmapped.0 unmapped.1)
          else panic
    ]

prune-high : (e : ℕ) (s : PageState) → (prune e s).1.0.is_higher_half ≡ s.0.is_higher_half
unfolding prune free_page
prune-high e s = elim (Bool-cases (is_table_empty 512 0 (below (s.1 e)) s.1)) [
  | inl h ↦ rw (h, prune) refl
  | inr h ↦ rw (h, prune) refl
]

unmap_page-high :
    (root v : ℕ) (s : PageState) → (unmap_page root v s).1.0.is_higher_half ≡ s.0.is_higher_half
unfolding unmap_page
unmap_page-high root v (pmm, mem) =
    let pml4e = slot root (pml4_index v) in
    let pdpte = slot (below (mem pml4e)) (pdpt_index v) in
    let pde = slot (below (mem pdpte)) (pd_index v) in
    let pte = slot (below (mem pde)) (pt_index v) in
    let (emptied, s1) = prune pde (pmm, update mem pte 0) in
    let (emptied', s2) = prune pdpte s1 in
    let (emptied'', s3) = prune pml4e s2 in
    let first = prune-high pde (pmm, update mem pte 0) in
    let second = prune-high pdpte s1 ∙ first in
    chosen-high _ emptied emptied' (pmm, mem) s1 s2 s3 first second (prune-high pml4e s2 ∙ second)
  where
    chosen-high :
        (a b c : Bool) (s s1 s2 s3 : PageState)
        → s1.0.is_higher_half ≡ s.0.is_higher_half
        → s2.0.is_higher_half ≡ s.0.is_higher_half
        → s3.0.is_higher_half ≡ s.0.is_higher_half
        → (let r : Bool × PageState =
              if a then (false, s) else (true, if b then (if c then s3 else s2) else s1) in
            r.1.0.is_higher_half)
          ≡ s.0.is_higher_half
    chosen-high true b c s s1 s2 s3 h1 h2 h3 = refl
    chosen-high false false c s s1 s2 s3 h1 h2 h3 = h1
    chosen-high false true false s s1 s2 s3 h1 h2 h3 = h2
    chosen-high false true true s s1 s2 s3 h1 h2 h3 = h3

unmap_and_free_page-faults :
    (mm : MemoryManager) (root v a : ℕ) (s : PageState)
    → manager_get_physical_addr mm root v s ≡ some a
    → is_canonical (virt (manager_unmap_page mm root v s).1.0.is_higher_half a) ≡ false
    → unmap_and_free_page mm root v s ≡ panic
unfolding unmap_and_free_page
unmap_and_free_page-faults mm root v a s h c = rw (h, c, unmap_and_free_page) refl

-- The memory is sound, in the higher half, and has three free pages. A page below 2 ^ 47 is mapped for a
-- process with the flag NX, bit 63, and flags of the low twelve bits. Then the address that is read for it
-- has bit 63 set, and to unmap and free it faults: the list of free pages is to be written at an
-- address that is not canonical.
pub unmap_and_free_page-nx :
    (label : ℕ → Option (List ℕ)) (mm : MemoryManager) (root : ℕ) (s : PageState) (free : List ℕ)
    (virtual_addr physical_addr low : ℕ)
    → IsSound label root s free
    → (root == kernel_pml4) ≡ false
    → 3 ≤ length free
    → physical_addr < 2 ^ 47
    → low < 4096
    → (s' : PageState) × (manager_map_page mm root virtual_addr physical_addr (low + 2 ^ 63) s
        ≡ done s')
      × (manager_get_physical_addr mm root virtual_addr s'
          ≡ some (frame physical_addr + virtual_addr % 4096 + 2 ^ 63))
      × (unmap_and_free_page mm root virtual_addr s' ≡ panic)
unmap_and_free_page-nx label mm root s free v physical low h other room small hl =
    let (s', mapped, reads, high) =
      get_physical_addr-nx label root s free v physical low 1 true h room (omega (arith, small)) hl
        (omega arith) in
    let kept = unmap_page-high (virt true root) v s' ∙ high in
    let faults : is_canonical (virt true (frame physical + v % 4096 + 2 ^ 63)) ≡ false =
      ground (arith, small) in
    (
      s',
      rw other mapped,
      rw other reads,
      unmap_and_free_page-faults mm root v (frame physical + v % 4096 + 2 ^ 63) s' (rw other reads)
          (rw (other, kept) faults),
    )
