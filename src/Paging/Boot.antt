-- ===== src/Paging/Boot.antt =====
-- The page tables of the start-up: the identity and higher-half maps, the direct map of the physical
-- memory, and the pages that are reclaimed when the boot services are gone.
use crap_os.Base.{
  not, ℕ, zero, suc, ◌+◌, ◌-◌, ◌*◌, ◌/◌, ◌%◌, ◌^◌, Bool, true, false, ◌&&◌, ◌||◌, ◌==◌, ltb, leb,
  if◌then◌else◌,
}
use crap_os.Pages.{
  EfiMemoryDescriptor, FramebufferInfo, MemoryMapInfo, PhysicalMemoryManager, alloc_page,
  descriptor_at, free_page, kernel_physical_map_base, page_overlaps, page_size,
}
use crap_os.Paging.{PageState, frame, map_page, present_flag, writable, zero_out_page, zero_words}
use crap_os.Tasks.Outcome.{Outcome, done, no_fuel, ◌>>=◌, unwrap}

abbrev pub pwt : ℕ
pwt = 2 ^ 3

abbrev pub pcd : ℕ
pcd = 2 ^ 4

abbrev pub nx : ℕ
nx = 2 ^ 63

abbrev pub kernel_virtual_base : ℕ
kernel_virtual_base = 0xFFFFFFFF80000000

abbrev pub kernel_framebuffer_virtual_base : ℕ
kernel_framebuffer_virtual_base = 0xFFFF900000000000

-- The pages from `addr` on below `end`, in the order of the loop. The fuel comes first.
unfoldable pub each_page_below :
    ℕ → ℕ → ℕ → (ℕ → PageState → Outcome PageState) → PageState → Outcome PageState
each_page_below zero addr end body s = no_fuel
each_page_below (suc fuel) addr end body s = elim (ltb addr end) [
  | true ↦ body addr s >>= each_page_below fuel (addr + page_size) end body
  | false ↦ done s
]

-- A range with the fuel that it needs.
abbrev pub map_range : ℕ → ℕ → (ℕ → PageState → Outcome PageState) → PageState → Outcome PageState
map_range start end body s = each_page_below ((end - start) / page_size + 2) start end body s

-- The pages of a segment: the rounds that are left, the index.
unfoldable pub each_page :
    ℕ → ℕ → ℕ → (ℕ → PageState → Outcome PageState) → PageState → Outcome PageState
each_page zero i start body s = done s
each_page (suc rounds) i start body s =
    body ((start + i * page_size) % 2 ^ 64) s >>= each_page rounds (i + 1) start body

-- The segments of the memory map: the rounds that are left, the address of the next one, the size.
unfoldable pub each_segment :
    ℕ
    → ℕ
    → ℕ
    → (EfiMemoryDescriptor → PageState → Outcome PageState)
    → PageState
    → Outcome PageState
each_segment zero address size body s = done s
each_segment (suc rounds) address size body s =
    body (descriptor_at s.1 address) s >>= each_segment rounds ((address + size) % 2 ^ 64) size body

-- Conventional memory, and what the loader and the boot services used.
abbrev pub should_map : ℕ → Bool
should_map region = (region == 7) || (leb 1 region && leb region 4)

unfoldable pub init_page_tables :
    FramebufferInfo → MemoryMapInfo → PageState → Outcome (ℕ × PageState)
init_page_tables fb map (pmm, mem) =
    let (page?, pmm') = alloc_page pmm mem in
    let fb_size = fb.framebuffer_height * fb.framebuffer_width * (fb.framebuffer_bpp / 8) in
    do
      pml4 ← unwrap page?
      s1 ←
          each_segment (map.memory_map_size / map.descriptor_size) map.memory_map_addr
            map.descriptor_size
            (λ d s.
              if should_map d.region_type
              then each_page d.num_pages 0 d.physical_start
                  (λ phys. map_page pml4 phys phys (present_flag + writable) false) s
              else done s)
            (pmm', zero_out_page pml4 mem)
      s2 ←
          map_range s1.0.kernel_start s1.0.kernel_end
            (λ addr s.
              map_page pml4 addr addr (present_flag + writable) false s
              >>= map_page pml4 (addr + kernel_virtual_base) addr (present_flag + writable) false)
            s1
      s3 ←
          map_range (frame map.stack_base_addr) (map.stack_base_addr + map.stack_size)
            (λ addr s.
              map_page pml4 addr addr (present_flag + writable + nx) false s
              >>= map_page pml4 (addr + kernel_virtual_base) addr (present_flag + writable + nx)
                  false)
            s2
      s4 ←
          map_range (frame fb.framebuffer_addr) (fb.framebuffer_addr + fb_size)
            (λ addr. map_page pml4 addr addr (present_flag + writable) false) s3
      s5 ←
          map_range (frame map.memory_map_addr) (map.memory_map_addr + map.memory_map_size)
            (λ addr. map_page pml4 addr addr (present_flag + writable) false) s4
      done (pml4, s5)

-- The regions of the direct map: also the runtime services, and the tables of ACPI.
abbrev pub should_map_direct : ℕ → Bool
should_map_direct region = leb 1 region && leb region 10 && not (region == 8)

abbrev pub direct_flags : ℕ → ℕ
direct_flags region = if region == 5 then present_flag + writable else present_flag + writable + nx

-- A page of device registers.
abbrev map_device : ℕ → ℕ → PageState → Outcome PageState
map_device pml4 phys =
    map_page pml4 (kernel_physical_map_base + phys) phys (present_flag + writable + pwt + pcd) false

unfoldable pub build_direct_map : ℕ → MemoryMapInfo → PageState → Outcome PageState
build_direct_map pml4 map s = do
  s1 ←
      each_segment (map.memory_map_size / map.descriptor_size) map.memory_map_addr
        map.descriptor_size
        (λ d s.
          if should_map_direct d.region_type
          then each_page d.num_pages 0 d.physical_start
              (λ phys.
                map_page pml4 ((kernel_physical_map_base + phys) % 2 ^ 64) phys
                  (direct_flags d.region_type) false)
              s
          else done s)
        s
  s2 ← map_device pml4 0xFEE00000 s1
  s3 ← map_device pml4 0xFEC00000 s2
  map_device pml4 0xFED00000 s3

-- The frame buffer, one page of the two ranges at a time.
unfoldable pub map_framebuffer_higher_half : ℕ → FramebufferInfo → PageState → Outcome PageState
map_framebuffer_higher_half pml4 fb s =
    let fb_size = fb.framebuffer_height * fb.framebuffer_width * (fb.framebuffer_bpp / 8) in
    let start = frame fb.framebuffer_addr in
    map_range start (frame (fb.framebuffer_addr + fb_size + 4095))
      (λ phys.
        map_page pml4 (kernel_framebuffer_virtual_base + (phys - start)) phys
          (present_flag + writable) false)
      s

-- The lower half of the root table is cleared.
abbrev pub remove_identity_maps : ℕ → (ℕ → ℕ) → ℕ → ℕ
remove_identity_maps pml4_phys mem =
    zero_words 256 0 ((pml4_phys + kernel_physical_map_base) % 2 ^ 64) mem

abbrev pub reclaimable : ℕ → Bool
reclaimable region = leb 1 region && leb region 4

-- The tests that keep a page from being reclaimed.
unfoldable pub kept : PhysicalMemoryManager → MemoryMapInfo → ℕ → Bool
kept pmm map page_start =
    let page_end = (page_start + page_size - 1) % 2 ^ 64 in
    (page_start == 0)
    || page_overlaps page_start page_end map.memory_map_addr
        ((map.memory_map_addr + map.memory_map_size) % 2 ^ 64)
    || page_overlaps page_start page_end pmm.kernel_start pmm.kernel_end
    || page_overlaps page_start page_end pmm.kernel_stack_base_addr
        ((pmm.kernel_stack_base_addr + pmm.kernel_stack_size) % 2 ^ 64)

unfoldable pub reclaim_boot_memory : MemoryMapInfo → PageState → Outcome PageState
reclaim_boot_memory map s =
    each_segment (map.memory_map_size / map.descriptor_size)
      ((map.memory_map_addr + kernel_physical_map_base) % 2 ^ 64) map.descriptor_size
      (λ d s.
        if reclaimable d.region_type
        then each_page d.num_pages 0 d.physical_start
            (λ page s. if kept s.0 map page then done s else done (free_page page s.0 s.1)) s
        else done s)
      s
