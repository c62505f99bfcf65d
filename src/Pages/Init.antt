-- ===== src/Pages/Init.antt =====
-- What `init` leaves alone.
use crap_os.Base.{
  ◌↔◌, ℕ, ◌+◌, ◌^◌, ◌<◌, ◌≤◌, ◌≡◌, true, false, ◌&&◌, leb, arith, Bool-cases, inl, inr,
}
use crap_os.Pages.{PhysicalMemoryManager, page_overlaps, page_size}

-- For two ranges that are not reversed, the test says whether some address lies in both of them, both
-- ends of each included.
pub page_overlaps_iff :
    (page_start page_end region_start region_end : ℕ)
    → page_start ≤ page_end
    → region_start ≤ region_end
    → (page_overlaps page_start page_end region_start region_end ≡ true)
      ↔ ((a : ℕ) × (page_start ≤ a) × (a ≤ page_end) × (region_start ≤ a) × (a ≤ region_end))
unfolding page_overlaps
page_overlaps_iff p q r s h k = (there p q r s h k, λ (a, b, c, d, e). ground arith)
  where
    there :
        (p q r s : ℕ)
        → p ≤ q
        → r ≤ s
        → (leb p s && leb r q) ≡ true
        → (a : ℕ) × (p ≤ a) × (a ≤ q) × (r ≤ a) × (a ≤ s)
    there p q r s h k o = elim (Bool-cases (leb p r)) [
      | inl e ↦ (r, ground arith, ground arith, ground arith, ground arith)
      | inr e ↦ (p, ground arith, ground arith, ground arith, ground arith)
    ]

-- A byte of the page at `a`.
abbrev pub InPage : ℕ → ℕ → Type 0
InPage a b = (a ≤ b) × (b < a + page_size)

-- A page, by its address, that is not to be given out: the null page, and each page that has a byte in
-- common with the memory map, the kernel, its stack or the framebuffer. Each region ends below `2 ^ 64`.
pub data Protected (pmm : PhysicalMemoryManager) (a : ℕ) : Type 0 where
  null_page : a ≡ 0 → Protected pmm a
  memory_map :
      (b : ℕ)
      → InPage a b
      → pmm.memory_map_addr ≤ b
      → b ≤ pmm.memory_map_addr + pmm.memory_map_size
      → pmm.memory_map_addr + pmm.memory_map_size < 2 ^ 64
      → Protected pmm a
  kernel : (b : ℕ) → InPage a b → pmm.kernel_start ≤ b → b ≤ pmm.kernel_end → Protected pmm a
  kernel_stack :
      (b : ℕ)
      → InPage a b
      → pmm.kernel_stack_base_addr ≤ b
      → b ≤ pmm.kernel_stack_base_addr + pmm.kernel_stack_size
      → pmm.kernel_stack_base_addr + pmm.kernel_stack_size < 2 ^ 64
      → Protected pmm a
  framebuffer :
      (b : ℕ)
      → InPage a b
      → pmm.framebuffer_addr ≤ b
      → b ≤ pmm.framebuffer_addr + pmm.framebuffer_size
      → pmm.framebuffer_addr + pmm.framebuffer_size < 2 ^ 64
      → Protected pmm a

-- The allocator as `init` finds it, with another list.
record SameMap (pmm pmm' : PhysicalMemoryManager) : Type 0 where
  low : pmm'.is_higher_half ≡ false
  keep : (a : ℕ) → Protected pmm a → Protected pmm' a
