-- ===== src/Pages.antt =====
-- The allocator of physical pages (crap_os/src/memory_manager/pmm.rs): a list of free pages that is
-- threaded through the pages themselves. The memory is a function from the address of a word.
pub mod Init
pub mod FreeList
use crap_os.Base.{
  ℕ, zero, suc, ◌+◌, ◌-◌, ◌*◌, ◌/◌, ◌%◌, ◌^◌, ◌<◌, ◌≡◌, Bool, true, false, ◌&&◌, ◌||◌, not, Option,
  none, some, List, [], ◌∷◌, leb, ◌==◌, if◌then◌else◌, update,
}

abbrev pub kernel_physical_map_base : ℕ
kernel_physical_map_base = 0xFFFF800000000000

abbrev pub page_size : ℕ
page_size = 0x1000

pub record FramebufferInfo : Type 0 where
  pub framebuffer_addr : ℕ
  pub framebuffer_width : ℕ
  pub framebuffer_height : ℕ
  pub framebuffer_bpp : ℕ

pub record MemoryMapInfo : Type 0 where
  pub memory_map_addr : ℕ
  pub memory_map_size : ℕ
  pub descriptor_size : ℕ
  pub kernel_load_addr : ℕ
  pub kernel_image_size : ℕ
  pub stack_base_addr : ℕ
  pub stack_size : ℕ

pub record PhysicalMemoryManager : Type 0 where
  pub kernel_load_addr : ℕ
  pub kernel_image_size : ℕ
  pub kernel_stack_base_addr : ℕ
  pub kernel_stack_size : ℕ
  pub framebuffer_addr : ℕ
  pub framebuffer_size : ℕ
  pub memory_map_addr : ℕ
  pub memory_map_size : ℕ
  pub memory_map_desc_size : ℕ
  pub kernel_start : ℕ
  pub kernel_end : ℕ
  pub is_higher_half : Bool
  pub free_list_head : Option ℕ
  pub free_pages : ℕ

-- Where the kernel sees a physical page.
abbrev pub virt : Bool → ℕ → ℕ
virt higher address = if higher then (address + kernel_physical_map_base) % 2 ^ 64 else address

abbrev pub unwrap_or_zero : Option ℕ → ℕ
unwrap_or_zero none = 0
unwrap_or_zero (some a) = a

-- The page has an address at which the memory can be written; a write elsewhere, which would fault, is the caller's.
unfoldable pub free_page : ℕ → PhysicalMemoryManager → (ℕ → ℕ) → PhysicalMemoryManager × (ℕ → ℕ)
free_page address pmm mem = (
  record pmm { free_list_head = some address; free_pages = (pmm.free_pages + 1) % 2 ^ 64 },
  update mem (virt pmm.is_higher_half address) (unwrap_or_zero pmm.free_list_head),
)

unfoldable pub alloc_page : PhysicalMemoryManager → (ℕ → ℕ) → Option ℕ × PhysicalMemoryManager
alloc_page pmm mem = elim pmm.free_list_head [
  | none ↦ (none, pmm)
  | some head ↦
      let next = mem (virt pmm.is_higher_half head) in
      (
        some head,
        record pmm {
          free_list_head = if next == 0 then none else some next;
          free_pages = (pmm.free_pages + (2 ^ 64 - 1)) % 2 ^ 64;
        },
      )
]

unfoldable pub page_overlaps : ℕ → ℕ → ℕ → ℕ → Bool
page_overlaps page_start page_end region_start region_end =
    leb page_start region_end && leb region_start page_end

pub record EfiMemoryDescriptor : Type 0 where
  pub region_type : ℕ
  pub physical_start : ℕ
  pub num_pages : ℕ

abbrev pub efi_conventional_memory : ℕ
efi_conventional_memory = 7

-- The three fields that the allocator reads, at their offsets.
abbrev pub descriptor_at : (ℕ → ℕ) → ℕ → EfiMemoryDescriptor
descriptor_at mem address = record {
  region_type = mem address % 2 ^ 32;
  physical_start = mem (address + 8);
  num_pages = mem (address + 24);
}

-- The tests that skip a page.
unfoldable pub reserved : PhysicalMemoryManager → ℕ → Bool
reserved pmm page_start_addr =
    let page_end_addr = (page_start_addr + page_size - 1) % 2 ^ 64 in
    (page_start_addr == 0)
    || page_overlaps page_start_addr page_end_addr pmm.memory_map_addr
        ((pmm.memory_map_addr + pmm.memory_map_size) % 2 ^ 64)
    || page_overlaps page_start_addr page_end_addr pmm.kernel_start pmm.kernel_end
    || page_overlaps page_start_addr page_end_addr pmm.kernel_stack_base_addr
        ((pmm.kernel_stack_base_addr + pmm.kernel_stack_size) % 2 ^ 64)
    || page_overlaps page_start_addr page_end_addr pmm.framebuffer_addr
        ((pmm.framebuffer_addr + pmm.framebuffer_size) % 2 ^ 64)

-- The pages of a region from the page `i` on: the rounds that are left come first.
unfoldable pub free_region :
    ℕ → ℕ → ℕ → PhysicalMemoryManager × (ℕ → ℕ) → PhysicalMemoryManager × (ℕ → ℕ)
free_region zero i start s = s
free_region (suc rounds) i start (pmm, mem) =
    let page = (start + i * page_size) % 2 ^ 64 in
    let next = if reserved pmm page then (pmm, mem) else free_page page pmm mem in
    free_region rounds (i + 1) start next

-- The segments of the memory map from an address on.
unfoldable pub free_segments :
    ℕ → ℕ → PhysicalMemoryManager × (ℕ → ℕ) → PhysicalMemoryManager × (ℕ → ℕ)
free_segments zero address s = s
free_segments (suc rounds) address (pmm, mem) =
    let d = descriptor_at mem address in
    let freed = free_region d.num_pages 0 d.physical_start (pmm, mem) in
    let next = if d.region_type == efi_conventional_memory then freed else (pmm, mem) in
    free_segments rounds ((address + pmm.memory_map_desc_size) % 2 ^ 64) next

abbrev pub unused : FramebufferInfo → MemoryMapInfo → ℕ → ℕ → PhysicalMemoryManager
unused fb map kernel_start kernel_end = record {
  kernel_load_addr = map.kernel_load_addr;
  kernel_image_size = map.kernel_image_size;
  kernel_stack_base_addr = map.stack_base_addr;
  kernel_stack_size = map.stack_size;
  framebuffer_addr = fb.framebuffer_addr;
  framebuffer_size =
      (fb.framebuffer_height * fb.framebuffer_width * (fb.framebuffer_bpp / 8)) % 2 ^ 64;
  memory_map_addr = map.memory_map_addr;
  memory_map_size = map.memory_map_size;
  memory_map_desc_size = map.descriptor_size;
  kernel_start = kernel_start;
  kernel_end = kernel_end;
  is_higher_half = false;
  free_list_head = none;
  free_pages = 0;
}

-- The linker's symbols are arguments.
unfoldable pub init :
    FramebufferInfo → MemoryMapInfo → ℕ → ℕ → (ℕ → ℕ) → PhysicalMemoryManager × (ℕ → ℕ)
init fb map kernel_start kernel_end mem =
    free_segments (map.memory_map_size / map.descriptor_size) map.memory_map_addr
      (unused fb map kernel_start kernel_end, mem)
