-- ===== src/Tests/Helpers.antt =====
-- The helper functions, the pages and the keyboard at concrete inputs.
use crap_os.Base.{
  inl, inr, ◌↔◌, ℕ, ◌≡◌, ◌≢◌, refl, some, List, [], ◌∷◌, All, arith, true, false, if◌then◌else◌,
  ◌==◌,
}
use crap_os.Helpers.Hex.{hex_to_bytes}
use crap_os.Helpers.Hex.Accepts.{IsHexDigit, Parsed, hex_to_bytes-Parsed_iff}
use crap_os.Keyboard.{Modifiers, process_scancode}
use crap_os.Keyboard.Letters.{process_scancode-letter}
use crap_os.Pages.{FramebufferInfo, MemoryMapInfo, PhysicalMemoryManager, unused}

-- "4aF", with and without its prefix.
abbrev odd_digits : List ℕ
odd_digits = b'4' ∷ b'a' ∷ b'F' ∷ []

abbrev odd_text : List ℕ
odd_text = b'0' ∷ b'x' ∷ odd_digits

hex_to_bytes-Parsed_iff_example :
    ((odd_digits ≢ []) × All IsHexDigit odd_digits) ↔ Parsed odd_digits (hex_to_bytes odd_text)
hex_to_bytes-Parsed_iff_example = hex_to_bytes-Parsed_iff odd_text odd_digits (inr (inl refl))

abbrev shifted_keys : Modifiers
shifted_keys = record {
  lshift_held = true;
  rshift_held = false;
  caps_active = false;
  extended = false;
  ctrl_held = false;
  alt_held = true;
}

-- The key of the letter q.
process_scancode-letter_example : process_scancode 0x10 shifted_keys ≡ (some b'Q', shifted_keys)
process_scancode-letter_example = process_scancode-letter 16 shifted_keys (omega arith) refl

abbrev screen : FramebufferInfo
screen = record {
  framebuffer_addr = 0x80000000;
  framebuffer_width = 1024;
  framebuffer_height = 768;
  framebuffer_bpp = 32;
}

abbrev memory_map : MemoryMapInfo
memory_map = record {
  memory_map_addr = 0x9000;
  memory_map_size = 96;
  descriptor_size = 48;
  kernel_load_addr = 0x100000;
  kernel_image_size = 0x2000;
  stack_base_addr = 0x200000;
  stack_size = 0x4000;
}

abbrev no_pages : PhysicalMemoryManager
no_pages = unused screen memory_map 0x100000 0x102000

abbrev blank : ℕ → ℕ
blank a = 0

-- Four pages from 0xFE000 on, of which the last two hold the kernel.
abbrev four_pages : ℕ → ℕ
four_pages a =
    if a == 0x9000 then 7 else if a == 0x9008 then 0xFE000 else if a == 0x9018 then 4 else 0

abbrev one_page : PhysicalMemoryManager
one_page = record no_pages { free_list_head = some 0x5000; free_pages = 1 }
