-- ===== src/Paging/Nx.antt =====
-- What `get_physical_addr` reads from an entry, the flag of the top bit included.
use crap_os.Base.{
  ℕ, ◌+◌, ◌*◌, ◌/◌, ◌%◌, ◌^◌, ◌<◌, ◌≤◌, ◌≡◌, ap, ap₂, ◌∙◌, Bool, true, Option, some, List, length,
  if◌then◌else◌, arith, bit_or,
}
use crap_os.Base.Bits.{bit_or-zero, bit_or_comm, or_shifted}
use crap_os.Base.Bits.Split.{or_lt, or_split}
use crap_os.Pages.{virt}
use crap_os.Paging.{PageState, frame, get_physical_addr, leaf, map_page}
use crap_os.Paging.Map.{map_page-translates}
use crap_os.Paging.Way.{same_page}
use crap_os.Paging.Tables.{IsSound}
use crap_os.Tasks.Outcome.{done}

-- Of an entry for a frame with low flags and, if `n` is one, the flag of bit 63, the frame that is
-- read has bit 63 as well.
frame-leaf :
    (physical low n : ℕ)
    → physical < 2 ^ 63
    → low < 4096
    → n < 2
    → frame (leaf physical (low + n * 2 ^ 63)) ≡ frame physical + n * 2 ^ 63
frame-leaf physical low n small hl hn =
    let a = physical / 4096 in
    let b = n * 2 ^ 51 in
    let fa : frame physical ≡ a * 2 ^ 12 + 0 = omega arith in
    let fb : low + n * 2 ^ 63 ≡ b * 2 ^ 12 + low = omega arith in
    let high : bit_or a b ≡ b + a = bit_or_comm a b ∙ or_shifted 51 n a (omega arith) in
    let merged : bit_or (frame physical) (low + n * 2 ^ 63) ≡ bit_or a b * 2 ^ 12 + bit_or 0 low =
      ap₂ bit_or fa fb ∙ or_split 12 a b 0 low (omega arith) hl in
    let lt = or_lt 12 0 low (omega arith) hl in
    let whole : leaf physical (low + n * 2 ^ 63)
        ≡ bit_or (bit_or a b) 0 * 2 ^ 12 + bit_or (bit_or 0 low) 1 =
      ap (λ x. bit_or x 1) merged ∙ or_split 12 (bit_or a b) 0 (bit_or 0 low) 1 lt (omega arith) in
    let lt' = or_lt 12 (bit_or 0 low) 1 lt (omega arith) in
    let z = bit_or-zero (bit_or a b) in rw whole (omega (arith, high, lt', z))

-- A page is mapped with flags of the low twelve bits, and with the flag NX of bit 63 if `n` is one.
-- Then the address that is read for it is that of the frame with its offset, plus 2 ^ 63 if `n` is
-- one.
pub get_physical_addr-nx :
    (label : ℕ → Option (List ℕ)) (root : ℕ) (s : PageState) (free : List ℕ)
    (virtual_addr physical_addr low n : ℕ) (user : Bool)
    → IsSound label root s free
    → 3 ≤ length free
    → physical_addr < 2 ^ 63
    → low < 4096
    → n < 2
    → (s' : PageState) × (map_page
          (virt true root)
          virtual_addr
          physical_addr
          (low + n * 2 ^ 63)
          user
          s
        ≡ done s')
      × (get_physical_addr (virt true root) virtual_addr s'.1
          ≡ some (frame physical_addr + virtual_addr % 4096 + n * 2 ^ 63))
      × (s'.0.is_higher_half ≡ true)
get_physical_addr-nx label root s free v physical low n user h room small hl hn =
    let (label', s', free', result, sound, cost, reads) =
      map_page-translates label root s free v physical (low + n * 2 ^ 63) user h room in
    let here : same_page v v ≡ true = ground arith in
    let off : v % 4096 < 2 ^ 12 = omega arith in
    let hi : frame physical + n * 2 ^ 63 ≡ (physical / 4096 + n * 2 ^ 51) * 2 ^ 12 = omega arith in
    (
      s',
      result,
      reads v
          ∙ ap
              (λ b.
                if b
                then some (bit_or (frame (leaf physical (low + n * 2 ^ 63))) (v % 4096))
                else get_physical_addr (virt true root) v s.1)
              here
          ∙ ap (λ f. some (bit_or f (v % 4096))) (frame-leaf physical low n small hl hn ∙ hi)
          ∙ ap some (or_shifted 12 (physical / 4096 + n * 2 ^ 51) (v % 4096) off ∙ omega arith),
      sound.high,
    )
