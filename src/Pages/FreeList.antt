-- ===== src/Pages/FreeList.antt =====
-- The free list as a list of pages.
use crap_os.Base.{
  ℕ, ◌+◌, ◌^◌, ◌<◌, ◌≡◌, ◌≢◌, refl, Bool, true, false, Option, none, some, List, [], ◌∷◌, ◌==◌,
  if◌then◌else◌, arith, update, length, All,
}
use crap_os.Pages.{PhysicalMemoryManager, virt, unwrap_or_zero, free_page, alloc_page}

-- The pages of a list are chained from a head on: a page holds the next one, and the last one zero.
-- No page is the null page.
abbrev pub Chain : Bool → (ℕ → ℕ) → Option ℕ → List ℕ → Type 0
Chain higher mem head [] = head ≡ none
Chain higher mem head (p ∷ ps) =
    (head ≡ some p)
    × (0 < p)
    × (p < 2 ^ 64)
    × Chain higher mem (if mem (virt higher p) == 0 then none else some (mem (virt higher p))) ps

pub record IsFreeList (pmm : PhysicalMemoryManager) (mem : ℕ → ℕ) (pages : List ℕ) : Type 0 where
  pub chain : Chain pmm.is_higher_half mem pmm.free_list_head pages
  pub count : pmm.free_pages ≡ length pages
  pub bound : length pages < 2 ^ 64

-- Pages are apart where the kernel sees them.
virt-injective :
    (higher : Bool) (p q : ℕ) → p < 2 ^ 64 → q < 2 ^ 64 → p ≢ q → virt higher p ≢ virt higher q
virt-injective true p q hp hq ne e = ne (omega arith)
virt-injective false p q hp hq ne e = ne e

-- A write outside the pages of a chain keeps the chain.
Chain-update :
    (higher : Bool) (mem : ℕ → ℕ) (head : Option ℕ) (ps : List ℕ) (a v : ℕ)
    → a < 2 ^ 64
    → All (λ p. p ≢ a) ps
    → Chain higher mem head ps
    → Chain higher (update mem (virt higher a) v) head ps
Chain-update higher mem head [] a v small apart h = h
Chain-update higher mem head (p ∷ ps) a v small apart (at, pos, bound, rest) =
    let other = virt-injective higher p a bound small apart.0 in
    let same : update mem (virt higher a) v (virt higher p) ≡ mem (virt higher p) =
      ground (arith, other) in
    (
      at,
      pos,
      bound,
      rw same (
          Chain-update higher mem
            (if mem (virt higher p) == 0 then none else some (mem (virt higher p))) ps a v small
            apart.1 rest),
    )

-- A page that is not null, fits 64 bits and is not on the list comes to the front of the list when it
-- is freed. The count of pages stays below `2 ^ 64`.
pub free_page-IsFreeList :
    (pmm : PhysicalMemoryManager) (mem : ℕ → ℕ) (pages : List ℕ) (a : ℕ)
    → IsFreeList pmm mem pages
    → 0 < a
    → a < 2 ^ 64
    → All (λ p. p ≢ a) pages
    → length pages + 1 < 2 ^ 64
    → IsFreeList (free_page a pmm mem).0 (free_page a pmm mem).1 (a ∷ pages)
unfolding free_page
free_page-IsFreeList pmm mem pages a h pos small apart room = record {
  chain =
      let kept =
        Chain-update pmm.is_higher_half mem pmm.free_list_head pages a
          (unwrap_or_zero pmm.free_list_head) small apart h.chain in
      let here : update mem (virt pmm.is_higher_half a) (unwrap_or_zero pmm.free_list_head)
            (virt pmm.is_higher_half a)
          ≡ unwrap_or_zero pmm.free_list_head =
        ground arith in
      (refl, pos, small, rw (here, link pages h.chain) kept);
  count = (let n = h.count in omega arith);
  bound = omega arith;
}
  where
    link :
        (ps : List ℕ)
        → Chain pmm.is_higher_half mem pmm.free_list_head ps
        → (if unwrap_or_zero pmm.free_list_head == 0
            then none
            else some (unwrap_or_zero pmm.free_list_head))
          ≡ pmm.free_list_head
    link [] e = rw e refl
    link (p ∷ ps) (e, more, _, _) = rw e (ground arith)

-- The allocator hands out the front of a list that is not empty, and leaves the rest.
pub alloc_page-IsFreeList :
    (pmm : PhysicalMemoryManager) (mem : ℕ → ℕ) (a : ℕ) (pages : List ℕ)
    → IsFreeList pmm mem (a ∷ pages)
    → ((alloc_page pmm mem).0 ≡ some a) × IsFreeList (alloc_page pmm mem).1 mem pages
unfolding alloc_page
alloc_page-IsFreeList pmm mem a pages h =
    let (at, pos, small, rest) = h.chain in
    let n = h.count in
    let b = h.bound in
    rw at (refl, record { chain = rest; count = omega arith; bound = omega arith })

pub alloc_page-none :
    (pmm : PhysicalMemoryManager) (mem : ℕ → ℕ)
    → IsFreeList pmm mem []
    → alloc_page pmm mem ≡ (none, pmm)
unfolding alloc_page
alloc_page-none pmm mem h = rw h.chain refl
