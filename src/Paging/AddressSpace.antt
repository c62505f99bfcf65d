-- ===== src/Paging/AddressSpace.antt =====
-- The address space of a process (crap_os/src/memory_manager/address_space.rs).
use crap_os.Base.{
  ap, ◌⊎◌, ℕ, zero, suc, ◌+◌, ◌-◌, ◌*◌, ◌<◌, ◌≤◌, ◌≡◌, ◌≢◌, refl, ◌∙◌, sym, true, none, ◌==◌, leb,
  if◌then◌else◌, update, arith, inl, inr, Bool-cases,
}
use crap_os.Pages.{alloc_page, page_size, virt}
use crap_os.Paging.{
  frame, absent, PageState, get_physical_addr, pml4_index, present_flag, slot, user, writable,
  zero_words,
}
use crap_os.Paging.Boot.{nx}
use crap_os.Paging.Manager.{MemoryManager, manager_map_page}
use crap_os.Paging.Walk.{
  offset, get_physical_addr-walk, index-lt, index, walk, zero_words-miss, IsFrame, entry,
  entry-injective, zero_words-hit,
}
use crap_os.Tasks.Outcome.{Outcome, done, ◌>>=◌, unwrap}

pub record AddressSpace : Type 0 where
  pub pml4_phys : ℕ
  pub user_stack_top : ℕ
  pub user_stack_pages : ℕ

abbrev pub max_stack_pages : ℕ
max_stack_pages = 4

abbrev pub stack_top : ℕ
stack_top = 0x7FFFFFFF0000

-- The entries from the index `i` on are copied: the rounds that are left come first.
unfoldable pub copy_entries : ℕ → ℕ → ℕ → ℕ → (ℕ → ℕ) → ℕ → ℕ
copy_entries zero i from to mem = mem
copy_entries (suc rounds) i from to mem =
    copy_entries rounds (i + 1) from to (update mem (slot to i) (mem (slot from i)))

-- The root table of a process: an empty lower half, and the upper half of the kernel.
abbrev pub new_root : ℕ → ℕ → (ℕ → ℕ) → ℕ → ℕ
new_root kernel_pml4 pml4 mem = copy_entries 256 256 kernel_pml4 pml4 (zero_words 512 0 pml4 mem)

-- The pages of the stack: the rounds that are left, the index.
unfoldable pub map_stack : ℕ → ℕ → MemoryManager → ℕ → PageState → Outcome PageState
map_stack zero i mm pml4_phys s = done s
map_stack (suc rounds) i mm pml4_phys (pmm, mem) = do
  phys ← unwrap (alloc_page pmm mem).0
  s ←
      manager_map_page mm pml4_phys (stack_top - (i + 1) * page_size) phys
        (present_flag + writable + user + nx) ((alloc_page pmm mem).1, mem)
  map_stack rounds (i + 1) mm pml4_phys s

unfoldable pub init_address_space :
    MemoryManager → ℕ → PageState → Outcome (AddressSpace × PageState)
init_address_space mm kernel_pml4_phys (pmm, mem) = do
  pml4_phys ← unwrap (alloc_page pmm mem).0
  s ←
      map_stack max_stack_pages 0 mm pml4_phys
        ((alloc_page pmm mem).1, new_root (virt true kernel_pml4_phys) (virt true pml4_phys) mem)
  done (
    record {
      pml4_phys = pml4_phys;
      user_stack_top = stack_top;
      user_stack_pages = max_stack_pages;
    },
    s,
  )

abbrev pub from_existing : ℕ → AddressSpace
from_existing kernel_pml4_phys = record {
  pml4_phys = kernel_pml4_phys;
  user_stack_top = stack_top;
  user_stack_pages = max_stack_pages;
}

copy_entries-miss :
    (rounds i from to : ℕ) (mem : ℕ → ℕ) (b : ℕ)
    → ((j : ℕ) → i ≤ j → j < i + rounds → b ≢ slot to j)
    → copy_entries rounds i from to mem b ≡ mem b
unfolding copy_entries
copy_entries-miss zero i from to mem b h = refl
copy_entries-miss (suc rounds) i from to mem b h =
    let ne = h i (omega arith) (omega arith) in
    copy_entries-miss rounds (i + 1) from to (update mem (slot to i) (mem (slot from i))) b
      (λ j lo hi. h j (omega arith) (omega arith))
    ∙ ground (arith, ne)

copy_entries-hit :
    (rounds i from to j : ℕ) (mem : ℕ → ℕ)
    → i ≤ j
    → j < i + rounds
    → ((k : ℕ) → k < i + rounds → slot from j ≢ slot to k)
    → copy_entries rounds i from to mem (slot to j) ≡ mem (slot from j)
unfolding copy_entries
copy_entries-hit zero i from to j mem lo hi apart = absurd (omega arith)
copy_entries-hit (suc rounds) i from to j mem lo hi apart =
    let mem' = update mem (slot to i) (mem (slot from i)) in
    elim (Bool-cases (i == j)) [
      | inl e ↦
          let same : i ≡ j = ground arith in
          copy_entries-miss rounds (i + 1) from to mem' (slot to j) (λ k lo' hi' e'. omega arith)
          ∙ ground (arith, same)
      | inr e ↦
          let ne = apart i (omega arith) in
          let other : i ≢ j = λ e'. ground arith in
          copy_entries-hit rounds (i + 1) from to j mem' (omega (arith, other)) (omega arith)
            (λ k lt. apart k (omega arith))
          ∙ ground (arith, ne)
    ]

-- The tables of the walk for an address, from a page on with some levels below it, are pages other than `p`.
abbrev pub Avoids : ℕ → ℕ → ℕ → ℕ → (ℕ → ℕ) → Type 0
Avoids zero p q v mem = IsFrame q × (q ≢ p)
Avoids (suc k) p q v mem =
    IsFrame q
    × (q ≢ p)
    × ((absent (mem (entry q (index (suc k) v))) ≡ true)
        ⊎ Avoids k p (frame (mem (entry q (index (suc k) v)))) v mem)

module _ (kernel p : ℕ) (mem : ℕ → ℕ) (is_frame : IsFrame p) where
  abbrev after : ℕ → ℕ
  after = new_root (virt true kernel) (virt true p) mem

  elsewhere : (q i : ℕ) → IsFrame q → i < 512 → q ≢ p → after (entry q i) ≡ mem (entry q i)
  elsewhere q i good small ne =
      let apart : (j : ℕ) → j < 512 → entry q i ≢ entry p j =
        λ j lt e. ne (entry-injective q p i j good is_frame small lt e).0 in
      copy_entries-miss 256 256 (virt true kernel) (virt true p)
        (zero_words 512 0 (virt true p) mem) (entry q i) (λ j lo hi. apart j (omega arith))
      ∙ zero_words-miss 512 0 (virt true p) mem (entry q i) (λ j lo hi. apart j (omega arith))

  walk-same : (k q v : ℕ) → Avoids k p q v mem → walk k q v after ≡ walk k q v mem
  unfolding walk
  walk-same zero q v (good, ne) = rw (elsewhere q (index 0 v) good (index-lt 0 v) ne) refl
  walk-same (suc k) q v (good, ne, inl e) =
      rw (elsewhere q (index (suc k) v) good (index-lt (suc k) v) ne, e) refl
  walk-same (suc k) q v (good, ne, inr below) =
      rw (elsewhere q (index (suc k) v) good (index-lt (suc k) v) ne, walk-same k _ v below) refl

  root-entry :
      (i : ℕ)
      → i < 512
      → IsFrame kernel
      → kernel ≢ p
      → after (entry p i) ≡ (if leb 256 i then mem (entry kernel i) else 0)
  root-entry i small good ne =
      let cleared = zero_words 512 0 (virt true p) mem in
      let apart : (j : ℕ) → j < 512 → entry kernel i ≢ entry p j =
        λ j lt e. ne (entry-injective kernel p i j good is_frame small lt e).0 in
      elim (Bool-cases (leb 256 i)) [
        | inl e ↦
            let copied =
              copy_entries-hit 256 256 (virt true kernel) (virt true p) i cleared (ground arith)
                (omega arith) apart in
            let kept =
              zero_words-miss 512 0 (virt true p) mem (entry kernel i)
                (λ j lo hi. apart j (omega arith)) in
            rw e (copied ∙ kept)
        | inr e ↦
            let missed =
              copy_entries-miss 256 256 (virt true kernel) (virt true p) cleared (entry p i)
                (λ k lo hi c.
                  ground
                    (arith, (entry-injective p p i k is_frame is_frame small (omega arith) c).1)) in
            rw e (missed ∙ zero_words-hit 512 0 (virt true p) mem i (omega arith) (omega arith))
      ]

  walk-root :
      (v : ℕ)
      → Avoids 3 p kernel v mem
      → walk 3 p v after ≡ (if leb 256 (index 3 v) then walk 3 kernel v mem else none)
  unfolding walk
  walk-root v (good, ne, below) =
      let top = root-entry (index 3 v) (index-lt 3 v) good ne in
      elim (Bool-cases (leb 256 (index 3 v))) [
        | inl e ↦ elim below [
          | inl a ↦ rw (e, top) (rw (e, a) refl)
          | inr b ↦ rw (e, top) (rw e (rw (walk-same 2 _ v b) refl))
        ]
        | inr e ↦ rw (e, top) (rw e refl)
      ]

-- The page `p` is none of the tables of the kernel's translation of an address. Then the address translates in the tables of a
-- process with the root `p` as it did in those of the kernel if it is in the upper half, and is not
-- mapped if it is in the lower half. In the tables of the kernel it translates as before.
pub new_root-translates :
    (kernel p v : ℕ) (mem : ℕ → ℕ)
    → IsFrame p
    → Avoids 3 p kernel v mem
    → (get_physical_addr (virt true p) v (new_root (virt true kernel) (virt true p) mem)
        ≡ (if leb 256 (pml4_index v) then get_physical_addr (virt true kernel) v mem else none))
      × (get_physical_addr (virt true kernel) v (new_root (virt true kernel) (virt true p) mem)
          ≡ get_physical_addr (virt true kernel) v mem)
new_root-translates kernel p v mem good avoids =
    let new = new_root (virt true kernel) (virt true p) mem in
    let before = get_physical_addr-walk kernel v mem in
    let root =
      get_physical_addr-walk p v new ∙ ap (offset v) (walk-root kernel p mem good v avoids) in
    (
      elim (Bool-cases (leb 256 (index 3 v))) [
        | inl e ↦ rw e (rw e at root ∙ sym before)
        | inr e ↦ rw e (rw e at root)
      ],
      get_physical_addr-walk kernel v new
          ∙ ap (offset v) (walk-same kernel p mem good 3 kernel v avoids)
          ∙ sym before,
    )
