-- ===== src/Paging/Obtain.antt =====
-- `get_or_create_table`, with the allocator.
use crap_os.Base.{
  ℕ, ◌+◌, ◌*◌, ◌/◌, ◌%◌, ◌^◌, ◌<◌, ◌≤◌, ◌≡◌, ◌≢◌, refl, ap, ◌∙◌, sym, true, false, Option, none,
  some, List, [], ◌∷◌, length, arith, All, Bool-cases, Option-cases, inl, inr, update, bit_or, ◌⊎◌,
}
use crap_os.Base.Bits.{or_shifted}
use crap_os.Pages.{PhysicalMemoryManager, virt, alloc_page}
use crap_os.Pages.FreeList.{alloc_page-IsFreeList}
use crap_os.Paging.{PageState, absent, frame, get_or_create_table, zero_out_page, slot}
use crap_os.Paging.Create.{IsExtension, IsExtension-refl, grown-IsExtension, grown-IsTree}
use crap_os.Paging.Tables.{Chain-agree, IsSound}
use crap_os.Paging.Walk.{IsFrame, entry, entry-injective, zero_words-hit, zero_words-miss}
use crap_os.Tasks.Outcome.{done}

pub alloc_page-high :
    (pmm : PhysicalMemoryManager) (mem : ℕ → ℕ)
    → (alloc_page pmm mem).1.is_higher_half ≡ pmm.is_higher_half
unfolding alloc_page
alloc_page-high pmm mem = elim (Option-cases pmm.free_list_head) [
  | inl e ↦ rw e refl
  | inr (f, e) ↦ rw e refl
]

-- The memory with the page `f` cleared and the entry `i` of the table `p` set.
abbrev linked : ℕ → ℕ → ℕ → ℕ → (ℕ → ℕ) → ℕ → ℕ
linked p i f word mem = update (zero_out_page (virt true f) mem) (entry p i) word

link_word :
    (f flags : ℕ)
    → IsFrame f
    → flags < 4096
    → flags % 2 ≡ 1
    → (bit_or f flags ≡ f + flags) × (absent (f + flags) ≡ false) × (frame (f + flags) ≡ f)
link_word f flags good small odd =
    let hi : f ≡ f / 4096 * 2 ^ 12 = omega arith in
    (
      ap (λ n. bit_or n flags) hi ∙ or_shifted 12 (f / 4096) flags small ∙ omega arith,
      ground arith,
      omega arith,
    )

module _ (p i f word : ℕ) (mem : ℕ → ℕ) (gp : IsFrame p) (gf : IsFrame f) (ne : f ≢ p)
    (small : i < 512) where
  linked-new : (j : ℕ) → j < 512 → linked p i f word mem (entry f j) ≡ 0
  unfolding zero_out_page
  linked-new j h =
      let apart : entry f j ≢ entry p i = λ e. ne (entry-injective f p j i gf gp h small e).0 in
      let hit = zero_words-hit 512 0 (virt true f) mem j (omega arith) (omega arith) in
      ground (arith, apart, hit)

  linked-link : linked p i f word mem (entry p i) ≡ word
  linked-link = ground arith

  linked-others :
      (q j : ℕ)
      → IsFrame q
      → j < 512
      → q ≢ f
      → ((q ≢ p) ⊎ (j ≢ i))
      → linked p i f word mem (entry q j) ≡ mem (entry q j)
  unfolding zero_out_page
  linked-others q j gq h nf other =
      let apart : entry q j ≢ entry p i = λ e.
        (let (e1, e2) = entry-injective q p j i gq gp h small e in
          elim other [ inl n ↦ n e1 | inr n ↦ n e2 ]) in
      let miss =
        zero_words-miss 512 0 (virt true f) mem (entry q j)
          (λ k lo hi e. nf (entry-injective q f j k gq gf h (omega arith) e).0) in
      ground (arith, apart, miss)

-- What the call of `get_or_create_table` for the entry `i` of the table `p` leaves.
pub record Obtained (label : ℕ → Option (List ℕ)) (root p i : ℕ) (π : List ℕ) (flags : ℕ)
    (s : PageState) (free : List ℕ) : Type 0 where
  pub q : ℕ
  pub s' : PageState
  pub label' : ℕ → Option (List ℕ)
  pub free' : List ℕ
  pub result : get_or_create_table (virt true p) i flags s ≡ done (virt true q, s')
  pub sound : IsSound label' root s' free'
  pub cost : length free ≤ length free' + 1
  pub child : label' q ≡ some (i ∷ π)
  pub here : absent (s'.1 (entry p i)) ≡ false
  pub next : frame (s'.1 (entry p i)) ≡ q
  pub extension : IsExtension label label' s.1 s'.1

get_or_create-present :
    (table i flags : ℕ) (s : PageState)
    → absent (s.1 (slot table i)) ≡ false
    → get_or_create_table table i flags s
      ≡ done (virt s.0.is_higher_half (frame (s.1 (slot table i))), s)
unfolding get_or_create_table
get_or_create-present table i flags s e = rw (e, get_or_create_table) refl

get_or_create-new :
    (table i flags f : ℕ) (s : PageState)
    → absent (s.1 (slot table i)) ≡ true
    → (alloc_page s.0 s.1).0 ≡ some f
    → (alloc_page s.0 s.1).1.is_higher_half ≡ true
    → let mem' = update (zero_out_page (virt true f) s.1) (slot table i) (bit_or f flags) in
      get_or_create_table table i flags s
      ≡ done (virt true (frame (mem' (slot table i))), ((alloc_page s.0 s.1).1, mem'))
unfolding get_or_create_table
get_or_create-new table i flags f s e a h = rw (e, a, h, get_or_create_table) refl

-- Free pages that were not taken stay apart from the tables.
still_apart :
    (label : ℕ → Option (List ℕ)) (f : ℕ) (ρ : List ℕ) (fs : List ℕ)
    → All (λ q. IsFrame q × (label q ≡ none)) fs
    → All (λ q. q ≢ f) fs
    → All (λ q. IsFrame q × (update label f (some ρ) q ≡ none)) fs
still_apart label f ρ [] a d = tt
still_apart label f ρ (q ∷ fs) ((g, n), a) (ne, d) =
    ((g, ground (arith, ne, n)), still_apart label f ρ fs a d)

first_words :
    (label : ℕ → Option (List ℕ)) (p f : ℕ) (π : List ℕ) (mem mem' : ℕ → ℕ) (fs : List ℕ)
    → label p ≡ some π
    → ((q : ℕ) → IsFrame q → q ≢ f → q ≢ p → mem' (entry q 0) ≡ mem (entry q 0))
    → All (λ q. IsFrame q × (label q ≡ none)) fs
    → All (λ q. q ≢ f) fs
    → All (λ q. mem' (virt true q) ≡ mem (virt true q)) fs
first_words label p f π mem mem' [] at same a d = tt
first_words label p f π mem mem' (q ∷ fs) at same ((g, n), a) (ne, d) =
    let apart : q ≢ p = λ e. (let labels = sym n ∙ ap label e ∙ at in cc) in
    let first : entry q 0 ≡ virt true q = omega arith in
    (
      ap mem' (sym first) ∙ same q g ne apart ∙ ap mem first,
      first_words label p f π mem mem' fs at same a d,
    )

module _ (label : ℕ → Option (List ℕ)) (root p i : ℕ) (π : List ℕ) (flags : ℕ) (s : PageState)
    (at : label p ≡ some π) (short : length π < 3) (small : i < 512) (low : flags < 4096)
    (odd : flags % 2 ≡ 1) where
  obtain-present :
      (free : List ℕ)
      → IsSound label root s free
      → absent (s.1 (entry p i)) ≡ false
      → Obtained label root p i π flags s free
  obtain-present free h e = record {
    q = frame (s.1 (entry p i));
    s' = s;
    label' = label;
    free' = free;
    result =
        get_or_create-present (virt true p) i flags s e
        ∙ ap (λ b. done (virt b (frame (s.1 (entry p i))), s)) h.high;
    sound = h;
    cost = omega arith;
    child = h.tree.children p i π at short small e;
    here = e;
    next = refl;
    extension = IsExtension-refl label s.1;
  }

  obtain-new :
      (f : ℕ) (fs : List ℕ)
      → IsSound label root s (f ∷ fs)
      → absent (s.1 (entry p i)) ≡ true
      → Obtained label root p i π flags s (f ∷ fs)
  obtain-new f fs h e =
      let mem = s.1 in
      let (gf, fresh) = h.apart.0 in
      let gp = h.tree.frames p π at in
      let ne : f ≢ p = λ e'. (let labels = sym fresh ∙ ap label e' ∙ at in cc) in
      let (word, alive, points) = link_word f flags gf low odd in
      let mem' = linked p i f (bit_or f flags) mem in
      let (taken, rest) = alloc_page-IsFreeList s.0 mem f fs h.list in
      let pmm' = (alloc_page s.0 mem).1 in
      let high : pmm'.is_higher_half ≡ true = alloc_page-high s.0 mem ∙ h.high in
      let new = linked-new p i f (bit_or f flags) mem gp gf ne small in
      let link : mem' (entry p i) ≡ f + flags =
        linked-link p i f (bit_or f flags) mem gp gf ne small ∙ word in
      let others = linked-others p i f (bit_or f flags) mem gp gf ne small in
      let firsts =
        first_words label p f π mem mem' fs at (λ q g nf np. others q 0 g (omega arith) nf (inl np))
          h.apart.1 h.distinct.0 in
      record {
        q = f;
        s' = (pmm', mem');
        label' = update label f (some (i ∷ π));
        free' = fs;
        result =
            get_or_create-new (virt true p) i flags f s e taken high
            ∙ ap (λ w. done (virt true (frame w), (pmm', mem'))) link
            ∙ ap (λ w. done (virt true w, (pmm', mem'))) points;
        sound = record {
          high = high;
          tree =
              grown-IsTree label root p i f (f + flags) π mem mem' h.tree at short small fresh gf e
                new link (alive, points) others;
          list = record {
            chain =
                Chain-agree pmm'.is_higher_half mem mem' pmm'.free_list_head fs (rw high firsts)
                  rest.chain;
            count = rest.count;
            bound = rest.bound;
          };
          apart = still_apart label f (i ∷ π) fs h.apart.1 h.distinct.0;
          distinct = h.distinct.1;
        };
        cost = omega arith;
        child = ground arith;
        here = ap absent link ∙ alive;
        next = ap frame link ∙ points;
        extension =
            grown-IsExtension label root p i f (f + flags) π mem mem' h.tree at short small fresh gf
              e new link (alive, points) others;
      }

  -- The call with a free page to spare.
  pub obtain :
      (free : List ℕ)
      → IsSound label root s free
      → 0 < length free
      → Obtained label root p i π flags s free
  obtain [] h room = absurd (omega arith)
  obtain (f ∷ fs) h room = elim (Bool-cases (absent (s.1 (entry p i)))) [
    | inl e ↦ obtain-new f fs h e
    | inr e ↦ obtain-present (f ∷ fs) h e
  ]
