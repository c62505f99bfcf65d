-- ===== src/Heap/Commit.antt =====
-- The pages that `grow` maps: with enough free pages, all of them are mapped.
use crap_os.Base.{
  ltb, ℕ, zero, suc, ◌+◌, ◌*◌, ◌%◌, ◌≤◌, ◌<◌, ◌≡◌, refl, ap, ◌∙◌, Bool, true, false, List, [], ◌∷◌,
  Option, none, some, arith, inl, inr, Bool-cases, length,
}
use crap_os.Heap.{map_heap_pages}
use crap_os.Pages.{alloc_page, page_size, virt}
use crap_os.Pages.FreeList.{alloc_page-IsFreeList}
use crap_os.Paging.{PageState, get_physical_addr, present_flag, writable}
use crap_os.Paging.Boot.{nx}
use crap_os.Paging.Map.{map_page-translates}
use crap_os.Paging.Way.{same_page}
use crap_os.Paging.Obtain.{alloc_page-high}
use crap_os.Paging.Tables.{IsSound}
use crap_os.Tasks.Outcome.{Outcome, done}

abbrev is_some : Option ℕ → Bool
is_some none = false
is_some (some a) = true

-- An address that the tables translate.
abbrev pub is_mapped : ℕ → ℕ → (ℕ → ℕ) → Bool
is_mapped root w mem = is_some (get_physical_addr (virt true root) w mem)

-- The first free page leaves the list.
alloc_page-IsSound :
    (label : ℕ → Option (List ℕ)) (root : ℕ) (s : PageState) (f : ℕ) (free : List ℕ)
    → IsSound label root s (f ∷ free)
    → ((alloc_page s.0 s.1).0 ≡ some f) × IsSound label root ((alloc_page s.0 s.1).1, s.1) free
alloc_page-IsSound label root s f free h =
    let (taken, list) = alloc_page-IsFreeList s.0 s.1 f free h.list in
    (
      taken,
      record {
        high = alloc_page-high s.0 s.1 ∙ h.high;
        tree = h.tree;
        list = list;
        apart = h.apart.1;
        distinct = h.distinct.1;
      },
    )

pub record IsCommitted (root region i n : ℕ) (s : PageState) (result : Outcome PageState)
    : Type 0 where
  pub pages : PageState
  pub label : ℕ → Option (List ℕ)
  pub free : List ℕ
  pub returned : result ≡ done pages
  pub sound : IsSound label root pages free
  pub kept : (w : ℕ) → is_mapped root w s.1 ≡ true → is_mapped root w pages.1 ≡ true
  pub mapped :
      (w : ℕ)
      → region + i * page_size ≤ w
      → w < region + (i + n) * page_size
      → is_mapped root w pages.1 ≡ true

pub map_heap_pages-maps :
    (label : ℕ → Option (List ℕ)) (root region n i : ℕ) (s : PageState) (free : List ℕ)
    → IsSound label root s free
    → 4 * n ≤ length free
    → region % page_size ≡ 0
    → IsCommitted root region i n s (map_heap_pages n i (virt true root) region s)
unfolding map_heap_pages
map_heap_pages-maps label root region zero i s free sound room aligned = record {
  pages = s;
  label = label;
  free = free;
  returned = refl;
  sound = sound;
  kept = λ w h. h;
  mapped = λ w lo hi. absurd (omega arith);
}
map_heap_pages-maps label root region (suc n) i s [] sound room aligned = absurd (omega arith)
map_heap_pages-maps label root region (suc n) i s (f ∷ free) sound room aligned =
    let (taken, sound1) = alloc_page-IsSound label root s f free sound in
    let s1 : PageState = ((alloc_page s.0 s.1).1, s.1) in
    let v = region + i * page_size in
    let flags = present_flag + writable + nx in
    let (label2, s2, free2, placed, sound2, cost, translated) =
      map_page-translates label root s1 free v f flags true sound1 (omega arith) in
    let rest =
      map_heap_pages-maps label2 root region n (i + 1) s2 free2 sound2 (omega arith) aligned in
    let here : (w : ℕ) → same_page v w ≡ true → is_mapped root w s2.1 ≡ true =
      λ w e. ap is_some (translated w) ∙ rw e refl in
    let kept : (w : ℕ) → is_mapped root w s.1 ≡ true → is_mapped root w s2.1 ≡ true = λ w h.
      elim (Bool-cases (same_page v w)) [
        | inl e ↦ here w e
        | inr e ↦ ap is_some (translated w) ∙ rw e h
      ] in
    record {
      pages = rest.pages;
      label = rest.label;
      free = rest.free;
      returned = rw taken (rw placed rest.returned);
      sound = rest.sound;
      kept = λ w h. rest.kept w (kept w h);
      mapped = λ w lo hi. elim (Bool-cases (ltb w (v + page_size))) [
        | inl e ↦ rest.kept w (here w (ground arith))
        | inr e ↦ rest.mapped w (ground arith) (omega arith)
      ];
    }
