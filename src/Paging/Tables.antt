-- ===== src/Paging/Tables.antt =====
-- What makes the words of the memory a tree of page tables beside a list of free pages.
use crap_os.Base.{
  ℕ, zero, suc, ◌+◌, ◌<◌, ◌≡◌, ◌≢◌, refl, ap, ◌∙◌, sym, Bool, true, false, Option, none, some, List,
  [], ◌∷◌, length, ◌==◌, if◌then◌else◌, arith, All, Bool-cases, inl, inr, update,
}
use crap_os.Pages.{virt}
use crap_os.Pages.FreeList.{Chain, IsFreeList}
use crap_os.Paging.{PageState, absent, frame}
use crap_os.Paging.Walk.{
  IsFrame, entry, entry-injective, index, index-lt, path, walk, walk-step, walk-absent,
}

-- A page that is a table has a label: the indices that lead to it, the last one first. The root has
-- no index. An entry that is present, of a table that is not of the last level, points to a table
-- with the label that continues its own.
pub record IsTree (label : ℕ → Option (List ℕ)) (root : ℕ) (mem : ℕ → ℕ) : Type 0 where
  pub root_label : label root ≡ some []
  pub frames : (p : ℕ) (π : List ℕ) → label p ≡ some π → IsFrame p
  pub children :
      (p i : ℕ) (π : List ℕ)
      → label p ≡ some π
      → length π < 3
      → i < 512
      → absent (mem (entry p i)) ≡ false
      → label (frame (mem (entry p i))) ≡ some (i ∷ π)

abbrev pub Distinct : List ℕ → Type 0
Distinct [] = Unit {0}
Distinct (p ∷ ps) = All (λ q. q ≢ p) ps × Distinct ps

-- In the higher half, with the tables and the free pages apart from each other.
pub record IsSound (label : ℕ → Option (List ℕ)) (root : ℕ) (s : PageState) (free : List ℕ)
    : Type 0 where
  pub high : s.0.is_higher_half ≡ true
  pub tree : IsTree label root s.1
  pub list : IsFreeList s.0 s.1 free
  pub apart : All (λ p. IsFrame p × (label p ≡ none)) free
  pub distinct : Distinct free

some_eq : {A : Type 0} {a b : A} → ◌≡◌ {A = Option A} (some a) (some b) → a ≡ b
some_eq h = cc

-- The chain of the free pages reads the first word of each.
pub Chain-agree :
    (higher : Bool) (mem mem' : ℕ → ℕ) (head : Option ℕ) (ps : List ℕ)
    → All (λ p. mem' (virt higher p) ≡ mem (virt higher p)) ps
    → Chain higher mem head ps
    → Chain higher mem' head ps
Chain-agree higher mem mem' head [] same h = h
Chain-agree higher mem mem' head (p ∷ ps) (same, more) (at, pos, small, rest) = (
  at,
  pos,
  small,
  rw same (
      Chain-agree higher mem mem'
        (if mem (virt higher p) == 0 then none else some (mem (virt higher p))) ps more rest),
)

-- A write into the last level changes the walks that come to its place, and no other one.
pub walk-other :
    (label : ℕ → Option (List ℕ)) (root p0 i0 v x : ℕ) (π0 : List ℕ) (mem : ℕ → ℕ)
    → IsTree label root mem
    → label p0 ≡ some π0
    → length π0 ≡ 3
    → i0 < 512
    → (k p : ℕ) (π : List ℕ) → label p ≡ some π
    → length π + k ≡ 3
    → ((path k π v ≡ π0) → index 0 v ≢ i0)
    → walk k p v (update mem (entry p0 i0) x) ≡ walk k p v mem
unfolding walk
walk-other label root p0 i0 v x π0 mem tree at long small zero p π here len other =
    let ne : entry p (index 0 v) ≢ entry p0 i0 = λ e.
      (let (same, same') =
          entry-injective p p0 (index 0 v) i0 (tree.frames p π here) (tree.frames p0 π0 at)
            (index-lt 0 v) small e in
        let labels : ◌≡◌ {A = Option (List ℕ)} (some π) (some π0) = sym here ∙ ap label same ∙ at in
        other (some_eq labels) same') in
    let word : update mem (entry p0 i0) x (entry p (index 0 v)) ≡ mem (entry p (index 0 v)) =
      ground (arith, ne) in
    rw word refl
walk-other label root p0 i0 v x π0 mem tree at long small (suc k) p π here len other =
    let ne : entry p (index (suc k) v) ≢ entry p0 i0 = λ e.
      (let (same, _) =
          entry-injective p p0 (index (suc k) v) i0 (tree.frames p π here) (tree.frames p0 π0 at)
            (index-lt (suc k) v) small e in
        let labels : ◌≡◌ {A = Option (List ℕ)} (some π) (some π0) = sym here ∙ ap label same ∙ at in
        let lengths : length π ≡ length π0 = ap length (some_eq labels) in omega arith) in
    let word : update mem (entry p0 i0) x (entry p (index (suc k) v))
        ≡ mem (entry p (index (suc k) v)) =
      ground (arith, ne) in
    elim (Bool-cases (absent (mem (entry p (index (suc k) v))))) [
      | inl e ↦
          walk-absent (suc k) p v (update mem (entry p0 i0) x) (ap absent word ∙ e)
          ∙ sym (walk-absent (suc k) p v mem e)
      | inr e ↦
          let q = frame (mem (entry p (index (suc k) v))) in
          walk-step k p q v (update mem (entry p0 i0) x) (ap absent word ∙ e) (ap frame word)
          ∙ walk-other label root p0 i0 v x π0 mem tree at long small k q (index (suc k) v ∷ π)
              (tree.children p (index (suc k) v) π here (omega arith) (index-lt (suc k) v) e)
              (omega arith) other
          ∙ sym (walk-step k p q v mem e refl)
    ]
