-- ===== src/Paging/Way.antt =====
-- The tables of an address on the way down, and a word that is written into the last of them.
use crap_os.Base.{
  ℕ, suc, ◌/◌, ◌%◌, ◌^◌, ◌<◌, ◌≡◌, ◌≢◌, refl, ap, ◌∙◌, sym, Bool, true, false, Option, none, some,
  List, [], ◌∷◌, length, ◌==◌, if◌then◌else◌, arith, All, Bool-cases, inl, inr, head_eq, tail_eq,
  update, bit_or, ◌>>=◌,
}
use crap_os.Base.Bits.Digits.{or_digit}
use crap_os.Pages.{virt}
use crap_os.Paging.{PageState, absent, frame, get_physical_addr, intermediate, leaf}
use crap_os.Paging.Tables.{Chain-agree, IsSound, walk-other}
use crap_os.Paging.Walk.{
  IsFrame, entry, entry-injective, get_physical_addr-walk, index, index-lt, walk, walk-step,
}

-- Two addresses in the same page of the 48 bits that the tables translate.
abbrev pub same_page : ℕ → ℕ → Bool
same_page v w = (v / 4096) % 2 ^ 36 == (w / 4096) % 2 ^ 36

pub intermediate-odd : (user : Bool) → (intermediate user < 4096) × (intermediate user % 2 ≡ 1)
intermediate-odd true = (omega arith, refl)
intermediate-odd false = (omega arith, refl)

pub leaf-present : (physical flags : ℕ) → absent (leaf physical flags) ≡ false
leaf-present physical flags = ground (arith, or_digit (bit_or (frame physical) flags) 1)

-- The four indices are the number of the page.
same_page_of :
    (v w : ℕ)
    → index 3 w ≡ index 3 v
    → index 2 w ≡ index 2 v
    → index 1 w ≡ index 1 v
    → index 0 w ≡ index 0 v
    → same_page v w ≡ true
same_page_of v w h3 h2 h1 h0 = ground arith

indices_of :
    (v w : ℕ)
    → same_page v w ≡ true
    → (index 3 w ≡ index 3 v)
      × (index 2 w ≡ index 2 v)
      × (index 1 w ≡ index 1 v)
      × (index 0 w ≡ index 0 v)
indices_of v w h = (ground arith, ground arith, ground arith, ground arith)

walk-indices :
    (p v w : ℕ) (mem : ℕ → ℕ)
    → index 3 w ≡ index 3 v
    → index 2 w ≡ index 2 v
    → index 1 w ≡ index 1 v
    → index 0 w ≡ index 0 v
    → walk 3 p w mem ≡ walk 3 p v mem
unfolding walk
walk-indices p v w mem h3 h2 h1 h0 = rw (h3, h2, h1, h0) refl

-- A word is written into a table of the last level.
module _ (label : ℕ → Option (List ℕ)) (root p i x : ℕ) (π : List ℕ) (s : PageState) (free : List ℕ)
    (h : IsSound label root s free) (at : label p ≡ some π) (long : length π ≡ 3)
    (small : i < 512) where
  abbrev pub written : ℕ → ℕ
  written = update s.1 (entry p i) x

  upper_entry :
      (q j : ℕ) (ρ : List ℕ)
      → label q ≡ some ρ
      → length ρ < 3
      → j < 512
      → written (entry q j) ≡ s.1 (entry q j)
  upper_entry q j ρ here short bound =
      let ne : entry q j ≢ entry p i = λ e.
        (let (same, _) =
            entry-injective q p j i (h.tree.frames q ρ here) (h.tree.frames p π at) bound small e in
          let labels : ◌≡◌ {A = Option (List ℕ)} (some ρ) (some π) =
            sym here ∙ ap label same ∙ at in
          let lists : ρ ≡ π = cc in let lengths = ap length lists in omega arith) in
      ground (arith, ne)

  free_words :
      (fs : List ℕ)
      → All (λ q. IsFrame q × (label q ≡ none)) fs
      → All (λ q. written (virt true q) ≡ s.1 (virt true q)) fs
  free_words [] a = tt
  free_words (q ∷ fs) ((g, n), a) =
      let first : entry q 0 ≡ virt true q = omega arith in
      let ne : virt true q ≢ entry p i = λ e.
        (let (same, _) =
            entry-injective q p 0 i g (h.tree.frames p π at) (omega arith) small (first ∙ e) in
          let labels = sym n ∙ ap label same ∙ at in cc) in
      (ground (arith, ne), free_words fs a)

  pub written-IsSound : IsSound label root (s.0, written) free
  written-IsSound = record {
    high = h.high;
    tree = record {
      root_label = h.tree.root_label;
      frames = h.tree.frames;
      children = λ q j ρ here short bound alive.
          (let same = upper_entry q j ρ here short bound in
            ap (λ w. label (frame w)) same
            ∙ h.tree.children q j ρ here short bound (ap absent (sym same) ∙ alive));
    };
    list = record {
      chain =
          Chain-agree s.0.is_higher_half s.1 written s.0.free_list_head free
            (rw h.high (free_words free h.apart)) h.list.chain;
      count = h.list.count;
      bound = h.list.bound;
    };
    apart = h.apart;
    distinct = h.distinct;
  }

  -- The step of the walk from a table above the last level.
  written-step :
      (k q r v : ℕ) (ρ : List ℕ)
      → label q ≡ some ρ
      → length ρ < 3
      → absent (s.1 (entry q (index (suc k) v))) ≡ false
      → frame (s.1 (entry q (index (suc k) v))) ≡ r
      → walk (suc k) q v written ≡ walk k r v written
  written-step k q r v ρ here short alive next =
      let same = upper_entry q (index (suc k) v) ρ here short (index-lt (suc k) v) in
      walk-step k q r v written (ap absent same ∙ alive) (ap frame same ∙ next)

  written-last : (v : ℕ) → index 0 v ≡ i → absent x ≡ false → walk 0 p v written ≡ some x
  unfolding walk
  written-last v e alive =
      let word : written (entry p (index 0 v)) ≡ x = ground (arith, e) in rw (word, alive) refl

-- The tables of an address on the way down, in one memory.
pub record Way (label : ℕ → Option (List ℕ)) (root q3 q2 q1 v : ℕ) (mem : ℕ → ℕ) : Type 0 where
  pub root_label : label root ≡ some []
  pub label3 : label q3 ≡ some (index 3 v ∷ [])
  pub label2 : label q2 ≡ some (index 2 v ∷ index 3 v ∷ [])
  pub label1 : label q1 ≡ some (index 1 v ∷ index 2 v ∷ index 3 v ∷ [])
  pub here3 : absent (mem (entry root (index 3 v))) ≡ false
  pub next3 : frame (mem (entry root (index 3 v))) ≡ q3
  pub here2 : absent (mem (entry q3 (index 2 v))) ≡ false
  pub next2 : frame (mem (entry q3 (index 2 v))) ≡ q2
  pub here1 : absent (mem (entry q2 (index 1 v))) ≡ false
  pub next1 : frame (mem (entry q2 (index 1 v))) ≡ q1

-- What a write at the end of the way does to the walks from the root.
module _ (label : ℕ → Option (List ℕ)) (root q3 q2 q1 v x : ℕ) (s : PageState) (free : List ℕ)
    (h : IsSound label root s free) (way : Way label root q3 q2 q1 v s.1)
    (alive : absent x ≡ false) where
  abbrev last : List ℕ
  last = index 1 v ∷ index 2 v ∷ index 3 v ∷ []

  abbrev pub after : ℕ → ℕ
  after = written label root q1 (index 0 v) x last s free h way.label1 refl (index-lt 0 v)

  walk-here : walk 3 root v after ≡ some x
  walk-here =
      let step =
        written-step label root q1 (index 0 v) x last s free h way.label1 refl (index-lt 0 v) in
      step 2 root q3 v [] way.root_label (omega arith) way.here3 way.next3
      ∙ step 1 q3 q2 v (index 3 v ∷ []) way.label3 (omega arith) way.here2 way.next2
      ∙ step 0 q2 q1 v (index 2 v ∷ index 3 v ∷ []) way.label2 (omega arith) way.here1 way.next1
      ∙ written-last label root q1 (index 0 v) x last s free h way.label1 refl (index-lt 0 v) v refl
          alive

  walk-there : (w : ℕ) → same_page v w ≡ false → walk 3 root w after ≡ walk 3 root w s.1
  walk-there w far =
      walk-other label root q1 (index 0 v) w x last s.1 h.tree way.label1 refl (index-lt 0 v) 3 root
        [] way.root_label refl
        (λ e e0.
          (let e1 = head_eq e in
            let e2 = head_eq (tail_eq e) in
            let e3 = head_eq (tail_eq (tail_eq e)) in
            let near = same_page_of v w e3 e2 e1 e0 in cc))

  pub translation :
      (w : ℕ)
      → get_physical_addr (virt true root) w after ≡ (
          if same_page v w
          then some (bit_or (frame x) (w % 4096))
          else get_physical_addr (virt true root) w s.1)
  translation w = elim (Bool-cases (same_page v w)) [
    | inl e ↦
        let (e3, e2, e1, e0) = indices_of v w e in
        rw e (
          get_physical_addr-walk root w after
          ∙ ap (λ o. o >>= λ pte. some (bit_or (frame pte) (w % 4096)))
              (walk-indices root v w after e3 e2 e1 e0 ∙ walk-here))
    | inr e ↦ rw e (
        get_physical_addr-walk root w after
        ∙ ap (λ o. o >>= λ pte. some (bit_or (frame pte) (w % 4096))) (walk-there w e)
        ∙ sym (get_physical_addr-walk root w s.1))
  ]
