-- ===== src/Paging/Create.antt =====
-- `get_or_create_table` on a sound memory: the table is there, and no translation changes.
use crap_os.Base.{
  ℕ, zero, suc, ◌+◌, ◌<◌, ◌≡◌, ◌≢◌, refl, ap, ◌∙◌, sym, true, false, Option, none, some, List, [],
  ◌∷◌, length, ◌==◌, arith, Bool-cases, inl, inr, update, ◌⊎◌,
}
use crap_os.Paging.{absent, frame}
use crap_os.Paging.Tables.{IsTree}
use crap_os.Paging.Walk.{IsFrame, entry, index, index-lt, walk, walk-absent, walk-step}

-- The memory before and after a table was made, with the labels before and after.
pub record IsExtension (label label' : ℕ → Option (List ℕ)) (mem mem' : ℕ → ℕ) : Type 0 where
  pub labels : (p : ℕ) (π : List ℕ) → label p ≡ some π → label' p ≡ some π
  pub present :
      (p i : ℕ) (π : List ℕ)
      → label p ≡ some π
      → i < 512
      → absent (mem (entry p i)) ≡ false
      → mem' (entry p i) ≡ mem (entry p i)
  pub walks :
      (k p v : ℕ) (π : List ℕ)
      → label p ≡ some π
      → length π + k ≡ 3
      → walk k p v mem' ≡ walk k p v mem

pub IsExtension-refl : (label : ℕ → Option (List ℕ)) (mem : ℕ → ℕ) → IsExtension label label mem mem
IsExtension-refl label mem = record {
  labels = λ p π h. h;
  present = λ p i π h small e. refl;
  walks = λ k p v π h len. refl;
}

pub IsExtension-trans :
    (l1 l2 l3 : ℕ → Option (List ℕ)) (m1 m2 m3 : ℕ → ℕ)
    → IsExtension l1 l2 m1 m2
    → IsExtension l2 l3 m2 m3
    → IsExtension l1 l3 m1 m3
IsExtension-trans l1 l2 l3 m1 m2 m3 a b = record {
  labels = λ p π h. b.labels p π (a.labels p π h);
  present = λ p i π h small e.
      (let same = a.present p i π h small e in
        b.present p i π (a.labels p π h) small (ap absent same ∙ e) ∙ same);
  walks = λ k p v π h len. b.walks k p v π (a.labels p π h) len ∙ a.walks k p v π h len;
}

-- The memory when the entry `i` of the table `p` points to the new table `f`.
module _ (label : ℕ → Option (List ℕ)) (root p i f word : ℕ) (π : List ℕ) (mem mem' : ℕ → ℕ)
    (tree : IsTree label root mem) (at : label p ≡ some π) (short : length π < 3) (small : i < 512)
    (fresh : label f ≡ none) (good : IsFrame f) (gap : absent (mem (entry p i)) ≡ true)
    (new : (j : ℕ) → j < 512 → mem' (entry f j) ≡ 0) (link : mem' (entry p i) ≡ word)
    (linked : (absent word ≡ false) × (frame word ≡ f))
    (others : (q j : ℕ)
      → IsFrame q
      → j < 512
      → q ≢ f
      → ((q ≢ p) ⊎ (j ≢ i))
      → mem' (entry q j) ≡ mem (entry q j)) where
  abbrev pub grown : ℕ → Option (List ℕ)
  grown = update label f (some (i ∷ π))

  not_fresh : (q : ℕ) (ρ : List ℕ) → label q ≡ some ρ → q ≢ f
  not_fresh q ρ h e = (let none_here = ap label e ∙ fresh in cc)

  grown-old : (q : ℕ) (ρ : List ℕ) → label q ≡ some ρ → grown q ≡ some ρ
  grown-old q ρ h = (let ne = not_fresh q ρ h in ground (arith, ne, h))

  grown-new : grown f ≡ some (i ∷ π)
  grown-new = ground arith

  -- An entry of an old table is the new link, or it is as it was.
  old_entry :
      (q j : ℕ) (ρ : List ℕ)
      → label q ≡ some ρ
      → j < 512
      → (((q ≡ p) × (j ≡ i)) ⊎ (mem' (entry q j) ≡ mem (entry q j)))
  old_entry q j ρ h bound =
      let ok = tree.frames q ρ h in
      let ne = not_fresh q ρ h in
      elim (Bool-cases (q == p)) [
        | inr e ↦ inr (others q j ok bound ne (inl (λ e'. ground arith)))
        | inl e ↦ elim (Bool-cases (j == i)) [
          | inr e' ↦ inr (others q j ok bound ne (inr (λ e''. ground arith)))
          | inl e' ↦ inl (ground arith, ground arith)
        ]
      ]

  new_walk : (k v : ℕ) → walk k f v mem' ≡ none
  new_walk k v = walk-absent k f v mem' (ap absent (new (index k v) (index-lt k v)))

  pub grown-IsTree : IsTree grown root mem'
  grown-IsTree = record {
    root_label = grown-old root [] tree.root_label;
    frames = λ q ρ h. elim (Bool-cases (q == f)) [
      | inl e ↦ (let same : q ≡ f = ground arith in rw same good)
      | inr e ↦ tree.frames q ρ (ground (arith, h, e))
    ];
    children = λ q j ρ h len bound here. elim (Bool-cases (q == f)) [
      | inl e ↦
          let same : q ≡ f = ground arith in
          let zero_word : mem' (entry q j) ≡ 0 = ap (λ r. mem' (entry r j)) same ∙ new j bound in
          let gone : absent (mem' (entry q j)) ≡ true = ap absent zero_word in cc
      | inr e ↦
          let old : label q ≡ some ρ = ground (arith, h, e) in
          elim (old_entry q j ρ old bound) [
            | inl (e1, e2) ↦
                let labels : ◌≡◌ {A = Option (List ℕ)} (some π) (some ρ) =
                  sym at ∙ ap label (sym e1) ∙ old in
                let word_here : mem' (entry q j) ≡ word =
                  ap (λ r. mem' (entry r j)) e1 ∙ ap (λ n. mem' (entry p n)) e2 ∙ link in
                ap (λ w. grown (frame w)) word_here ∙ ap grown linked.1 ∙ grown-new ∙ cc
            | inr same ↦
                ap (λ w. grown (frame w)) same
                ∙ grown-old (frame (mem (entry q j))) (j ∷ ρ)
                    (tree.children q j ρ old len bound (ap absent (sym same) ∙ here))
          ]
    ];
  }

  grown-walk :
      (k q v : ℕ) (ρ : List ℕ)
      → label q ≡ some ρ
      → length ρ + k ≡ 3
      → walk k q v mem' ≡ walk k q v mem
  unfolding walk
  grown-walk zero q v ρ h len = elim (old_entry q (index 0 v) ρ h (index-lt 0 v)) [
    | inl (e1, e2) ↦
        let labels : ◌≡◌ {A = Option (List ℕ)} (some π) (some ρ) = sym at ∙ ap label (sym e1) ∙ h in
        let same : π ≡ ρ = cc in let lengths = ap length same in absurd (omega arith)
    | inr same ↦ rw same refl
  ]
  grown-walk (suc k) q v ρ h len = elim (old_entry q (index (suc k) v) ρ h (index-lt (suc k) v)) [
    | inl (e1, e2) ↦
        let j = index (suc k) v in
        let word_here : mem' (entry q j) ≡ word =
          ap (λ r. mem' (entry r j)) e1 ∙ ap (λ n. mem' (entry p n)) e2 ∙ link in
        let gap_here : absent (mem (entry q j)) ≡ true =
          ap (λ r. absent (mem (entry r j))) e1 ∙ ap (λ n. absent (mem (entry p n))) e2 ∙ gap in
        walk-step k q f v mem' (ap absent word_here ∙ linked.0) (ap frame word_here ∙ linked.1)
        ∙ new_walk k v
        ∙ sym (walk-absent (suc k) q v mem gap_here)
    | inr same ↦
        let j = index (suc k) v in
        elim (Bool-cases (absent (mem (entry q j)))) [
          | inl e ↦
              walk-absent (suc k) q v mem' (ap absent same ∙ e)
              ∙ sym (walk-absent (suc k) q v mem e)
          | inr e ↦
              let r = frame (mem (entry q j)) in
              walk-step k q r v mem' (ap absent same ∙ e) (ap frame same)
              ∙ grown-walk k r v (j ∷ ρ)
                  (tree.children q j ρ h (omega arith) (index-lt (suc k) v) e) (omega arith)
              ∙ sym (walk-step k q r v mem e refl)
        ]
  ]

  pub grown-IsExtension : IsExtension label grown mem mem'
  grown-IsExtension = record {
    labels = grown-old;
    present = λ q j ρ h bound here. elim (old_entry q j ρ h bound) [
      | inl (e1, e2) ↦
          let gap_here : absent (mem (entry q j)) ≡ true =
            ap (λ r. absent (mem (entry r j))) e1 ∙ ap (λ n. absent (mem (entry p n))) e2 ∙ gap in
          cc
      | inr same ↦ same
    ];
    walks = grown-walk;
  }
