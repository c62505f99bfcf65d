-- ===== src/Heap/FirstFit.antt =====
-- The first block that is large enough, and what stands in its place when it is taken.
use crap_os.Base.{
  length, ℕ, suc, ◌+◌, ◌-◌, ◌≤◌, ◌≡◌, refl, ap, ◌∙◌, sym, Bool, true, false, List, [], ◌∷◌, Option,
  none, some, ◌&&◌, ◌||◌, leb, if◌then◌else◌, arith, inl, inr, Bool-cases, ◌⊎◌,
}
use crap_os.Heap.Blocks.{
  Apart, Apart-from, Unused, insert_block, insert_block-is_free, is_free, within,
}

unfoldable pub first_fit : ℕ → List (ℕ × ℕ) → Option (ℕ × ℕ)
first_fit t [] = none
first_fit t ((a, m) ∷ bs) = let rest = first_fit t bs in if leb t m then some (a, m) else rest

unfoldable pub remove_first : ℕ → List (ℕ × ℕ) → List (ℕ × ℕ)
remove_first t [] = []
remove_first t ((a, m) ∷ bs) = let rest = remove_first t bs in if leb t m then bs else (a, m) ∷ rest

-- The free blocks after the first `t` bytes of a block are taken: less than 16 bytes are lost.
abbrev pub cut_block : ℕ → ℕ → ℕ → List (ℕ × ℕ) → List (ℕ × ℕ)
cut_block t a m bs =
    if leb 16 (m - t) then insert_block (a + t) (m - t) (remove_first t bs) else remove_first t bs

-- What is known of the block that is taken.
pub record IsTaken (lo t a m : ℕ) (bs : List (ℕ × ℕ)) : Type 0 where
  pub large : t ≤ m
  pub from : lo ≤ a
  pub big : 16 ≤ m
  pub apart : Apart lo (remove_first t bs)
  pub unused : Unused a m (remove_first t bs)
  pub fewer : suc (length (remove_first t bs)) ≡ length bs
  pub free : (x : ℕ) → (within a m x || is_free x (remove_first t bs)) ≡ is_free x bs

Unused-before : (lo a m : ℕ) (bs : List (ℕ × ℕ)) → Apart lo bs → a + m ≤ lo → Unused a m bs
unfolding Apart Unused
Unused-before lo a m [] h le = tt
Unused-before lo a m ((b, k) ∷ bs) (at, big, h) le =
    (inr (omega arith), Unused-before (b + k + 1) a m bs h (omega arith))

pub Unused-part :
    (p n a m : ℕ) (bs : List (ℕ × ℕ)) → a ≤ p → p + n ≤ a + m → Unused a m bs → Unused p n bs
unfolding Unused
Unused-part p n a m [] lo hi u = tt
Unused-part p n a m ((b, k) ∷ bs) lo hi (here, u) = (
  elim here [ inl le ↦ inl (omega arith) | inr le ↦ inr (omega arith) ],
  Unused-part p n a m bs lo hi u,
)

or_swap : (x y z : Bool) → (x || (y || z)) ≡ (y || (x || z))
or_swap x y z = ground arith

some_eq : {A : Type 0} {a b : A} → ◌≡◌ {A = Option A} (some a) (some b) → a ≡ b
some_eq h = cc

pub none-some : {A : Type 0} {a : A} → ◌≡◌ {A = Option A} none (some a) → ⊥
none-some h = cc

pub first_fit-here :
    (t b k a m : ℕ) (bs : List (ℕ × ℕ))
    → leb t k ≡ true
    → first_fit t ((b, k) ∷ bs) ≡ some (a, m)
    → (a ≡ b) × (m ≡ k)
unfolding first_fit
first_fit-here t b k a m bs e f =
    let here : first_fit t ((b, k) ∷ bs) ≡ some (b, k) = rw e refl in
    let same : ◌≡◌ {A = ℕ × ℕ} (a, m) (b, k) = sym (some_eq (sym here ∙ f)) in
    (ap (λ p. p.0) same, ap (λ p. p.1) same)

pub first_fit-further :
    (t b k a m : ℕ) (bs : List (ℕ × ℕ))
    → leb t k ≡ false
    → first_fit t ((b, k) ∷ bs) ≡ some (a, m)
    → first_fit t bs ≡ some (a, m)
unfolding first_fit
first_fit-further t b k a m bs e f =
    let here : first_fit t ((b, k) ∷ bs) ≡ first_fit t bs = rw e refl in sym here ∙ f

pub first_fit-IsTaken :
    (lo t a m : ℕ) (bs : List (ℕ × ℕ))
    → Apart lo bs
    → first_fit t bs ≡ some (a, m)
    → IsTaken lo t a m bs
unfolding first_fit remove_first Apart Unused is_free
first_fit-IsTaken lo t a m [] h f = absurd (none-some f)
first_fit-IsTaken lo t a m ((b, k) ∷ bs) (at, big, h) f = elim (Bool-cases (leb t k)) [
  | inl e ↦
      let (block, size) = first_fit-here t b k a m bs e f in
      let first : IsTaken lo t b k ((b, k) ∷ bs) = record {
        large = ground arith;
        from = at;
        big = big;
        apart = rw e (Apart-from lo (b + k + 1) bs (omega arith) h);
        unused = rw e (Unused-before (b + k + 1) b k bs h (omega arith));
        fewer = rw e refl;
        free = λ x. rw e refl;
      } in
      rw (block, size) first
  | inr e ↦
      let eq = first_fit-further t b k a m bs e f in
      let ih = first_fit-IsTaken (b + k + 1) t a m bs h eq in
      let far = ih.from in
      record {
        large = ih.large;
        from = omega (arith, far);
        big = ih.big;
        apart = rw e (at, big, ih.apart);
        unused = rw e (inl (omega (arith, far)), ih.unused);
        fewer = rw e (ap suc ih.fewer);
        free = λ x. rw e (
            or_swap (within a m x) (within b k x) (is_free x (remove_first t bs))
            ∙ ap (λ y. within b k x || y) (ih.free x));
      }
]

Unused-is_free :
    (a m x : ℕ) (bs : List (ℕ × ℕ)) → Unused a m bs → is_free x bs ≡ true → within a m x ≡ false
unfolding Unused is_free
Unused-is_free a m x [] u h = ground (arith, h)
Unused-is_free a m x ((b, k) ∷ bs) (here, u) h = elim (Bool-cases (within b k x)) [
  | inl e ↦ ground arith
  | inr e ↦ let part : is_free x bs ≡ true = ground (arith, h, e) in Unused-is_free a m x bs u part
]

-- A block that is taken leaves the free addresses outside its first `t` bytes, if nothing is lost.
module _ (lo t a m x : ℕ) (bs : List (ℕ × ℕ)) (taken : IsTaken lo t a m bs) where
  -- In terms of the blocks without the one that is taken.
  cut_is_free :
      is_free x (cut_block t a m bs)
      ≡ ((leb 16 (m - t) && within (a + t) (m - t) x) || is_free x (remove_first t bs))
  cut_is_free = elim (Bool-cases (leb 16 (m - t))) [
    | inl e ↦ rw e (insert_block-is_free x (a + t) (m - t) (remove_first t bs))
    | inr e ↦ rw e refl
  ]

  apart_from : is_free x (remove_first t bs) ≡ true → within a m x ≡ false
  apart_from = Unused-is_free a m x (remove_first t bs) taken.unused

  pub cut_block-outside :
      is_free x (cut_block t a m bs) ≡ true → (is_free x bs ≡ true) × (within a t x ≡ false)
  cut_block-outside h =
      let shown = sym cut_is_free ∙ h in
      let whole = taken.free x in
      let large = taken.large in
      elim (Bool-cases (is_free x (remove_first t bs))) [
        | inl e ↦ let out = apart_from e in (ground (arith, whole, e), ground (arith, out, large))
        | inr e ↦ (ground (arith, whole, e, shown, large), ground (arith, whole, e, shown, large))
      ]

  pub cut_block-is_free :
      (16 ≤ m - t) ⊎ (t ≡ m) → within a t x ≡ false → is_free x (cut_block t a m bs) ≡ is_free x bs
  cut_block-is_free kept out =
      let whole = taken.free x in
      let large = taken.large in
      cut_is_free ∙ elim (Bool-cases (is_free x (remove_first t bs))) [
        | inl e ↦ ground (arith, whole, e)
        | inr e ↦ elim kept [
          | inl le ↦ ground (arith, whole, e, large, le)
          | inr same ↦ ground (arith, whole, e, large, same)
        ]
      ]
