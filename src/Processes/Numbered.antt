-- ===== src/Processes/Numbered.antt =====
-- Blocks by address, with ids from a counter.
use crap_os.Base.{
  ℕ, refl, sym, ap, inl, inr, Option, some, arith, Bool-cases, ==_iff, ◌+◌, ◌%◌, ◌^◌, ◌≤◌, ◌<◌, ◌≡◌,
  ◌≢◌, ◌==◌, if◌then◌else◌, ◌∙◌, ◌⊎◌,
}

-- Every id is below the counter, and two blocks have different ids.
pub record Numbered {A : Type 0} (id : A → ℕ) (next : ℕ) (store : ℕ → Option A) : Type 0 where
  pub below : (p : ℕ) (a : A) → store p ≡ some a → id a < next
  pub unique : (p q : ℕ) (a b : A) → store p ≡ some a → store q ≡ some b → id a ≡ id b → p ≡ q

module _ {A : Type 0} where
  -- What stands at an address after a write.
  pub chosen-cases :
      (q p : ℕ) (new found : A) (old : Option A)
      → (if q == p then some new else old) ≡ some found
      → ((q ≡ p) × (new ≡ found)) ⊎ ((q ≢ p) × (old ≡ some found))
  chosen-cases q p new found old h = elim (Bool-cases (q == p)) [
    | inl e ↦ let h' : some new ≡ some found = rw e at h in inl ((==_iff q p).0 e, cc)
    | inr e ↦ inr (ground arith, rw e at h)
  ]

  module _ (id : A → ℕ) (next : ℕ) (store store' : ℕ → Option A) (p : ℕ) (new : A)
      (h : Numbered id next store) where
    -- A new block gets the next id.
    pub Numbered-add :
        id new ≡ next
        → ((b : ℕ) → store' b ≡ (if b == p then some new else store b))
        → Numbered id (next + 1) store'
    Numbered-add numbered write = record {
      below = λ q a e. (elim (chosen-cases q p new a (store q) (sym (write q) ∙ e)) [
        | inl (_, same) ↦ rw (← same) (omega (arith, numbered))
        | inr (_, old) ↦ omega (arith, h.below q a old)
      ]);
      unique = λ q r a b ea eb same. (elim (chosen-cases q p new a (store q) (sym (write q) ∙ ea)) [
        | inl (eq, na) ↦ elim (chosen-cases r p new b (store r) (sym (write r) ∙ eb)) [
          | inl (er, nb) ↦ omega (arith, eq, er)
          | inr (ner, old) ↦
              absurd
                (let l = h.below r b old in let e = ap id na in omega (arith, l, e, numbered, same))
        ]
        | inr (neq, old) ↦ elim (chosen-cases r p new b (store r) (sym (write r) ∙ eb)) [
          | inl (er, nb) ↦
              absurd
                (let l = h.below q a old in let e = ap id nb in omega (arith, l, e, numbered, same))
          | inr (ner, old') ↦ h.unique q r a b old old' same
        ]
      ]);
    }

    -- A block changes, but not its id.
    pub Numbered-change :
        (was : A)
        → store p ≡ some was
        → id new ≡ id was
        → ((b : ℕ) → store' b ≡ (if b == p then some new else store b))
        → Numbered id next store'
    Numbered-change was live numbered write =
        let back : (q : ℕ) (a : A)
            → store' q ≡ some a
            → (c : A) × (store q ≡ some c) × (id a ≡ id c) =
          λ q a e. (elim (chosen-cases q p new a (store q) (sym (write q) ∙ e)) [
            | inl (eq, na) ↦ (was, rw eq live, sym (ap id na) ∙ numbered)
            | inr (_, old) ↦ (a, old, refl)
          ]) in
        record {
          below = λ q a e. (let (c, ec, ic) = back q a e in omega (arith, h.below q c ec, ic));
          unique = λ q r a b ea eb same.
              (let (c, ec, ic) = back q a ea in
                let (d, ed, id') = back r b eb in h.unique q r c d ec ed (sym ic ∙ same ∙ id'));
        }

  -- The same blocks, with ids that are used up.
  pub Numbered-same :
      (id : A → ℕ) (next next' : ℕ) (store store' : ℕ → Option A)
      → Numbered id next store
      → next ≤ next'
      → ((b : ℕ) → store' b ≡ store b)
      → Numbered id next' store'
  Numbered-same id next next' store store' h more same = record {
    below = λ q a e. omega (arith, h.below q a (sym (same q) ∙ e), more);
    unique = λ q r a b ea eb. h.unique q r a b (sym (same q) ∙ ea) (sym (same r) ∙ eb);
  }

pub mod_small : (n : ℕ) → n + 1 < 2 ^ 64 → (n + 1) % 2 ^ 64 ≡ n + 1
mod_small n h = omega (arith, h)
