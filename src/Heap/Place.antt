-- ===== src/Heap/Place.antt =====
-- Where `insert_free_block_sorted` puts a block, from the head of the list on.
use crap_os.Base.{
  length, ℕ, zero, suc, ◌+◌, ◌≤◌, ◌<◌, ◌≡◌, refl, ◌∙◌, true, false, List, [], ◌∷◌, ◌==◌, not, ◌&&◌,
  ltb, if◌then◌else◌, arith, inl, inr, Bool-cases,
}
use crap_os.Heap.{done, Outcome, find_place, link_block, next_of, size_of}
use crap_os.Heap.Blocks.{is_free, within, Apart, Linked, Unused, insert_block, join}
use crap_os.Heap.Link.{
  Linked-head, link_block-after, link_block-first, link_block-elsewhere, or_false, link_safe,
  join-far, link_first_safe,
}

-- What `insert_free_block_sorted` does from a block on that stays before the place.
record IsPlaced (words : ℕ → ℕ) (p n prev : ℕ) (bs joined : List (ℕ × ℕ)) (place : Outcome (ℕ × ℕ))
    : Type 0 where
  before : ℕ
  after : ℕ
  found : place ≡ done (before, after)
  not_first : prev ≤ before
  linked : Linked (link_block p n before after words) prev joined
  safe :
      (x : ℕ)
      → is_free x bs ≡ false
      → within p n x ≡ false
      → link_block p n before after words x ≡ words x

place_after :
    (words : ℕ → ℕ) (p n fuel prev m next : ℕ) (bs : List (ℕ × ℕ))
    → length bs < fuel
    → 0 < prev
    → 16 ≤ m
    → size_of words prev ≡ m
    → next_of words prev ≡ next
    → prev + m ≤ p
    → 16 ≤ n
    → Linked words next bs
    → Apart (prev + m + 1) bs
    → Unused p n bs
    → IsPlaced words p n prev
        ((prev, m) ∷ bs)
        (join prev m (insert_block p n bs))
        (find_place fuel words p prev next)
unfolding find_place insert_block is_free Linked Apart Unused join
place_after words p n zero prev m next bs enough some_prev big size link past big' h a u =
    absurd (omega arith)
place_after words p n (suc fuel) prev m next [] enough some_prev big size link past big' h a u =
    record {
      before = prev;
      after = next;
      found = rw h refl;
      not_first = omega arith;
      linked = link_block-after words prev m p n next [] some_prev big size past big' h tt;
      safe = λ x out out'.
          link_safe words p n prev m next x big big'
            (or_false (within prev m x) (is_free x []) out).0 out';
    }
place_after words p n (suc fuel) prev m next ((b, k) ∷ bs) enough some_prev big size link past big'
      (here, some_b, size', h) (at, big'', a) (free, u) =
    elim (Bool-cases (ltb b p)) [
      | inl e ↦
          let free_before : b + k ≤ p = elim free [ inl le ↦ le | inr le ↦ ground arith ] in
          let ih =
            place_after words p n fuel b k (next_of words b) bs (omega arith) some_b big'' size'
              refl free_before big' h a u in
          let cond : (not (next == 0) && ltb next p) ≡ true = ground arith in
          let words' = link_block p n ih.before ih.after words in
          let far = ih.not_first in
          let kept : (x : ℕ) → x < b → x < p → words' x ≡ words x = λ x lt lt'.
            link_block-elsewhere words p n ih.before ih.after x (λ c. omega arith)
              (λ c. omega arith) (λ c. omega (arith, far)) (λ c. omega (arith, far)) in
          let tail = join b k (insert_block p n bs) in
          let link' : next_of words' prev ≡ b =
            kept (prev + 8) (omega arith) (omega arith) ∙ link ∙ here in
          let size'' : size_of words' prev ≡ m = kept prev (omega arith) (omega arith) ∙ size in
          let all : Linked words' prev ((prev, m) ∷ tail) =
            (refl, some_prev, size'', rw link' ih.linked) in
          record {
            before = ih.before;
            after = ih.after;
            found = rw cond (rw here ih.found);
            not_first = omega (arith, ih.not_first);
            linked = rw (e, join-far prev m b k (insert_block p n bs) (omega arith)) all;
            safe = λ x out out'.
                ih.safe x (or_false (within prev m x) (is_free x ((b, k) ∷ bs)) out).1 out';
          }
      | inr e ↦
          let bound : p + n ≤ b = elim free [ inl le ↦ ground arith | inr le ↦ le ] in
          record {
            before = prev;
            after = next;
            found =
                let cond : (not (next == 0) && ltb next p) ≡ false = ground arith in rw cond refl;
            not_first = omega arith;
            linked = rw e (
                link_block-after words prev m p n next ((b, k) ∷ bs) some_prev big size past big'
                  (here, some_b, size', h) (bound, big'', a));
            safe = λ x out out'.
                link_safe words p n prev m next x big big'
                  (or_false (within prev m x) (is_free x ((b, k) ∷ bs)) out).0 out';
          }
    ]

pub place_first :
    (words : ℕ → ℕ) (p n fuel next : ℕ) (bs : List (ℕ × ℕ))
    → length bs < fuel
    → 0 < p
    → 16 ≤ n
    → Linked words next bs
    → Apart 1 bs
    → Unused p n bs
    → (at : ℕ × ℕ) × (find_place fuel words p 0 next ≡ done at)
      × Linked
          (link_block p n at.0 at.1 words)
          (if at.0 == 0 then p else next)
          (insert_block p n bs)
      × ((x : ℕ)
          → is_free x bs ≡ false
          → within p n x ≡ false
          → link_block p n at.0 at.1 words x ≡ words x)
unfolding find_place insert_block is_free Linked Apart Unused join
place_first words p n zero next bs enough some_p big h a u = absurd (omega arith)
place_first words p n (suc fuel) next [] enough some_p big h a u = (
  (0, next),
  rw h refl,
  link_block-first words p n next [] some_p big h tt,
  λ x out out'. link_first_safe words p n next x big out',
)
place_first words p n (suc fuel) next ((b, k) ∷ bs) enough some_p big (here, some_b, size, h)
      (at, big', a) (free, u) =
    elim (Bool-cases (ltb b p)) [
      | inl e ↦
          let free_before : b + k ≤ p = elim free [ inl le ↦ le | inr le ↦ ground arith ] in
          let placed =
            place_after words p n fuel b k (next_of words b) bs (omega arith) some_b big' size refl
              free_before big h a u in
          let cond : (not (next == 0) && ltb next p) ≡ true = ground arith in
          let far = placed.not_first in
          let middle : (placed.before == 0) ≡ false = ground (arith, far) in
          (
            (placed.before, placed.after),
            rw cond (rw here placed.found),
            Linked-head (link_block p n placed.before placed.after words)
                (if placed.before == 0 then p else next) b (insert_block p n ((b, k) ∷ bs))
                (rw middle here) (rw e placed.linked),
            placed.safe,
          )
      | inr e ↦
          let bound : p + n ≤ b = elim free [ inl le ↦ ground arith | inr le ↦ le ] in
          let cond : (not (next == 0) && ltb next p) ≡ false = ground arith in
          (
            (0, next),
            rw cond refl,
            rw e (
                link_block-first words p n next ((b, k) ∷ bs) some_p big (here, some_b, size, h)
                  (bound, big', a)),
            λ x out out'. link_first_safe words p n next x big out',
          )
    ]
