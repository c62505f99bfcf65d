-- ===== src/Heap/Link.antt =====
-- The words of a block that goes between its neighbours, and the list that the memory holds then.
use crap_os.Base.{
  ◌||◌, ℕ, ◌+◌, ◌≤◌, ◌<◌, ◌≡◌, ◌≢◌, refl, ◌∙◌, Bool, false, List, [], ◌∷◌, ◌==◌, arith, inl, inr,
  Bool-cases,
}
use crap_os.Heap.{join_next, join_prev, link_block, next_of, set_next, set_size, size_of, take_in}
use crap_os.Heap.Blocks.{within, Apart, Linked, join, join-Apart}

pub Linked-other :
    (words words' : ℕ → ℕ) (head lo : ℕ) (bs : List (ℕ × ℕ))
    → Apart lo bs
    → ((x : ℕ) → lo ≤ x → words' x ≡ words x)
    → Linked words head bs
    → Linked words' head bs
unfolding Linked Apart
Linked-other words words' head lo [] a same h = h
Linked-other words words' head lo ((b, k) ∷ bs) (at, big, a) same (here, positive, size, h) =
    let rest : Linked words' (next_of words b) bs =
      Linked-other words words' (next_of words b) (b + k + 1) bs a (λ x le. same x (omega arith))
        h in
    (here, positive, same b at ∙ size, rw (same (b + 8) (omega arith)) rest)

-- The words of a block, and everything else is as before.
abbrev IsElsewhere : (ℕ → ℕ) → (ℕ → ℕ) → ℕ → Type 0
IsElsewhere words words' p = (x : ℕ) → x ≢ p → x ≢ p + 8 → words' x ≡ words x

join_next-IsElsewhere : (words : ℕ → ℕ) (p next : ℕ) → IsElsewhere words (join_next p next words) p
join_next-IsElsewhere words p next x nx nx' = ground (arith, nx, nx')

Linked-same :
    (words words' : ℕ → ℕ) (head : ℕ) (bs : List (ℕ × ℕ))
    → words ≡ words'
    → Linked words' head bs
    → Linked words head bs
Linked-same words words' head bs same h = rw same h

pub Linked-head :
    (words : ℕ → ℕ) (head head' : ℕ) (bs : List (ℕ × ℕ))
    → head ≡ head'
    → Linked words head' bs
    → Linked words head bs
Linked-head words head head' bs same h = rw same h

join_next-Linked :
    (words : ℕ → ℕ) (p n next : ℕ) (bs : List (ℕ × ℕ))
    → 0 < p
    → 16 ≤ n
    → size_of words p ≡ n
    → next_of words p ≡ next
    → Linked words next bs
    → Apart (p + n) bs
    → Linked (join_next p next words) p (join p n bs)
unfolding Linked Apart join
join_next-Linked words p n next [] positive big size link h a =
    let same : join_next p next words ≡ words = rw h refl in
    rw same (refl, positive, size, link ∙ h)
join_next-Linked words p n next ((b, k) ∷ bs) positive big size link (here, some_b, size', h)
      (at, big', a) =
    elim (Bool-cases (p + n == b)) [
      | inl e ↦
          let same : join_next p next words ≡ take_in p b words =
            rw (size, here, e) (ground arith) in
          let size'' : take_in p b words p ≡ n + k = ground arith in
          let link'' : take_in p b words (p + 8) ≡ next_of words b = ground arith in
          let rest : Linked (take_in p b words) (next_of words b) bs =
            Linked-other words (take_in p b words) (next_of words b) (b + k + 1) bs a
              (λ x le. ground arith) h in
          let all : Linked (take_in p b words) p ((p, n + k) ∷ bs) =
            (refl, positive, size'', rw link'' rest) in
          Linked-same (join_next p next words) (take_in p b words) p (join p n ((b, k) ∷ bs)) same
            (rw e all)
      | inr e ↦
          let same : join_next p next words ≡ words = rw (size, here, e) (ground arith) in
          let all : Linked words p ((p, n) ∷ (b, k) ∷ bs) =
            (refl, positive, size, rw link (here, some_b, size', h)) in
          Linked-same (join_next p next words) words p (join p n ((b, k) ∷ bs)) same (rw e all)
    ]

-- `join_prev` is `join_next` seen from the block before.
join_prev-same :
    (words : ℕ → ℕ) (prev p : ℕ)
    → 0 < prev
    → 0 < p
    → join_prev prev p words ≡ join_next prev p words
join_prev-same words prev p lo hi =
    let some_prev : (prev == 0) ≡ false = ground arith in
    let some_p : (p == 0) ≡ false = ground arith in rw (some_prev, some_p) refl

-- The place is right after `prev`.
pub link_block-after :
    (words : ℕ → ℕ) (prev m p n next : ℕ) (bs : List (ℕ × ℕ))
    → 0 < prev
    → 16 ≤ m
    → size_of words prev ≡ m
    → prev + m ≤ p
    → 16 ≤ n
    → Linked words next bs
    → Apart (p + n) bs
    → Linked (link_block p n prev next words) prev (join prev m (join p n bs))
unfolding Linked
link_block-after words prev m p n next bs some_prev big size past big' h a =
    let written = set_next (set_size words p n) p next in
    let linked = set_next written prev p in
    let joined = join_next p next linked in
    let later : Linked linked next bs =
      Linked-other words linked next (p + n) bs a (λ x le. ground arith) h in
    let block : Linked joined p (join p n bs) =
      join_next-Linked linked p n next bs (omega arith) big' (ground arith) (ground arith) later
        a in
    let size' : size_of joined prev ≡ m =
      join_next-IsElsewhere linked p next prev (λ e. omega arith) (λ e. omega arith)
      ∙ ground arith in
    let link' : next_of joined prev ≡ p =
      join_next-IsElsewhere linked p next (prev + 8) (λ e. omega arith) (λ e. omega arith)
      ∙ ground arith in
    let whole : Linked (join_next prev p joined) prev (join prev m (join p n bs)) =
      join_next-Linked joined prev m p (join p n bs) some_prev big size' link' block
        (join-Apart (prev + m) p n bs past big' a) in
    let same : link_block p n prev next words ≡ join_next prev p joined =
      ground (arith, join_prev-same joined prev p some_prev (omega arith)) in
    rw same whole

-- The place is the head of the list.
pub link_block-first :
    (words : ℕ → ℕ) (p n next : ℕ) (bs : List (ℕ × ℕ))
    → 0 < p
    → 16 ≤ n
    → Linked words next bs
    → Apart (p + n) bs
    → Linked (link_block p n 0 next words) p (join p n bs)
link_block-first words p n next bs some_p big h a =
    let written = set_next (set_size words p n) p next in
    let later : Linked written next bs =
      Linked-other words written next (p + n) bs a (λ x le. ground arith) h in
    join_next-Linked written p n next bs some_p big (ground arith) (ground arith) later a

pub link_block-elsewhere :
    (words : ℕ → ℕ) (p n prev next x : ℕ)
    → x ≢ p
    → x ≢ p + 8
    → x ≢ prev
    → x ≢ prev + 8
    → link_block p n prev next words x ≡ words x
link_block-elsewhere words p n prev next x np np' nq nq' = ground (arith, np, np', nq, nq')

pub or_false : (x y : Bool) → (x || y) ≡ false → (x ≡ false) × (y ≡ false)
or_false x y h = (ground arith, ground arith)

-- Only words of the two blocks are written.
pub link_safe :
    (words : ℕ → ℕ) (p n prev m next x : ℕ)
    → 16 ≤ m
    → 16 ≤ n
    → within prev m x ≡ false
    → within p n x ≡ false
    → link_block p n prev next words x ≡ words x
link_safe words p n prev m next x big big' out out' =
    link_block-elsewhere words p n prev next x (λ e. ground arith) (λ e. ground arith)
      (λ e. ground arith) (λ e. ground arith)

pub join-far :
    (p m a k : ℕ) (bs : List (ℕ × ℕ)) → p + m < a → join p m (join a k bs) ≡ (p, m) ∷ join a k bs
unfolding join
join-far p m a k [] lt = let ne : (p + m == a) ≡ false = ground arith in rw ne refl
join-far p m a k ((b, l) ∷ bs) lt =
    let ne : (p + m == a) ≡ false = ground arith in
    elim (Bool-cases (a + k == b)) [ inl e ↦ rw (e, ne) refl | inr e ↦ rw (e, ne) refl ]

pub link_first_safe :
    (words : ℕ → ℕ) (p n next x : ℕ)
    → 16 ≤ n
    → within p n x ≡ false
    → link_block p n 0 next words x ≡ words x
link_first_safe words p n next x big out =
    let written = set_next (set_size words p n) p next in
    join_next-IsElsewhere written p next x (λ e. ground arith) (λ e. ground arith) ∙ ground arith
