-- ===== src/Ring/Fifo.antt =====
-- What a queue of bounded capacity promises, and the two kinds of ring that keep the promise.
use native.Mathlib.Nat.{add_assoc, mod-lt, one-le-pow, mod-eq_of_lt, mod-add-mod}
use crap_os.Base.{
  tail_eq, head_eq, ap₂, ℕ, suc, ◌+◌, ◌-◌, ◌%◌, ◌^◌, ◌<◌, ◌≤◌, ◌≡◌, ◌≢◌, refl, ◌∙◌, sym, ap, Option,
  none, some, List, [], ◌∷◌, ◌++◌, map, arith, length, length-append, update, map-append,
}
use crap_os.Base.Bits.{and_mask}
use crap_os.Ring.{Ring, empty_ring, advance, push, pop, pop_take}
use crap_os.Ring.Window.{window_ext, window-add_one, window, window-mod, window-update, mod_apart}

-- A first-in first-out queue of at most `capacity` entries: `Holds q xs` says that the queue `q`
-- holds the entries `xs`, the oldest one first.
pub record Fifo (A : Type 0) : Type 1 where
  pub State : Type 0
  pub capacity : ℕ
  pub put : A → State → Option State
  pub get : State → Option A × State
  pub Holds : State → List A → Type 0
  pub Holds-length : (q : State) (xs : List A) → Holds q xs → length xs ≤ capacity
  pub put_full :
      (a : A) (q : State) (xs : List A) → Holds q xs → length xs ≡ capacity → put a q ≡ none
  pub put_room :
      (a : A) (q : State) (xs : List A)
      → Holds q xs
      → length xs < capacity
      → (q' : State) × (put a q ≡ some q') × Holds q' (xs ++ a ∷ [])
  pub get_empty : (q : State) → Holds q [] → get q ≡ (none, q)
  pub get_oldest :
      (q : State) (x : A) (xs : List A)
      → Holds q (x ∷ xs)
      → (q' : State) × (get q ≡ (some x, q')) × Holds q' xs

-- The indices are in bounds, and the slots from `head` on hold the entries.
pub record IsRing {A E : Type 0} (w : ℕ) (wrap : A → E) (r : Ring E) (xs : List A) : Type 0 where
  pub head_bound : r.head < 2 ^ w
  pub tail_bound : r.tail < 2 ^ w
  pub fits : r.queue_len ≤ 2 ^ w
  pub tail_at : r.tail ≡ (r.head + r.queue_len) % 2 ^ w
  pub count : r.queue_len ≡ length xs
  pub entries : window (2 ^ w) r.slots r.head r.queue_len ≡ map wrap xs

advance_mod : (w i : ℕ) → advance w i ≡ (i + 1) % 2 ^ w
advance_mod w i = and_mask w (i + 1)

size_pos : (w : ℕ) → 0 < 2 ^ w
size_pos w = one-le-pow w 2 (omega arith)

module _ {A E : Type 0} (w : ℕ) (wrap : A → E) where
  pub IsRing-empty : (e : E) → IsRing w wrap (empty_ring e) []
  IsRing-empty e = record {
    head_bound = size_pos w;
    tail_bound = size_pos w;
    fits = omega arith;
    tail_at = sym (mod-eq_of_lt (size_pos w));
    count = refl;
    entries = refl;
  }

  pub push_full :
      (a : A) (r : Ring E) (xs : List A)
      → IsRing w wrap r xs
      → length xs ≡ 2 ^ w
      → push w (wrap a) r ≡ none
  unfolding push
  push_full a r xs h full = ground (arith, h.count)

  pub push_room :
      (a : A) (r : Ring E) (xs : List A)
      → IsRing w wrap r xs
      → length xs < 2 ^ w
      → (r' : Ring E) × (push w (wrap a) r ≡ some r') × IsRing w wrap r' (xs ++ a ∷ [])
  unfolding push
  push_room a r xs h room =
      let n = h.count in
      (
        record r {
          slots = update r.slots r.tail (wrap a);
          tail = advance w r.tail;
          queue_len = r.queue_len + 1;
        },
        ground arith,
        record {
          head_bound = h.head_bound;
          tail_bound = rw (advance_mod w r.tail) (mod-lt (r.tail + 1) (size_pos w));
          fits = omega (arith, n);
          tail_at =
              advance_mod w r.tail
              ∙ ap (λ t. (t + 1) % 2 ^ w) h.tail_at
              ∙ mod-add-mod (r.head + r.queue_len) (2 ^ w) 1
              ∙ ap (λ t. t % 2 ^ w) (add_assoc r.head r.queue_len 1);
          count = omega (arith, n, length-append xs (a ∷ []));
          entries =
              window-add_one (2 ^ w) (update r.slots r.tail (wrap a)) r.head r.queue_len
              ∙ ap₂ ◌++◌
                  (window-update (2 ^ w) r.slots r.tail (wrap a) r.head r.queue_len (λ k hk e.
                      mod_apart (2 ^ w) r.head k r.queue_len hk (omega (arith, n)) (e ∙ h.tail_at))
                    ∙ h.entries)
                  (ap (λ t. t ∷ []) (ground (arith, h.tail_at)))
              ∙ sym (map-append wrap xs (a ∷ []));
        },
      )

  -- The oldest entry stands at the head. A ring with the same entries behind it in its slots,
  -- and the head moved on, holds the others.
  pop_oldest :
      (f : ℕ → E) (r : Ring E) (x : A) (xs : List A)
      → IsRing w wrap r (x ∷ xs)
      → ((k : ℕ)
          → k < length xs
          → f ((r.head + 1 + k) % 2 ^ w) ≡ r.slots ((r.head + 1 + k) % 2 ^ w))
      → (r.slots r.head ≡ wrap x)
        × IsRing w wrap
            (record r { slots = f; head = advance w r.head; queue_len = r.queue_len - 1 })
            xs
  pop_oldest f r x xs h same =
      let n = h.count in
      let rest : r.queue_len - 1 ≡ length xs = omega (arith, n) in
      let at : r.head % 2 ^ w ≡ r.head = mod-eq_of_lt h.head_bound in
      let entries = sym (ap (window (2 ^ w) r.slots r.head) n) ∙ h.entries in
      (
        sym (ap r.slots at) ∙ head_eq entries,
        record {
          head_bound = rw (advance_mod w r.head) (mod-lt (r.head + 1) (size_pos w));
          tail_bound = h.tail_bound;
          fits = (let le = h.fits in omega (arith, le));
          tail_at =
              h.tail_at
              ∙ ap (λ t. t % 2 ^ w) (omega (arith, n, rest))
              ∙ sym (mod-add-mod (r.head + 1) (2 ^ w) (r.queue_len - 1))
              ∙ ap (λ t. (t + (r.queue_len - 1)) % 2 ^ w) (sym (advance_mod w r.head));
          count = rest;
          entries =
              ap (λ i. window (2 ^ w) f i (r.queue_len - 1)) (advance_mod w r.head)
              ∙ window-mod (2 ^ w) f (r.head + 1) (r.queue_len - 1)
              ∙ ap (window (2 ^ w) f (r.head + 1)) rest
              ∙ window_ext (2 ^ w) f r.slots (r.head + 1) (length xs) same
              ∙ tail_eq entries;
        },
      )

module _ {A : Type 0} (w : ℕ) where
  pub pop_empty : (r : Ring A) → IsRing w (λ (a : A). a) r [] → pop w r ≡ (none, r)
  unfolding pop
  pop_empty r h = ground (arith, h.count)

  pub pop_first :
      (r : Ring A) (x : A) (xs : List A)
      → IsRing w (λ (a : A). a) r (x ∷ xs)
      → (r' : Ring A) × (pop w r ≡ (some x, r')) × IsRing w (λ (a : A). a) r' xs
  unfolding pop
  pop_first r x xs h =
      let (at, rest) = pop_oldest w (λ (a : A). a) r.slots r x xs h (λ k g. refl) in
      (
        record r { head = advance w r.head; queue_len = r.queue_len - 1 },
        ground (arith, h.count, at),
        rest,
      )

  pub take_empty : (r : Ring (Option A)) → IsRing w some r [] → pop_take w r ≡ (none, r)
  unfolding pop_take
  take_empty r h = ground (arith, h.count)

  -- The slot that `take` clears is none of those that still hold an entry.
  pub take_first :
      (r : Ring (Option A)) (x : A) (xs : List A)
      → IsRing w some r (x ∷ xs)
      → (r' : Ring (Option A)) × (pop_take w r ≡ (some x, r')) × IsRing w some r' xs
  unfolding pop_take
  take_first r x xs h =
      let fit = h.fits in
      let n = h.count in
      let cleared = update r.slots r.head none in
      let other : (k : ℕ) → k < length xs → (r.head + 1 + k) % 2 ^ w ≢ r.head = λ k g e.
        mod_apart (2 ^ w) r.head 0 (suc k) (omega arith) (omega (arith, fit, n)) (
          ap (λ t. t % 2 ^ w) (omega arith)
          ∙ mod-eq_of_lt h.head_bound
          ∙ sym e
          ∙ ap (λ t. t % 2 ^ w) (omega arith)) in
      let (at, rest) = pop_oldest w some cleared r x xs h (λ k g. ground (arith, other k g)) in
      (
        record r { slots = cleared; head = advance w r.head; queue_len = r.queue_len - 1 },
        ground (arith, n, at),
        rest,
      )

-- The ring whose `pop` leaves the slot as it is.
abbrev pub ring_fifo : (A : Type 0) → ℕ → Fifo A
ring_fifo A w = record {
  State = Ring A;
  capacity = 2 ^ w;
  put = push w;
  get = pop w;
  Holds = IsRing w (λ a. a);
  Holds-length = λ q xs h. omega (arith, h.fits, h.count);
  put_full = push_full w (λ a. a);
  put_room = push_room w (λ a. a);
  get_empty = pop_empty w;
  get_oldest = pop_first w;
}

-- The ring of optional entries whose `pop` takes the entry out of its slot.
abbrev pub take_fifo : (A : Type 0) → ℕ → Fifo A
take_fifo A w = record {
  State = Ring (Option A);
  capacity = 2 ^ w;
  put = λ a. push w (some a);
  get = pop_take w;
  Holds = IsRing w some;
  Holds-length = λ q xs h. omega (arith, h.fits, h.count);
  put_full = push_full w some;
  put_room = push_room w some;
  get_empty = take_empty w;
  get_oldest = take_first w;
}
