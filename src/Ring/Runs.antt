-- ===== src/Ring/Runs.antt =====
-- Sequences of calls on a queue, against a list that is a queue by definition.
use crap_os.Base.{
  ℕ, ◌≡◌, refl, ap, Option, none, some, inl, inr, List, [], ◌∷◌, ◌++◌, arith, length, Bool, true,
  false, ◌==◌, if◌then◌else◌, Bool-cases,
}
use crap_os.Ring.Fifo.{Fifo}

pub data Call (A : Type 0) : Type 0 where
  put : A → Call A
  get : Call A

-- What a call answers: whether the entry was taken, or the entry that was got.
pub data Answer (A : Type 0) : Type 0 where
  stored : Bool → Answer A
  got : Option A → Answer A

module _ {A : Type 0} (f : Fifo A) where
  unfoldable pub run : f.State → List (Call A) → List (Answer A)
  run q [] = []
  run q (put a ∷ calls) = elim (f.put a q) [
    | none ↦ stored false ∷ run q calls
    | some q' ↦ stored true ∷ run q' calls
  ]
  run q (get ∷ calls) = let (x, q') = f.get q in got x ∷ run q' calls

-- The same calls on a list of at most `cap` entries.
unfoldable pub run_list : {A : Type 0} → ℕ → List A → List (Call A) → List (Answer A)
run_list cap xs [] = []
run_list cap xs (put a ∷ calls) =
    let full = run_list cap xs calls in
    let room = run_list cap (xs ++ a ∷ []) calls in
    if length xs == cap then stored false ∷ full else stored true ∷ room
run_list cap [] (get ∷ calls) = got none ∷ run_list cap [] calls
run_list cap (x ∷ xs) (get ∷ calls) = got (some x) ∷ run_list cap xs calls

module _ {A : Type 0} (f : Fifo A) where
  -- Every sequence of calls gets the answers of the list.
  pub run-run_list :
      (q : f.State) (xs : List A) (calls : List (Call A))
      → f.Holds q xs
      → run f q calls ≡ run_list f.capacity xs calls
  unfolding run run_list
  run-run_list q xs [] h = refl
  run-run_list q xs (put a ∷ calls) h = elim (Bool-cases (length xs == f.capacity)) [
    | inl e ↦
        rw (e, f.put_full a q xs h (ground arith), run)
          (ap (λ (t : List (Answer A)). stored false ∷ t) (run-run_list q xs calls h))
    | inr e ↦
        let (q', put_eq, h') = f.put_room a q xs h (ground (arith, f.Holds-length q xs h)) in
        rw (e, put_eq, run)
          (ap (λ (t : List (Answer A)). stored true ∷ t) (run-run_list q' (xs ++ a ∷ []) calls h'))
  ]
  run-run_list q [] (get ∷ calls) h =
      rw (f.get_empty q h, run)
        (ap (λ (t : List (Answer A)). got none ∷ t) (run-run_list q [] calls h))
  run-run_list q (x ∷ xs) (get ∷ calls) h =
      let (q', get_eq, h') = f.get_oldest q x xs h in
      rw (get_eq, run)
        (ap (λ (t : List (Answer A)). got (some x) ∷ t) (run-run_list q' xs calls h'))
