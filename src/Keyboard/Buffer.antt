-- ===== src/Keyboard/Buffer.antt =====
-- The buffer between the interrupt handler and the keyboard task.
use crap_os.Base.{ℕ, ◌==◌, if◌then◌else◌, arith, Bool-cases, inl, inr, List, [], ◌∷◌, ◌++◌, length}
use crap_os.Keyboard.{push_scancode}
use crap_os.Ring.{Ring}
use crap_os.Ring.Fifo.{IsRing, push_full, push_room}

abbrev pub Buffered : Ring ℕ → List ℕ → Type 0
Buffered b codes = IsRing 8 (λ (c : ℕ). c) b codes

-- The interrupt handler appends a scancode, and drops it if 256 of them wait.
pub push_scancode-Buffered :
    (code : ℕ) (b : Ring ℕ) (codes : List ℕ)
    → Buffered b codes
    → Buffered (push_scancode code b) (if length codes == 256 then codes else codes ++ code ∷ [])
unfolding push_scancode
push_scancode-Buffered code b codes h = elim (Bool-cases (length codes == 256)) [
  | inl full ↦ rw (full, push_full 8 (λ (c : ℕ). c) code b codes h (ground arith), push_scancode) h
  | inr room ↦
      let fit = h.fits in
      let n = h.count in
      let (b', pushed, h') = push_room 8 (λ (c : ℕ). c) code b codes h (ground arith) in
      rw (room, pushed, push_scancode) h'
]
