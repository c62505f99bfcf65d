-- ===== src/Spinlock/Progress.antt =====
-- The plain spinlock cannot get stuck: every thread can still come to hold the guard.
use crap_os.Base.{ℕ, ◌≡◌, refl, false, inl, inr, Bool-cases}
use crap_os.Spinlock.{
  Phase, Reach, Step, System, attempt, attempted, enter, entered, holding, look, looked, outside,
  release, released, spinning, trying, try_lock,
}
use crap_os.Spinlock.Exclusion.{Reach-IsExclusive, update-same}

-- Some actions in a row.
pub data Run {T : Type 0} (s : System T) : System T → Type 0 where
  stay : Run s s
  andthen : {s' s'' : System T} → Run s s' → Step s' s'' → Run s s''

-- A thread that can come to hold the guard.
abbrev pub CanHold : {T : Type 0} → System T → ℕ → Type 0
CanHold {T} s i = (s' : System T) × Run s s' × (s'.phase i ≡ holding)

attempt-holding :
    {T : Type 0} (s : System T) (i : ℕ) → s.lock.locked ≡ false → (attempt i s).phase i ≡ holding
unfolding attempt try_lock
attempt-holding s i free = rw free (update-same s.phase i holding)

look-trying :
    {T : Type 0} (s : System T) (i : ℕ) → s.lock.locked ≡ false → (look i s).phase i ≡ trying
unfolding look
look-trying s i free = rw free (update-same s.phase i trying)

look-free :
    {T : Type 0} (s : System T) (i : ℕ) → s.lock.locked ≡ false → (look i s).lock.locked ≡ false
unfolding look
look-free s i free = free

-- From a free lock, whatever the thread does, at the end of a run.
free-CanHold :
    {T : Type 0} (s s' : System T) (i : ℕ) (p : Phase)
    → Run s s'
    → s'.lock.locked ≡ false
    → s'.phase i ≡ p
    → CanHold s i
free-CanHold s s' i outside r free at =
    let next = enter i s' in
    let now : next.phase i ≡ trying = update-same s'.phase i trying in
    (
      attempt i next,
      andthen (andthen r (entered i at)) (attempted i now),
      attempt-holding next i free,
    )
free-CanHold s s' i trying r free at =
    (attempt i s', andthen r (attempted i at), attempt-holding s' i free)
free-CanHold s s' i spinning r free at =
    let next = look i s' in
    let now = look-trying s' i free in
    (
      attempt i next,
      andthen (andthen r (looked i at)) (attempted i now),
      attempt-holding next i (look-free s' i free),
    )
free-CanHold s s' i holding r free at = (s', r, at)

-- From every state that threads come to from a new lock, and for every thread, some actions in a row end
-- in a state in which this thread holds the guard.
pub Reach-CanHold : {T : Type 0} (value : T) (s : System T) (i : ℕ) → Reach value s → CanHold s i
Reach-CanHold value s i r = elim (Bool-cases s.lock.locked) [
  | inl e ↦
      let (k, at) = (Reach-IsExclusive value s r).holder e in
      let next = release k s in
      free-CanHold s next i (next.phase i) (andthen stay (released k at)) refl refl
  | inr e ↦ free-CanHold s s i (s.phase i) stay e refl
]
