-- ===== src/Spinlock/Exclusion.antt =====
-- Mutual exclusion of the plain spinlock, for every number of threads and every interleaving.
use crap_os.Base.{
  ℕ, ◌≡◌, ◌≢◌, refl, ap, ◌∙◌, sym, Bool, true, false, ◌==◌, if◌then◌else◌, inl, inr, Bool-cases,
  update, arith,
}
use crap_os.Spinlock.{
  Phase, Reach, SpinLock, Step, System, attempt, attempted, entered, holding, look, looked, outside,
  released, spinning, started, stepped, trying, try_lock, wrote,
}

-- The lock is taken exactly when a thread holds the guard, and at most one does.
pub record IsExclusive {T : Type 0} (s : System T) : Type 0 where
  pub locked : (i : ℕ) → s.phase i ≡ holding → s.lock.locked ≡ true
  pub only : (i j : ℕ) → s.phase i ≡ holding → s.phase j ≡ holding → i ≡ j
  pub holder : s.lock.locked ≡ true → (i : ℕ) × (s.phase i ≡ holding)

pub update-same : {A : Type 0} (f : ℕ → A) (i : ℕ) (a : A) → update f i a i ≡ a
update-same f i a = let e : (i == i) ≡ true = ground arith in rw e refl

pub update-other : {A : Type 0} (f : ℕ → A) (i j : ℕ) (a : A) → j ≢ i → update f i a j ≡ f j
update-other f i j a ne = let e : (j == i) ≡ false = ground (arith, ne) in rw e refl

false-true : false ≡ true → ⊥
false-true e = cc

outside_holding : outside ≡ holding → ⊥
outside_holding e = cc

-- Who holds the guard after a thread moved on to another phase.
was_holding :
    (f : ℕ → Phase) (i j : ℕ) (p : Phase)
    → p ≢ holding
    → update f i p j ≡ holding
    → (f j ≡ holding) × (j ≢ i)
was_holding f i j p ne h = elim (Bool-cases (j == i)) [
  | inl e ↦
      let same : j ≡ i = ground arith in
      let now : update f i p i ≡ holding = ap (update f i p) (sym same) ∙ h in
      absurd (ne (sym (update-same f i p) ∙ now))
  | inr e ↦
      let other : j ≢ i = λ same. ground arith in (sym (update-other f i j p other) ∙ h, other)
]

moved :
    {T : Type 0} (s : System T) (l : SpinLock T) (i : ℕ) (p : Phase)
    → IsExclusive s
    → l.locked ≡ s.lock.locked
    → s.phase i ≢ holding
    → p ≢ holding
    → IsExclusive (record { lock = l; phase = update s.phase i p })
moved s l i p h same_lock before after = record {
  locked = λ j e. same_lock ∙ h.locked j (was_holding s.phase i j p after e).0;
  only = λ j k e e'.
      h.only j k (was_holding s.phase i j p after e).0 (was_holding s.phase i k p after e').0;
  holder = λ e.
      (let (k, there) = h.holder (sym same_lock ∙ e) in
        (k, update-other s.phase i k p (λ same. before (ap s.phase (sym same) ∙ there)) ∙ there));
}

-- The lock was free, and one thread has it now.
taken :
    {T : Type 0} (s : System T) (l : SpinLock T) (i : ℕ)
    → IsExclusive s
    → s.lock.locked ≡ false
    → l.locked ≡ true
    → IsExclusive (record { lock = l; phase = update s.phase i holding })
taken s l i h free now =
    let who : (j : ℕ) → update s.phase i holding j ≡ holding → j ≡ i = λ j e.
      elim (Bool-cases (j == i)) [
        | inl same ↦ ground arith
        | inr other ↦
            let ne : j ≢ i = λ c. ground arith in
            absurd
              (false-true (sym free ∙ h.locked j (sym (update-other s.phase i j holding ne) ∙ e)))
      ] in
    record {
      locked = λ j e. now;
      only = λ j k e e'. who j e ∙ sym (who k e');
      holder = λ e. (i, update-same s.phase i holding);
    }

still_waiting : (busy : Bool) → (if busy then spinning else trying) ≢ holding
still_waiting true e = cc
still_waiting false e = cc

Step-IsExclusive : {T : Type 0} (s s' : System T) → IsExclusive s → Step s s' → IsExclusive s'
unfolding attempt try_lock look
Step-IsExclusive s _ h (entered i at) = moved s s.lock i trying h refl (λ e. cc) (λ e. cc)
Step-IsExclusive s _ h (attempted i at) = elim (Bool-cases s.lock.locked) [
  | inl e ↦
      rw e (moved s (record s.lock { locked = true }) i spinning h (sym e) (λ c. cc) (λ c. cc))
  | inr e ↦ rw e (taken s (record s.lock { locked = true }) i h e refl)
]
Step-IsExclusive s _ h (looked i at) =
    moved s s.lock i (if s.lock.locked then spinning else trying) h refl (λ c. cc)
      (still_waiting s.lock.locked)
Step-IsExclusive s _ h (wrote i value at) = record {
  locked = h.locked;
  only = h.only;
  holder = h.holder;
}
Step-IsExclusive s _ h (released i at) =
    let nobody : (j : ℕ) → update s.phase i outside j ≡ holding → ⊥ = λ j e.
      (let (there, other) = was_holding s.phase i j outside (λ c. cc) e in
        other (h.only j i there at)) in
    record {
      locked = λ j e. absurd (nobody j e);
      only = λ j k e e'. absurd (nobody j e);
      holder = λ l. absurd (false-true l);
    }

-- In every state that threads come to from a new lock, whatever their order, the lock is taken if a
-- thread holds the guard, at most one thread does, and a taken lock has such a thread.
pub Reach-IsExclusive : {T : Type 0} (value : T) (s : System T) → Reach value s → IsExclusive s
Reach-IsExclusive value _ started = record {
  locked = λ i e. absurd (outside_holding e);
  only = λ i j e e'. absurd (outside_holding e);
  holder = λ l. absurd (false-true l);
}
Reach-IsExclusive value _ (stepped {s} {s'} r t) =
    Step-IsExclusive s s' (Reach-IsExclusive value s r) t

-- The thread that acts.
abbrev pub thread : {T : Type 0} {s s' : System T} → Step s s' → ℕ
thread (entered i at) = i
thread (attempted i at) = i
thread (looked i at) = i
thread (wrote i value at) = i
thread (released i at) = i

kept_phase :
    (f : ℕ → Phase) (i j : ℕ) (p : Phase) → j ≢ i → f i ≡ holding → update f j p i ≡ holding
kept_phase f i j p ne h = update-other f j i p (λ e. ne (sym e)) ∙ h

-- While a thread holds the guard in a state that threads came to, no action of another thread changes
-- the value, takes the guard away or frees the lock.
pub Reach-isolated :
    {T : Type 0} (value : T) (s s' : System T) (i : ℕ)
    → Reach value s
    → s.phase i ≡ holding
    → (t : Step s s') → thread t ≢ i
    → (s'.phase i ≡ holding) × (s'.lock.value ≡ s.lock.value) × (s'.lock.locked ≡ true)
unfolding attempt try_lock look
Reach-isolated value s _ i r h (entered j at) ne =
    (kept_phase s.phase i j trying ne h, refl, (Reach-IsExclusive value s r).locked i h)
Reach-isolated value s _ i r h (attempted j at) ne =
    let busy = (Reach-IsExclusive value s r).locked i h in
    rw busy (kept_phase s.phase i j spinning ne h, refl, refl)
Reach-isolated value s _ i r h (looked j at) ne =
    let busy = (Reach-IsExclusive value s r).locked i h in
    (kept_phase s.phase i j (if s.lock.locked then spinning else trying) ne h, refl, busy)
Reach-isolated value s _ i r h (wrote j v at) ne =
    absurd (ne ((Reach-IsExclusive value s r).only j i at h))
Reach-isolated value s _ i r h (released j at) ne =
    absurd (ne ((Reach-IsExclusive value s r).only j i at h))
