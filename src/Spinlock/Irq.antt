-- ===== src/Spinlock/Irq.antt =====
-- The lock that keeps the interrupts off (`IrqSpinLock`): the flags of one CPU, and the two stores that
-- the drop of its guard comes to, seen by other CPUs.
use crap_os.Base.{
  ℕ, ◌-◌, ◌*◌, ◌≡◌, ◌≢◌, refl, ◌∙◌, sym, true, false, none, some, if◌then◌else◌, update, arith,
}
use crap_os.Spinlock.{
  SpinLock, drop_guard, drop_irq_guard, interrupts_enabled, irq_try_lock, try_lock,
}
use crap_os.Spinlock.Exclusion.{update-other, update-same}

-- A call of `try_lock` on a taken lock changes nothing. On a free one it takes the lock with the
-- interrupts off, and the drop of the guard frees the lock and gives the flags back, whatever they are then.
pub irq_try_lock-balanced :
    {T : Type 0} (l : SpinLock T) (rflags : ℕ)
    → (l.locked ≡ true → irq_try_lock l rflags ≡ (none, l, rflags))
      × (l.locked ≡ false
          → (off : ℕ) × (irq_try_lock l rflags ≡ (some rflags, record l { locked = true }, off))
            × (interrupts_enabled off ≡ 0)
            × ((value : T) (later : ℕ)
                → drop_irq_guard rflags (record { locked = true; value = value }) later
                  ≡ (record { locked = false; value = value }, rflags)))
unfolding irq_try_lock try_lock
irq_try_lock-balanced l rflags = (
  λ e. rw e refl,
  λ e. (rflags - interrupts_enabled rflags * 512, rw e refl, omega arith, λ value later. refl),
)

-- The phases of a thread, `restored` between the two stores of the drop.
pub data IrqPhase : Type 0 where
  idle waiting inside restored : IrqPhase

pub record IrqSystem (T : Type 0) : Type 0 where
  pub lock : SpinLock T
  pub phase : ℕ → IrqPhase

module _ {T : Type 0} where
  abbrev pub irq_attempt : ℕ → IrqSystem T → IrqSystem T
  irq_attempt i s = record {
    lock = (try_lock s.lock).1;
    phase = update s.phase i (if (try_lock s.lock).0 then inside else waiting);
  }

  abbrev pub first_drop : ℕ → IrqSystem T → IrqSystem T
  first_drop i s = record { lock = drop_guard s.lock; phase = update s.phase i restored }

  abbrev pub second_drop : ℕ → IrqSystem T → IrqSystem T
  second_drop i s = record { lock = drop_guard s.lock; phase = update s.phase i idle }

-- One atomic action of a CPU.
pub data IrqStep {T : Type 0} (s : IrqSystem T) : IrqSystem T → Type 0 where
  called : (i : ℕ) → s.phase i ≡ idle → IrqStep s (record s { phase = update s.phase i waiting })
  attempted : (i : ℕ) → s.phase i ≡ waiting → IrqStep s (irq_attempt i s)
  dropped : (i : ℕ) → s.phase i ≡ inside → IrqStep s (first_drop i s)
  dropped_again : (i : ℕ) → s.phase i ≡ restored → IrqStep s (second_drop i s)

-- Some actions in a row.
pub data IrqRun {T : Type 0} (s : IrqSystem T) : IrqSystem T → Type 0 where
  stay : IrqRun s s
  andthen : {s' s'' : IrqSystem T} → IrqRun s s' → IrqStep s' s'' → IrqRun s s''

attempt_free :
    {T : Type 0} (s : IrqSystem T) (j : ℕ)
    → s.lock.locked ≡ false
    → irq_attempt j s
      ≡ record { lock = record s.lock { locked = true }; phase = update s.phase j inside }
unfolding try_lock
attempt_free s j e = rw e refl

-- A CPU is between the two stores and two others wait: then both can come to hold the lock.
pub second_drop-opens :
    {T : Type 0} (s : IrqSystem T) (i j k : ℕ)
    → i ≢ j
    → i ≢ k
    → j ≢ k
    → s.lock.locked ≡ false
    → s.phase i ≡ restored
    → s.phase j ≡ waiting
    → s.phase k ≡ waiting
    → (s' : IrqSystem T) × IrqRun s s' × (s'.phase j ≡ inside) × (s'.phase k ≡ inside)
unfolding try_lock
second_drop-opens s i j k ij ik jk free at_i at_j at_k =
    let s1 = irq_attempt j s in
    let s2 = second_drop i s1 in
    let s3 = irq_attempt k s2 in
    let i1 : s1.phase i ≡ restored =
      update-other s.phase j i (if (try_lock s.lock).0 then inside else waiting) ij ∙ at_i in
    let k2 : s2.phase k ≡ waiting =
      update-other s1.phase i k idle (λ e. ik (sym e))
      ∙ update-other s.phase j k (if (try_lock s.lock).0 then inside else waiting) (λ e. jk (sym e))
      ∙ at_k in
    let j1 : s1.phase j ≡ inside =
      update-same s.phase j (if (try_lock s.lock).0 then inside else waiting) ∙ rw free refl in
    let j3 : s3.phase j ≡ inside =
      update-other s2.phase k j inside jk ∙ update-other s1.phase i j idle (λ e. ij (sym e)) ∙ j1 in
    (
      s3,
      andthen (andthen (andthen stay (attempted j at_j)) (dropped_again i i1)) (attempted k k2),
      j3,
      update-same s2.phase k inside,
    )
