-- ===== src/Spinlock.antt =====
-- The spinlocks (crap_os/src/spinlock.rs): a plain lock, taken by a compare-and-exchange, and the lock
-- that also keeps the interrupts of its CPU off. A CPU is its flags register.
pub mod Exclusion
pub mod Irq
pub mod Progress
use crap_os.Base.{
  ℕ, ◌+◌, ◌-◌, ◌*◌, ◌/◌, ◌%◌, ◌≡◌, Bool, true, false, Option, none, some, if◌then◌else◌, update,
}

pub record SpinLock (T : Type 0) : Type 0 where
  pub locked : Bool
  pub value : T

module _ {T : Type 0} where
  abbrev pub new_lock : T → SpinLock T
  new_lock value = record { locked = false; value = value }

  -- Whether the lock was taken, and the lock after the compare-and-exchange.
  unfoldable pub try_lock : SpinLock T → Bool × SpinLock T
  try_lock l = if l.locked then (false, l) else (true, record l { locked = true })

  abbrev pub is_locked : SpinLock T → Bool
  is_locked l = l.locked

  -- `drop` of a `SpinLockGuard`
  abbrev pub drop_guard : SpinLock T → SpinLock T
  drop_guard l = record l { locked = false }

-- Bit 9 of the flags enables the interrupts.
abbrev pub interrupts_enabled : ℕ → ℕ
interrupts_enabled rflags = (rflags / 512) % 2

-- The flags from before, and the flags after `cli`.
abbrev pub disable_interrupts_save : ℕ → ℕ × ℕ
disable_interrupts_save rflags = (rflags, rflags - interrupts_enabled rflags * 512)

abbrev pub restore_interrupts : ℕ → ℕ → ℕ
restore_interrupts flags rflags = flags

module _ {T : Type 0} where
  -- `try_lock` of an `IrqSpinLock`: the flags that the guard keeps, the lock and the flags after it.
  unfoldable pub irq_try_lock : SpinLock T → ℕ → Option ℕ × SpinLock T × ℕ
  irq_try_lock l rflags =
      let (flags, off) = disable_interrupts_save rflags in
      if (try_lock l).0
      then (some flags, (try_lock l).1, off)
      else (none, (try_lock l).1, restore_interrupts flags off)

  -- `drop` of an `IrqSpinLockGuard`: its own body drops the guard in it and restores the flags, and the
  -- fields of a value are dropped after the body of its `drop`, the guard in it once more.
  abbrev pub drop_irq_guard : ℕ → SpinLock T → ℕ → SpinLock T × ℕ
  drop_irq_guard flags l rflags = (drop_guard (drop_guard l), restore_interrupts flags rflags)

-- Where a thread is in the loop of `lock`, or that it holds the guard.
pub data Phase : Type 0 where
  outside trying spinning holding : Phase

pub record System (T : Type 0) : Type 0 where
  pub lock : SpinLock T
  pub phase : ℕ → Phase

module _ {T : Type 0} where
  abbrev pub start : T → System T
  start value = record { lock = new_lock value; phase = λ i. outside }

  abbrev pub enter : ℕ → System T → System T
  enter i s = record s { phase = update s.phase i trying }

  -- The fast path of the loop.
  unfoldable pub attempt : ℕ → System T → System T
  attempt i s = record {
    lock = (try_lock s.lock).1;
    phase = update s.phase i (if (try_lock s.lock).0 then holding else spinning);
  }

  -- One relaxed load of the inner loop.
  unfoldable pub look : ℕ → System T → System T
  look i s = record s { phase = update s.phase i (if is_locked s.lock then spinning else trying) }

  -- A write through the guard.
  abbrev pub write : ℕ → T → System T → System T
  write i value s = record s { lock = record s.lock { value = value } }

  abbrev pub release : ℕ → System T → System T
  release i s = record { lock = drop_guard s.lock; phase = update s.phase i outside }

-- One atomic action of one thread.
pub data Step {T : Type 0} (s : System T) : System T → Type 0 where
  entered : (i : ℕ) → s.phase i ≡ outside → Step s (enter i s)
  attempted : (i : ℕ) → s.phase i ≡ trying → Step s (attempt i s)
  looked : (i : ℕ) → s.phase i ≡ spinning → Step s (look i s)
  wrote : (i : ℕ) (value : T) → s.phase i ≡ holding → Step s (write i value s)
  released : (i : ℕ) → s.phase i ≡ holding → Step s (release i s)

-- The states that any interleaving of the threads comes to.
pub data Reach {T : Type 0} (value : T) : System T → Type 0 where
  started : Reach value (start value)
  stepped : {s s' : System T} → Reach value s → Step s s' → Reach value s'
