-- ===== src/Tests/Locks.antt =====
-- The spinlocks at concrete inputs.
use crap_os.Base.{ℕ, ◌≡◌, refl, true, ◌==◌, if◌then◌else◌, arith}
use crap_os.Spinlock.{
  Reach, SpinLock, System, attempt, attempted, enter, entered, holding, new_lock, outside, start,
  started, stepped, try_lock,
}
use crap_os.Spinlock.Exclusion.{IsExclusive, Reach-IsExclusive, Reach-isolated}
use crap_os.Spinlock.Progress.{CanHold, Reach-CanHold}
use crap_os.Spinlock.Irq.{IrqRun, IrqSystem, inside, restored, second_drop-opens, waiting}

-- Thread 0 has the lock of the value 7, and thread 1 comes to it.
abbrev one_inside : System ℕ
one_inside = attempt 0 (enter 0 (start 7))

one_inside-Reach : Reach 7 one_inside
one_inside-Reach = stepped (stepped started (entered 0 refl)) (attempted 0 refl)

one_holding : one_inside.phase 0 ≡ holding
unfolding attempt try_lock
one_holding = refl

one_outside : one_inside.phase 1 ≡ outside
unfolding attempt
one_outside = refl

Reach-IsExclusive_example : IsExclusive one_inside
Reach-IsExclusive_example = Reach-IsExclusive 7 one_inside one_inside-Reach

Reach-isolated_example :
    ((enter 1 one_inside).phase 0 ≡ holding)
    × ((enter 1 one_inside).lock.value ≡ one_inside.lock.value)
    × ((enter 1 one_inside).lock.locked ≡ true)
Reach-isolated_example =
    Reach-isolated 7 one_inside (enter 1 one_inside) 0 one_inside-Reach one_holding
      (entered 1 one_outside) (λ e. omega arith)

abbrev a_lock : SpinLock ℕ
a_lock = new_lock 7

-- CPU 0 is between the two stores, and the CPUs 1 and 2 wait.
abbrev between : IrqSystem ℕ
between = record { lock = new_lock 7; phase = λ i. if i == 0 then restored else waiting }

second_drop-opens_example :
    (s' : IrqSystem ℕ) × IrqRun between s' × (s'.phase 1 ≡ inside) × (s'.phase 2 ≡ inside)
second_drop-opens_example =
    second_drop-opens between 0 1 2 (λ e. omega arith) (λ e. omega arith) (λ e. omega arith) refl
      refl refl refl

Reach-CanHold_example : CanHold one_inside 1
Reach-CanHold_example = Reach-CanHold 7 one_inside 1 one_inside-Reach
