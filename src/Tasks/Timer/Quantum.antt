-- ===== src/Tasks/Timer/Quantum.antt =====
-- The quantum of the CPU over many ticks.
use crap_os.Base.{ℕ, zero, suc, ◌+◌, ◌-◌, ◌%◌, ◌≡◌, refl, ◌==◌, arith}
use crap_os.Tasks.Switch.{task_quantum_ticks}
use crap_os.Tasks.Timer.{count_quantum}

-- The counter after some ticks of a task that started with a full quantum.
unfoldable pub quantum_after : ℕ → ℕ
quantum_after zero = task_quantum_ticks
quantum_after (suc n) = (count_quantum (quantum_after n)).1

left : (n : ℕ) → quantum_after n ≡ 4 - n % 4
unfolding quantum_after
left zero = refl
left (suc n) = ground (arith, left n)

-- The quantum is over at every fourth tick, and at no other one.
pub count_quantum-fourth : (n : ℕ) → (count_quantum (quantum_after n)).0 ≡ ((n + 1) % 4 == 0)
count_quantum-fourth n = rw (left n) (ground arith)
