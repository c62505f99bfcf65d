-- ===== src/Tasks/Timer.antt =====
-- The tick of the clock (crap_os/src/processor_control/idt.rs, `handler_apic_timer`), and its part
-- in the scheduler, `on_timer_tick`.
pub mod Quantum
use crap_os.Base.{ℕ, ◌+◌, ◌-◌, ◌%◌, ◌^◌, Bool, true, false, Option, none, some, if◌then◌else◌, leb}
use crap_os.Tasks.Outcome.{Outcome, done, panic, no_fuel, ◌>>=◌}
use crap_os.Tasks.Reaper.{drain_system_tasks, reap_dying_tasks, tombstone_cleanup}
use crap_os.Tasks.State.{Task, Kernel}
use crap_os.Tasks.Switch.{Switch, schedule, task_quantum_ticks}
use crap_os.Tasks.Table.{get_task, put_task}
use crap_os.Tasks.Wake.{tick_sleep_queue}

-- `ticks_executed.fetch_add(1)` on the current task.
abbrev pub count_tick : Kernel → Kernel
count_tick k = elim (get_task k.tasks k.current) [
  | none ↦ k
  | some t ↦ record k {
    tasks =
        put_task k.tasks k.current (record t { ticks_executed = (t.ticks_executed + 1) % 2 ^ 64 });
  }
]

-- The quantum of the CPU after a tick, and whether it is over.
abbrev pub count_quantum : ℕ → Bool × ℕ
count_quantum remaining =
    if leb remaining 1 then (true, task_quantum_ticks) else (false, remaining - 1)

unfoldable pub on_timer_tick : Kernel → Outcome (Bool × Kernel)
on_timer_tick k = do
  (_, k1) ← tick_sleep_queue k
  (let (expired, left) = count_quantum k1.cpu_ticks_remaining in
      done (expired, record (count_tick k1) { cpu_ticks_remaining = left }))

-- The handler. The last answer is what `schedule` switches to, if it is called.
unfoldable pub handler_apic_timer : ℕ → Kernel → Outcome (Option Switch × Kernel)
handler_apic_timer rsp k = do
  (expired, k1) ← on_timer_tick (record k { timer_ticks = (k.timer_ticks + 1) % 2 ^ 64 })
  k2 ← drain_system_tasks k1
  k3 ← tombstone_cleanup k2
  k4 ← reap_dying_tasks k3
  (let k5 = record k4 { force_reschedule = false } in
      let forced = schedule rsp k5 in
      let switched = schedule rsp k4 in
      if k4.force_reschedule then forced else if expired then switched else done (none, k4))
