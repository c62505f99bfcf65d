-- ===== src/Tasks/Create.antt =====
-- The three constructors of tasks (crap_os/src/task_scheduler/task.rs). The stack is a block of the
-- heap of which only the address matters, and a frame is written at its top.
use crap_os.Base.{arith, ◌≤◌, ◌<◌, ℕ, ◌+◌, ◌-◌, ◌*◌, ◌%◌, ◌^◌, ◌≡◌, true, false}
use crap_os.Tasks.Ids.{TaskId, task_id, idle}
use crap_os.Tasks.State.{Task, ready, running}
use crap_os.Tasks.Switch.{task_quantum_ticks}

abbrev pub task_stack_size : ℕ
task_stack_size = 16 * 1024

-- `TaskId::PENDING`: no slot has this index.
abbrev pub pending : TaskId
pending = task_id (2 ^ 64 - 1) 0

-- `& !0xF`
abbrev pub align_down : ℕ → ℕ
align_down x = x - x % 16

pub record KernelInitialFrame : Type 0 where
  pub r15 : ℕ
  pub r14 : ℕ
  pub r13 : ℕ
  pub r12 : ℕ
  pub rbx : ℕ
  pub rbp : ℕ
  pub rip : ℕ

pub record UserInitialFrame : Type 0 where
  pub r15 : ℕ
  pub r14 : ℕ
  pub r13 : ℕ
  pub r12 : ℕ
  pub rbx : ℕ
  pub rbp : ℕ
  pub rip : ℕ
  pub iretq_rip : ℕ
  pub iretq_cs : ℕ
  pub iretq_rflags : ℕ
  pub iretq_rsp : ℕ
  pub iretq_ss : ℕ

abbrev pub kernel_frame_size : ℕ
kernel_frame_size = 7 * 8

abbrev pub user_frame_size : ℕ
user_frame_size = 12 * 8

abbrev pub new_idle : ℕ → Task
new_idle thread = record {
  id = idle;
  state = running;
  saved_rsp = 0;
  kernel_stack_top = 0;
  is_user_task = false;
  cr3 = 0;
  ticks_remaining = task_quantum_ticks;
  ticks_executed = 0;
  thread = thread;
}

-- The task, and the frame that stands at its `saved_rsp`. `stack` is the address of the stack, and
-- `stub` that of `task_entry_stub`.
unfoldable pub new_kernel : ℕ → ℕ → ℕ → ℕ → ℕ → Task × KernelInitialFrame
new_kernel stack stub entry arg thread =
    let stack_top = align_down ((stack + task_stack_size) % 2 ^ 64) in
    let frame_ptr = align_down (stack_top - kernel_frame_size) in
    (
      record {
        id = pending;
        state = ready;
        saved_rsp = frame_ptr;
        kernel_stack_top = stack_top;
        is_user_task = false;
        cr3 = 0;
        ticks_remaining = task_quantum_ticks;
        ticks_executed = 0;
        thread = thread;
      },
      record { r15 = 0; r14 = 0; r13 = arg; r12 = entry; rbx = 0; rbp = 0; rip = stub },
    )

abbrev pub user_cs : ℕ
user_cs = 0x33

abbrev pub user_ds : ℕ
user_ds = 0x2B

abbrev pub user_rflags : ℕ
user_rflags = 2 ^ 9 + 2 ^ 1

unfoldable pub new_user : ℕ → ℕ → ℕ → ℕ → ℕ → ℕ → Task × UserInitialFrame
new_user stack stub user_entry user_stack_top pml4_phys thread =
    let stack_top = align_down ((stack + task_stack_size) % 2 ^ 64) in
    let frame_ptr = align_down (stack_top - user_frame_size) in
    (
      record {
        id = pending;
        state = ready;
        saved_rsp = frame_ptr;
        kernel_stack_top = stack_top;
        is_user_task = true;
        cr3 = pml4_phys;
        ticks_remaining = task_quantum_ticks;
        ticks_executed = 0;
        thread = thread;
      },
      record {
        r15 = 0;
        r14 = 0;
        r13 = 0;
        r12 = 0;
        rbx = 0;
        rbp = 0;
        rip = stub;
        iretq_rip = user_entry;
        iretq_cs = user_cs;
        iretq_rflags = user_rflags;
        iretq_rsp = user_stack_top;
        iretq_ss = user_ds;
      },
    )

-- For a stack below `2 ^ 64`, the frame of a new kernel task lies in the stack, below its aligned top,
-- and is aligned to 16 bytes. When the frame is popped, the stack pointer is 8 bytes off that
-- alignment.
pub frames-fit :
    (stack stub entry arg thread : ℕ)
    → stack + task_stack_size < 2 ^ 64
    → let t = (new_kernel stack stub entry arg thread).0 in
      (stack ≤ t.saved_rsp)
      × (t.saved_rsp + kernel_frame_size ≤ t.kernel_stack_top)
      × (t.kernel_stack_top ≤ stack + task_stack_size)
      × (t.saved_rsp % 16 ≡ 0)
      × ((t.saved_rsp + kernel_frame_size) % 16 ≡ 8)
unfolding new_kernel
frames-fit stack stub entry arg thread h =
    (omega arith, omega arith, omega arith, omega arith, omega arith)

-- For a stack below `2 ^ 64`, the frame of a new user task lies in the stack, below its aligned top, and
-- is aligned to 16 bytes at both ends.
pub user_frames-fit :
    (stack stub entry user_stack_top pml4 thread : ℕ)
    → stack + task_stack_size < 2 ^ 64
    → let t = (new_user stack stub entry user_stack_top pml4 thread).0 in
      (stack ≤ t.saved_rsp)
      × (t.saved_rsp + user_frame_size ≤ t.kernel_stack_top)
      × (t.kernel_stack_top ≤ stack + task_stack_size)
      × (t.saved_rsp % 16 ≡ 0)
      × ((t.saved_rsp + user_frame_size) % 16 ≡ 0)
unfolding new_user
user_frames-fit stack stub entry top pml4 thread h =
    (omega arith, omega arith, omega arith, omega arith, omega arith)
