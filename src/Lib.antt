-- ===== src/Lib.antt =====
-- CrapOS, a kernel for x86-64: the task scheduler, the page allocator, the page tables, the kernel
-- heap, the spinlocks, the processes, BLAKE2b, Argon2id, the random numbers, the tables of the
-- firmware and of the processor, the keyboard and the helper functions, modelled on the Rust code
-- under crap_os/src.
--
-- The parts, and where each is modelled:
--   Ring            the ring buffers: `PerCpuQueue` (task_scheduler/scheduler.rs, 2^8 slots),
--                   `ReaperQueue` and `TombstoneQueue` (task_scheduler/reaper.rs, 2^6), the system
--                   task queue (system_core/system_task_queue.rs, 2^5) and `ScancodeBuffer`
--                   (hardware_manager/keyboard.rs, 2^8). Ring.Fifo is the interface that they share.
--   Tasks.Table     `GlobalScheduler` of task_scheduler/scheduler.rs: slots with generations.
--   Tasks.Sleep     task_scheduler/sleep_queue.rs: the delta queue on its array.
--   Tasks.Wake      `wake`, and the tick of the sleep queue with its calls of `wake`.
--   Tasks.Switch    `schedule` and its callers. `choose` is `schedule` up to `switch_to`.
--   Tasks.Reaper    the end of a task: `kill_task`, `reap_dying_tasks`, `tombstone_cleanup`,
--                   `remove_task`, `drain_system_tasks` and `Thread::exit`.
--   Tasks.Timer     `on_timer_tick` and `handler_apic_timer` (processor_control/idt.rs).
--   Tasks.Create    the constructors of task_scheduler/task.rs.
--   Tasks.Queues    the queues as lists, by Ring.Runs.
--   Keyboard        hardware_manager/keyboard.rs.
--   Pages           memory_manager/pmm.rs.
--   Paging          memory_manager/vmm.rs: the four levels of tables in the memory of Pages. The tables
--                   of a sound memory are a tree, by a label of each table with the indices on its
--                   way from the root; the pages of the free list are not tables. Paging.Boot has the
--                   maps of the start-up, Paging.Manager and Paging.AddressSpace are
--                   memory_manager/manager.rs and memory_manager/address_space.rs.
--   Heap            memory_manager/kernel_heap.rs: the free list through the words of the heap, against
--                   a list of blocks in order (Heap.Blocks); `grow` takes its pages from Paging.
--   Spinlock        spinlock.rs: the plain lock and the lock that keeps the interrupts off, as atomic
--                   actions of any number of threads in any order.
--   Blake           crypto/hash/blake2b.rs, on lists of bytes; Blake.Absorb has its reference.
--   Argon           crypto/hash/argon2.rs: the filling of the memory. Argon.Compress has the compression
--                   of two blocks, Argon.Phc the records as text, Argon.Password
--                   the hashing and the verification.
--   Rng             crypto/rng.rs: the pool and both generators.
--   Processes       process_manager/process.rs, process_manager/manager.rs and process_manager/thread.rs,
--                   on top of Tasks. Processes.Sound is the ownership of processes and threads.
--   Acpi            hardware_manager/acpi.rs and processor_control/topology.rs. Acpi.Layout has the
--                   tables as the specification of ACPI lays them out.
--   Descriptors     processor_control/gdt.rs and processor_control/idt.rs: what is written to the tables.
--   Helpers         helper_functions.rs.
--   Base            names of the libraries, lists, tests and results that the parts share.
--   Tests           the theorems at concrete inputs.
--
-- The routines of the scheduler work on statics. They are functions from the record
-- Tasks.State.Kernel, one field for each static, to an Outcome: the result with the next state, a
-- panic (`unwrap`, `expect`), or the end of the fuel. A routine is one step: what an interrupt can
-- do between two locked sections of it is not modelled. There is one CPU, the boot CPU. A
-- reference into the task table is a lookup and a write of the slot, and a thread is looked up by
-- the address that a weak reference holds. The loops that drain a queue have the length of the
-- queue and one as their fuel; each round takes an entry out, so it is enough. The walks of the
-- heap have a fuel that is larger than the number of blocks; `allocate` needs two rounds, since
-- the region that it grows by is large enough. The loops over a range of addresses have a round
-- for each page and two more. The words of the heap and the words of the physical memory are two
-- memories: the pages that the heap gets are its own. Numbers are natural numbers with the
-- wrap-around of their width written out where the code can reach it. A block of the heap that a
-- process, a thread or a stack is in is named by its address, which the caller of the model
-- passes. In Argon2 a subtraction below zero is a panic, as with overflow checks; the theorems
-- show that it is not reached. The loops over the tables of ACPI have a round for each entry and
-- one more. The random number instructions and the counters of the processor are functions of the
-- number of times that they were asked.
--
-- An access to the memory does not fault in the model, but for the write of `unmap_and_free_page`,
-- which panics at an address that is not canonical.
--
-- Not modelled: assembly (`switch_to` but for its write of the stack pointer, the entry stubs, the
-- flushes of the translation buffer), the order of memory accesses that are not atomic, prints,
-- the per-CPU slots, the ciphers and the other hashes, and the other drivers.
mod Base
pub mod Processes
pub mod Ring
pub mod Rng
pub mod Spinlock
pub mod Tasks
pub mod Helpers
pub mod Keyboard
pub mod Pages
mod Tests
pub mod Paging
pub mod Acpi
pub mod Argon
pub mod Blake
pub mod Descriptors
pub mod Heap
