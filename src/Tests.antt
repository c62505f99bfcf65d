-- ===== src/Tests.antt =====
-- The theorems at concrete inputs.
mod Argon
mod Blake
mod Firmware
mod Helpers
mod Kernel
mod Locks
mod Memory
mod Processes
mod Queues
mod Sched
