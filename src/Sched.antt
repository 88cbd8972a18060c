-- ===== src/Sched.antt =====
-- src/sched/thread.rs: the table of threads, round robin, exit, signals, waiting and reaping.
-- Every function runs with interrupts off and the table locked, so a call is one step. What a
-- context switch does to registers (the saved stack pointer, page table, FS base and FPU area) is
-- src/arch/x86_64/context.rs and is not modelled; the FPU area is left out of a thread.
pub mod Table
pub mod Calls
pub mod Turn
pub mod Rotation
pub mod Step
pub mod Lifecycle
pub mod Wakeup
pub mod Reachable
pub mod History
mod Tests
