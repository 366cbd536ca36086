-- ===== src/Runtime.antt =====
-- The run-time crate `rtfm` (src/): clock values, the timer queue, signals, the lock.
pub mod Time
pub mod Kernel
pub mod Cells
pub mod Signals
pub mod TimerQueue
pub mod Preemption
pub mod Channel
pub mod Examples
