-- ===== src/Runtime/Kernel.antt =====
-- The system calls that the run-time makes, and the kernel that answers them. The kernel and the
-- `nc` crate are not part of the repository, so `Kernel` is a parameter of what follows.
use linux_rtfm.Base.{ℕ, Option}
use linux_rtfm.Base.Run.{done}
use linux_rtfm.Base.State.{State, expect, and_then}
use linux_rtfm.Runtime.Time.{Timespec, Instant}

pub data MaskHow : Type 0 where
  sig_block sig_unblock : MaskHow

pub data Notify : Type 0 where
  sigev_signal : Notify
  sigev_thread_id : (tid : ℕ) → Notify

-- `siginfo_t` as `enqueue` fills it: `si_code` is `SI_QUEUE`.
pub record SigInfo : Type 0 where
  pub sival_ptr : ℕ

-- Each constructor is a call with the arguments that the source computes; what it passes as a
-- fixed constant (`TIMER_ABSTIME`, `SA_SIGINFO`, the `clone` and `mmap` flags) is in the name.
pub data Syscall : Type 0 where
  sched_setaffinity : (tid mask : ℕ) → Syscall
  sched_setscheduler_fifo : (pid priority : ℕ) → Syscall
  rt_sigprocmask : (how : MaskHow) (mask : ℕ) → Syscall
  rt_sigaction : (sig handler mask : ℕ) → Syscall
  rt_sigqueueinfo : (tgid sig : ℕ) (info : SigInfo) → Syscall
  rt_tgsigqueueinfo : (tgid tid sig : ℕ) (info : SigInfo) → Syscall
  tgkill : (tgid tid sig : ℕ) → Syscall
  kill : (pid sig : ℕ) → Syscall
  timer_create : (sig : ℕ) (notify : Notify) → Syscall
  timer_settime : (timer : ℕ) (interval value : Timespec) → Syscall
  mmap_stack : (length : ℕ) → Syscall
  clone_thread : (stack : ℕ) → Syscall

pub record Kernel : Type 1 where
  pub State : Type 0
  -- A call's result and the state after it, or its error.
  pub call : Syscall → State → Option (ℕ × State)
  -- `clock_gettime(CLOCK_MONOTONIC)`
  pub clock : State → Option (Timespec × State)
  -- The number of the first real-time signal.
  pub sigrtmin : ℕ

-- A system call with `.expect(…)`.
abbrev pub call : (k : Kernel) → Syscall → State k.State ℕ
call k c s = expect (k.call c s)

-- `clock_gettime` and `Instant::now` of src/time.rs.
unfoldable pub now : (k : Kernel) → State k.State Instant
now k s = and_then (expect (k.clock s)) (λ ts s'. done (record { ts = ts }, s'))
