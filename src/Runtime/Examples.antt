-- ===== src/Runtime/Examples.antt =====
-- A small kernel for runs of the run-time (src/): its state is a mask, and its clock stands.
pub mod Threads
pub mod Queue
pub mod Clock
pub mod Preempted
pub mod Slots
use mathlib.Core.List.{Mem, Perm, mem-cons_self}
use mathlib.Core.List.Memᴰ
use mathlib.Core.List.Perm
use mathlib.Core.Logic.{∥∥₁_elim}
use mathlib.Core.Bool.{Bool-set}
use linux_rtfm.Base.{
  ℕ, zero, suc, ◌+◌, ◌-◌, ◌^◌, ◌≤◌, ◌<◌, ◌≡◌, ◌≢◌, ◌↔◌, ◌⊎◌, refl, sym, ap, subst, Bool, true,
  false, ◌&&◌, ◌||◌, not, Option, none, some, List, [], ◌∷◌, length, ltb, leb, ◌==◌, if◌then◌else◌,
  arith, inl, inr,
}
use linux_rtfm.Base.Run.{done}
use linux_rtfm.Base.Int.{pos, wrap, ◌+ℤ◌}
use linux_rtfm.Base.Bits.{bit}
use linux_rtfm.Base.State.{State, modify, Returns}
use linux_rtfm.Runtime.Time.{
  Instant, Timespec, Duration, checked_add_isize, try_from_u64, instant, lt, partial_cmp, less,
  greater, equal, checked_add, nanos_in_one_sec, checked_duration_since, saturating_duration_since,
}
use linux_rtfm.Runtime.Time.Elapsed.{
  checked_add-some, checked_add-none, partial_cmp-elapsed, checked_duration_since-elapsed,
  saturating_duration_since-elapsed, IsNormal, elapsed, total, of_nanos,
}
use linux_rtfm.Runtime.Kernel.{
  Kernel, Syscall, MaskHow, rt_sigprocmask, sig_block, sig_unblock, timer_settime,
}
use linux_rtfm.Runtime.Cells.{
  Barrier, release, new_barrier, wait_barrier, Pid, init_pid, uninit_pid, wait_pid,
}
use linux_rtfm.Runtime.Cells.Waiting.{wait_barrier-ends, wait_pid-ends, FirstReleased}
use linux_rtfm.Runtime.Signals.{
  Range, init_word, mask_word, action_word, handler_signal, mask, lock, Cpu,
}
use linux_rtfm.Runtime.Signals.Words.{Fits, init-bits, mask-bits, action-bits}
use linux_rtfm.Runtime.Signals.Levels.{
  Masks, Synced, Leaves, mask_block-Synced, mask_unblock-Synced, enter-Synced, lock-IsAt,
}
use linux_rtfm.Runtime.TimerQueue.{
  NotReady, BinaryHeap, IsMinHeap, TimerQueue, is_earliest, enqueue_unchecked, dequeue, no_interval,
  wake,
}
use linux_rtfm.Runtime.TimerQueue.Deadlines.{
  before, Earliest, Enqueued, Dequeued, is_earliest-Earliest, enqueue_unchecked_lem, dequeue_empty,
  dequeue-Dequeued,
}

-- The bit of a word for a signal.
abbrev of_word : (w sig : ℕ) → Bool
of_word w zero = false
of_word w (suc n) = bit w n

abbrev toy_call : Syscall → (ℕ → Bool) → Option (ℕ × (ℕ → Bool))
toy_call (rt_sigprocmask sig_block w) s = some (0, λ n. s n || of_word w n)
toy_call (rt_sigprocmask sig_unblock w) s = some (0, λ n. s n && not (of_word w n))
toy_call c s = some (0, s)

abbrev reading : Timespec
reading = record { tv_sec = pos 5; tv_nsec = pos 0 }

abbrev pub toy : Kernel
toy = record { State = ℕ → Bool; call = toy_call; clock = λ s. some (reading, s); sigrtmin = 32 }

abbrev state_of : Option (ℕ × (ℕ → Bool)) → ℕ → Bool
state_of none n = false
state_of (some (v, s)) n = s n

toy_accepts :
    (how : MaskHow) (w : ℕ) (s : ℕ → Bool)
    → (v : ℕ) × (s' : ℕ → Bool) × (toy_call (rt_sigprocmask how w) s ≡ some (v, s'))
toy_accepts sig_block w s = (0, _, refl)
toy_accepts sig_unblock w s = (0, _, refl)

abbrev toy_masks : Masks toy
toy_masks = record {
  blocked = λ s n. s n;
  enter = λ sig w s n. s n || of_word w n || (n == sig);
  accepts = toy_accepts;
  blocks = λ w v s s' e n real_time. sym (ap (λ o. state_of o (suc n)) e);
  unblocks = λ w v s s' e n real_time. sym (ap (λ o. state_of o (suc n)) e);
  enters = λ sig w s n real_time. refl;
}
