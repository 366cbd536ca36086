-- ===== src/Runtime/Examples/Threads.antt =====
-- The masks and the lock of src/export.rs on a thread with two levels.
use linux_rtfm.Base.{ℕ, suc, ◌+◌, ◌≡◌, refl, ap, Bool, ◌||◌, leb, ◌==◌, arith}
use linux_rtfm.Base.State.{State, modify, Returns}
use linux_rtfm.Runtime.Signals.{Range, action_word, handler_signal, lock, Cpu}
use linux_rtfm.Runtime.Signals.Words.{Fits}
use linux_rtfm.Runtime.Signals.Levels.{Synced, Leaves, enter-Synced, lock-IsAt}
use linux_rtfm.Runtime.Examples.{toy, toy_masks}

-- Two levels.
abbrev pub two : Range
two = record { start = 0; end = 2 }

pub two-Fits : Fits 32 two
two-Fits = record {
  first = omega arith;
  last = omega arith;
  ordered = omega arith;
  bounded = omega arith;
}

-- The signal of level 1 is blocked.
abbrev pub at_1 : ℕ → Bool
at_1 n = n == 33

abbrev at_2 : ℕ → Bool
at_2 n = n == 33 || n == 32

pub at_1-Synced : Synced toy toy_masks two two-Fits 1 at_1
at_1-Synced p low high = ground arith

at_2-Synced : Synced toy toy_masks two two-Fits 2 at_2
at_2-Synced p low high = ground arith

abbrev cpu : Cpu toy ℕ
cpu = record { priority = record { inner = 1 }; kernel = at_1; resource = 0 }

abbrev increment : State (Cpu toy ℕ) (Unit {0})
increment = modify λ c. record c { resource = suc c.resource }

lock-IsAt_example :
    Returns
      (Leaves toy toy_masks two two-Fits 2 (omega arith) increment (λ _ n. n ≡ 1) 1)
      (lock toy 2 two increment cpu)
lock-IsAt_example =
    lock-IsAt toy toy_masks two two-Fits 2 (omega arith) increment (λ _ n. n ≡ 1) cpu
      (refl, at_1-Synced) (λ c at same. (at, ap suc same))

enter-Synced_example :
    toy_masks.blocked (toy_masks.enter (32 + handler_signal two 2) (action_word 32 two 2) at_1) 33
    ≡ leb 1 2
enter-Synced_example =
    enter-Synced toy toy_masks two two-Fits 1 2 at_1 (omega arith) (omega arith) (omega arith)
      at_1-Synced 1 (omega arith) (omega arith)
