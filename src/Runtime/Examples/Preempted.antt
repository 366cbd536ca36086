-- ===== src/Runtime/Examples/Preempted.antt =====
-- A task of level 1 that is in `lock` (src/export.rs) when a task of level 2 interrupts it, on a thread
-- with two levels.
use mathlib.Core.List.{Mem, mem-cons_self}
use linux_rtfm.Base.{
  ℕ, suc, ◌+◌, refl, ap, subst, Bool, false, ◌||◌, ◌&&◌, not, some, [], ◌∷◌, arith,
}
use linux_rtfm.Base.Run.{done-inj}
use linux_rtfm.Base.State.{State, modify}
use linux_rtfm.Runtime.Cells.{new_priority, get_priority, set_priority}
use linux_rtfm.Runtime.Signals.{Cpu, lock, mask, mask_word, action_word, handler_signal}
use linux_rtfm.Runtime.Signals.Words.{mask-bits}
use linux_rtfm.Runtime.Signals.Levels.{Synced}
use linux_rtfm.Runtime.Preemption.{
  quiet, Frame, Thread, Sigreturn, entered, enter, lock_cell, lock_mask, Reaches, here, next,
  started, held,
}
use linux_rtfm.Runtime.Preemption.Exclusion.{held_once}
use linux_rtfm.Runtime.Preemption.Runs.{Runs, running, lock-Runs}
use linux_rtfm.Runtime.Examples.{toy, toy_masks, of_word}
use linux_rtfm.Runtime.Examples.Threads.{two, two-Fits, at_1}

-- The resources are numbers, and each is its own ceiling.
abbrev ceiling : ℕ → ℕ
ceiling x = x

abbrev toy_return : Sigreturn toy toy_masks
toy_return = record { leave = λ saved s. saved; leaves = λ saved s n. refl }

abbrev nothing_blocked : ℕ → Bool
nothing_blocked n = false

nothing_blocked-Synced : Synced toy toy_masks two two-Fits 0 nothing_blocked
nothing_blocked-Synced p low high = ground arith

abbrev T : Type 0
T = Thread (ℕ → Bool) ℕ

abbrev t0 : T
t0 = started toy toy_masks toy_return two ceiling [] nothing_blocked

-- `idle`, in `lock` of the resource 1.
abbrev idle_1 : Frame (ℕ → Bool) ℕ
idle_1 = record {
  base = 0;
  priority = record { inner = 1 };
  direct = [];
  locks = (1, some 0) ∷ [];
  pending = quiet;
  saved = nothing_blocked;
}

abbrev blocked_1 : ℕ → Bool
blocked_1 = of_word (mask_word 32 two 0 1)

abbrev task_2 : Frame (ℕ → Bool) ℕ
task_2 = entered toy toy_masks toy_return two ceiling 2 (2 ∷ []) blocked_1

abbrev t3 : T
t3 = record {
  kernel = toy_masks.enter (32 + handler_signal two 2) (action_word 32 two 2) blocked_1;
  frames = task_2 ∷ idle_1 ∷ [];
}

run : Reaches toy toy_masks toy_return two ceiling t0 t3
unfolding get_priority set_priority new_priority mask
run =
    next
      (next
        (next here (
          lock_cell 1 nothing_blocked
            (entered toy toy_masks toy_return two ceiling 0 [] nothing_blocked) [] refl
            (omega arith, omega arith) (omega arith)))
        (lock_mask 1 0 nothing_blocked blocked_1 _ [] refl refl))
      (enter 2 (2 ∷ []) blocked_1 idle_1 [] (omega arith) (omega arith)
        (((omega arith, omega arith)), tt)
        (mask-bits 32 two two-Fits 0 1 31 (omega arith) (omega arith)))

held_once_example : ¬ Mem 2 (held idle_1)
held_once_example =
    held_once toy toy_masks toy_return two two-Fits ceiling [] nothing_blocked tt
      nothing_blocked-Synced t3 run [] [] [] task_2 idle_1 2 refl mem-cons_self

-- Code of a task of level 1 that uses the resource 2 under its lock.
abbrev touch : State (Cpu toy ℕ) (Unit {0})
touch = modify λ c. record c { resource = suc c.resource }

touch-Runs : Runs toy toy_masks toy_return two ceiling 1 touch
touch-Runs g fs c c' a same calm ran =
    subst
      (λ (c' : Cpu toy ℕ).
        Reaches toy toy_masks toy_return two ceiling
          (running toy toy_masks toy_return two ceiling c g fs)
          (running toy toy_masks toy_return two ceiling c' g fs))
      (ap (λ (p : (Unit {0}) × Cpu toy ℕ). p.1) (done-inj ran)) here

abbrev before_ : Cpu toy ℕ
before_ = record { priority = record { inner = 1 }; kernel = at_1; resource = 0 }

abbrev restored : ℕ → Bool
restored n = let w = mask_word 32 two 1 2 in (at_1 n || of_word w n) && not (of_word w n)

abbrev after_ : Cpu toy ℕ
after_ = record { priority = record { inner = 1 }; kernel = restored; resource = 1 }

abbrev task_1 : Frame (ℕ → Bool) ℕ
task_1 = entered toy toy_masks toy_return two ceiling 1 [] nothing_blocked

lock-Runs_example :
    Reaches toy toy_masks toy_return two ceiling
      (running toy toy_masks toy_return two ceiling before_ task_1 [])
      (running toy toy_masks toy_return two ceiling after_ task_1 [])
unfolding lock mask get_priority set_priority
lock-Runs_example =
    lock-Runs toy toy_masks toy_return two ceiling 1 2 touch (omega arith, omega arith) touch-Runs
      task_1 [] before_ after_ tt refl refl refl
