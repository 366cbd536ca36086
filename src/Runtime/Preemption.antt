-- ===== src/Runtime/Preemption.antt =====
-- One thread of an application: the handlers of its signals interrupt each other, and take and give
-- back resources by `lock` of src/export.rs. The body of `lock` is the user's and may be interrupted
-- anywhere, as `lock` itself, so its writes to the cell and its changes of the mask are steps.
pub mod Nesting
pub mod Exclusion
pub mod Runs
use linux_rtfm.Base.{
  ℕ, suc, ◌+◌, ◌-◌, ◌≤◌, ◌<◌, ◌≡◌, true, false, Option, none, some, List, [], ◌∷◌, ◌++◌, All, map,
}
use linux_rtfm.Base.Run.{done}
use linux_rtfm.Runtime.Kernel.{Kernel}
use linux_rtfm.Runtime.Cells.{Priority, new_priority, get_priority, set_priority}
use linux_rtfm.Runtime.Signals.{Range, action_word, handler_signal, mask}
use linux_rtfm.Runtime.Signals.Levels.{Masks, position}

-- Where a call of `lock` is between its write to the cell and its change of the mask.
pub data Pending (R : Type 0) : Type 0 where
  quiet : Pending R
  raising : (resource : R) (current : ℕ) → Pending R
  lowering : (current : ℕ) → Pending R

-- A task, of a priority level, on the thread's stack.
pub record Frame (S R : Type 0) : Type 0 where
  pub base : ℕ
  pub priority : Priority
  -- The resources that it has as plain references.
  pub direct : List R
  -- The calls of `lock` that it is in, the last one first, with `current` where that raised.
  pub locks : List (R × Option ℕ)
  pub pending : Pending R
  -- The state that it interrupted.
  pub saved : S

abbrev pub locked_names : {R : Type 0} → List (R × Option ℕ) → List R
locked_names [] = []
locked_names ((x, old) ∷ locks) = x ∷ locked_names locks

abbrev pub held : {S R : Type 0} → Frame S R → List R
held f = f.direct ++ locked_names f.locks

-- The last frame is the thread's own code, the first one runs.
pub record Thread (S R : Type 0) : Type 0 where
  pub kernel : S
  pub frames : List (Frame S R)

-- `leave saved s` is the return of a handler, which gives back the mask that it interrupted
-- (sigreturn(2)).
pub record Sigreturn (k : Kernel) (m : Masks k) : Type 0 where
  pub leave : k.State → k.State → k.State
  pub leaves :
      (saved s : k.State) (n : ℕ) → m.blocked (leave saved s) (suc n) ≡ m.blocked saved (suc n)

module _ (k : Kernel) (m : Masks k) (l : Sigreturn k m) (r : Range) {R : Type 0}
    (ceiling : R → ℕ) where
  -- A resource that a task of a level may lock: its ceiling is no lower, and a level of the core.
  abbrev pub MayLock : (base : ℕ) → R → Type 0
  MayLock base x = (base ≤ ceiling x) × (ceiling x ≤ r.end - r.start)

  -- One that it may use without.
  abbrev pub MayUse : (base : ℕ) → R → Type 0
  MayUse base x = (base ≤ ceiling x) × (ceiling x ≤ base)

  abbrev pub entered : (p : ℕ) → List R → k.State → Frame k.State R
  entered p direct s = record {
    base = p;
    priority = new_priority p;
    direct = direct;
    locks = [];
    pending = quiet;
    saved = s;
  }

  pub data Step : Thread k.State R → Thread k.State R → Type 0 where
    -- The kernel starts the handler of a signal that is not blocked.
    enter :
        (p : ℕ) (direct : List R) (s : k.State) (f : Frame k.State R) (fs : List (Frame k.State R))
        → 1 ≤ p
        → p ≤ r.end - r.start
        → All (MayUse p) direct
        → m.blocked s (suc (position k.sigrtmin r p)) ≡ false
        → Step
            (record { kernel = s; frames = f ∷ fs })
            (record {
              kernel = m.enter (k.sigrtmin + handler_signal r p) (action_word k.sigrtmin r p) s;
              frames = entered p direct s ∷ f ∷ fs;
            })
    -- `lock` below the ceiling: `priority.set(ceiling)`, `mask(.., true)` …
    lock_cell :
        (x : R) (s : k.State) (f : Frame k.State R) (fs : List (Frame k.State R))
        → f.pending ≡ quiet
        → MayLock f.base x
        → get_priority f.priority < ceiling x
        → Step
            (record { kernel = s; frames = f ∷ fs })
            (record {
              kernel = s;
              frames =
                  record f {
                    priority = set_priority f.priority (ceiling x);
                    pending = raising x (get_priority f.priority);
                  }
                  ∷ fs;
            })
    lock_mask :
        (x : R) (current : ℕ) (s s' : k.State) (f : Frame k.State R) (fs : List (Frame k.State R))
        → f.pending ≡ raising x current
        → mask k r current (ceiling x) true s ≡ done (tt, s')
        → Step
            (record { kernel = s; frames = f ∷ fs })
            (record {
              kernel = s';
              frames = record f { locks = (x, some current) ∷ f.locks; pending = quiet } ∷ fs;
            })
    -- … and after the body `mask(.., false)`, `priority.set(current)`.
    unlock_mask :
        (x : R) (current : ℕ) (locks : List (R × Option ℕ)) (s s' : k.State) (f : Frame k.State R)
        (fs : List (Frame k.State R))
        → f.pending ≡ quiet
        → f.locks ≡ (x, some current) ∷ locks
        → mask k r current (ceiling x) false s ≡ done (tt, s')
        → Step
            (record { kernel = s; frames = f ∷ fs })
            (record {
              kernel = s';
              frames = record f { locks = locks; pending = lowering current } ∷ fs;
            })
    unlock_cell :
        (current : ℕ) (s : k.State) (f : Frame k.State R) (fs : List (Frame k.State R))
        → f.pending ≡ lowering current
        → Step
            (record { kernel = s; frames = f ∷ fs })
            (record {
              kernel = s;
              frames =
                  record f { priority = set_priority f.priority current; pending = quiet } ∷ fs;
            })
    -- `lock` at the ceiling or above it.
    lock_free :
        (x : R) (s : k.State) (f : Frame k.State R) (fs : List (Frame k.State R))
        → f.pending ≡ quiet
        → MayLock f.base x
        → ceiling x ≤ get_priority f.priority
        → Step
            (record { kernel = s; frames = f ∷ fs })
            (record { kernel = s; frames = record f { locks = (x, none) ∷ f.locks } ∷ fs })
    unlock_free :
        (x : R) (locks : List (R × Option ℕ)) (s : k.State) (f : Frame k.State R)
        (fs : List (Frame k.State R))
        → f.pending ≡ quiet
        → f.locks ≡ (x, none) ∷ locks
        → Step
            (record { kernel = s; frames = f ∷ fs })
            (record { kernel = s; frames = record f { locks = locks } ∷ fs })
    return :
        (s : k.State) (f g : Frame k.State R) (fs : List (Frame k.State R))
        → f.pending ≡ quiet
        → f.locks ≡ []
        → Step
            (record { kernel = s; frames = f ∷ g ∷ fs })
            (record { kernel = l.leave f.saved s; frames = g ∷ fs })

  pub data Reaches (t : Thread k.State R) : Thread k.State R → Type 0 where
    here : Reaches t t
    next : {u v : Thread k.State R} → Reaches t u → Step u v → Reaches t v

  -- The thread's own code, `idle`, has level 0.
  abbrev pub started : List R → k.State → Thread k.State R
  started direct s = record { kernel = s; frames = entered 0 direct s ∷ [] }
