-- ===== src/Runtime/Preemption/Nesting.antt =====
-- What each task on the stack of a thread keeps to, by the calls of `lock` of src/export.rs that it is
-- in, and that the steps of the task that runs keep it so.
use linux_rtfm.Base.{
  ℕ, ◌-◌, ◌≤◌, ◌<◌, ◌≡◌, refl, ap, subst, Option, none, some, List, [], ◌∷◌, All, All-append, arith,
}
use linux_rtfm.Runtime.Kernel.{Kernel}
use linux_rtfm.Runtime.Cells.{Priority, new_priority, get_priority, set_priority}
use linux_rtfm.Runtime.Signals.{Range}
use linux_rtfm.Runtime.Signals.Words.{Fits}
use linux_rtfm.Runtime.Signals.Levels.{Masks, Synced}
use linux_rtfm.Runtime.Preemption.{
  Pending, quiet, raising, lowering, Frame, locked_names, held, Thread, Sigreturn, MayLock, MayUse,
  entered,
}

-- The level of a task's mask.
abbrev level_of : {R : Type 0} → Pending R → Priority → ℕ
level_of quiet priority = priority.inner
level_of (raising x current) priority = current
level_of (lowering current) priority = current

abbrev pub level : {S R : Type 0} → Frame S R → ℕ
level f = level_of f.pending f.priority

module _ (k : Kernel) (m : Masks k) (l : Sigreturn k m) (r : Range) (f : Fits k.sigrtmin r)
    {R : Type 0} (ceiling : R → ℕ) where
  -- The calls of `lock` that a task is in, at a level.
  abbrev pub Nested : (base level : ℕ) → List (R × Option ℕ) → Type 0
  Nested base level [] = level ≡ base
  Nested base level ((x, none) ∷ locks) =
      MayLock k m l r ceiling base x × (ceiling x ≤ level) × Nested base level locks
  Nested base level ((x, some current) ∷ locks) =
      MayLock k m l r ceiling base x
      × (level ≡ ceiling x)
      × (current < level)
      × Nested base current locks

  abbrev IsPending : (base : ℕ) → Priority → Pending R → Type 0
  IsPending base priority quiet = Unit
  IsPending base priority (raising x current) =
      MayLock k m l r ceiling base x × (priority.inner ≡ ceiling x) × (current < ceiling x)
  IsPending base priority (lowering current) = Unit

  abbrev pub Sound : Frame k.State R → Type 0
  Sound g =
      Nested g.base (level g) g.locks
      × IsPending g.base g.priority g.pending
      × All (MayUse k m l r ceiling g.base) g.direct
      × (level g ≤ r.end - r.start)

  -- What a return gives back is the mask of the task below.
  abbrev pub Resumes : k.State → List (Frame k.State R) → Type 0
  Resumes s [] = Unit
  Resumes s (g ∷ fs) = Synced k m r f (level g) s

  abbrev pub Stacked : List (Frame k.State R) → Type 0
  Stacked [] = Unit
  Stacked (g ∷ fs) = Sound g × All (λ h. level h < g.base) fs × Resumes g.saved fs × Stacked fs

  abbrev pub IsGood : Thread k.State R → Type 0
  IsGood t = Stacked t.frames × Resumes t.kernel t.frames

  pub Nested-base :
      (base level : ℕ) (locks : List (R × Option ℕ)) → Nested base level locks → base ≤ level
  Nested-base base level [] e = omega arith
  Nested-base base level ((x, none) ∷ locks) h = Nested-base base level locks h.2
  Nested-base base level ((x, some current) ∷ locks) h =
      let low = Nested-base base current locks h.3 in omega arith

  -- Of what a task has, the ceiling is between its priority and its level.
  abbrev pub Within : (base level : ℕ) → R → Type 0
  Within base level x = (base ≤ ceiling x) × (ceiling x ≤ level)

  All-imp :
      {A : Type 0} (P Q : A → Type 0) (xs : List A) → ((x : A) → P x → Q x) → All P xs → All Q xs
  All-imp P Q [] h p = tt
  All-imp P Q (x ∷ xs) h p = (h x p.0, All-imp P Q xs h p.1)

  Nested-Within :
      (base level : ℕ) (locks : List (R × Option ℕ))
      → Nested base level locks
      → All (Within base level) (locked_names locks)
  Nested-Within base level [] h = tt
  Nested-Within base level ((x, none) ∷ locks) h =
      ((h.0.0, h.1), Nested-Within base level locks h.2)
  Nested-Within base level ((x, some current) ∷ locks) h = (
    (h.0.0, omega (arith, h.1)),
    All-imp (Within base current) (Within base level) (locked_names locks)
        (λ y w. (w.0, omega (arith, w.1, h.2))) (Nested-Within base current locks h.3),
  )

  pub Sound-Within : (g : Frame k.State R) → Sound g → All (Within g.base (level g)) (held g)
  Sound-Within g h =
      let low = Nested-base g.base (level g) g.locks h.0 in
      All-append (Within g.base (level g)) g.direct (locked_names g.locks)
        (All-imp (MayUse k m l r ceiling g.base) (Within g.base (level g)) g.direct
          (λ x u. (u.0, omega (arith, u.1, low))) h.2)
        (Nested-Within g.base (level g) g.locks h.0)

  -- A task by where its `lock` is.
  pub at_level :
      (g : Frame k.State R) (q : Pending R) → g.pending ≡ q → level g ≡ level_of q g.priority
  at_level g q e = ap (λ (q : Pending R). level_of q g.priority) e

  Nested-at :
      (g : Frame k.State R) (q : Pending R)
      → g.pending ≡ q
      → Sound g
      → Nested g.base (level_of q g.priority) g.locks
  Nested-at g q e h = subst (λ n. Nested g.base n g.locks) (at_level g q e) h.0

  pub enter-Stacked :
      (p : ℕ) (direct : List R) (s : k.State) (g : Frame k.State R) (fs : List (Frame k.State R))
      → p ≤ r.end - r.start
      → All (MayUse k m l r ceiling p) direct
      → level g < p
      → Stacked (g ∷ fs)
      → Synced k m r f (level g) s
      → Stacked (entered k m l r ceiling p direct s ∷ g ∷ fs)
  unfolding new_priority
  enter-Stacked p direct s g fs high uses above h at =
      let low = Nested-base g.base (level g) g.locks h.0.0 in
      (
        (refl, tt, uses, high),
        (above, All-imp (λ i. level i < g.base) (λ i. level i < p) fs (λ i b. omega arith) h.1),
        at,
        h,
      )

  -- Each step of the task that runs.
  pub lock_cell-Sound :
      (x : R) (g : Frame k.State R)
      → g.pending ≡ quiet
      → MayLock k m l r ceiling g.base x
      → get_priority g.priority < ceiling x
      → Sound g
      → (Sound (record g {
        priority = set_priority g.priority (ceiling x);
        pending = raising x (get_priority g.priority);
      }))
        × (level g ≡ get_priority g.priority)
  unfolding set_priority get_priority
  lock_cell-Sound x g e may below h = (
    (
      Nested-at g quiet e h,
      (may, refl, below),
      h.2,
      subst (λ n. n ≤ r.end - r.start) (at_level g quiet e) h.3,
    ),
    at_level g quiet e,
  )

  pub lock_mask-Sound :
      (x : R) (current : ℕ) (g : Frame k.State R)
      → g.pending ≡ raising x current
      → Sound g
      → (Sound (record g { locks = (x, some current) ∷ g.locks; pending = quiet }))
        × (g.priority.inner ≡ ceiling x)
        × (current < ceiling x)
        × (ceiling x ≤ r.end - r.start)
  lock_mask-Sound x current g e h =
      let (may, cell, below) : IsPending g.base g.priority (raising x current) =
        subst (IsPending g.base g.priority) e h.1 in
      (
        (
          (may, cell, omega arith, Nested-at g (raising x current) e h),
          tt,
          h.2,
          omega (arith, may.1),
        ),
        cell,
        below,
        may.1,
      )

  pub unlock_mask-Sound :
      (x : R) (current : ℕ) (locks : List (R × Option ℕ)) (g : Frame k.State R)
      → g.pending ≡ quiet
      → g.locks ≡ (x, some current) ∷ locks
      → Sound g
      → (Sound (record g { locks = locks; pending = lowering current }))
        × (level g ≡ ceiling x)
        × (current < ceiling x)
        × (ceiling x ≤ r.end - r.start)
  unlock_mask-Sound x current locks g e el h =
      let (may, same, below, rest) : Nested g.base (level g) ((x, some current) ∷ locks) =
        subst (Nested g.base (level g)) el h.0 in
      ((rest, tt, h.2, omega (arith, h.3)), same, omega arith, may.1)

  pub unlock_cell-Sound :
      (current : ℕ) (g : Frame k.State R)
      → g.pending ≡ lowering current
      → Sound g
      → (Sound (record g { priority = set_priority g.priority current; pending = quiet }))
        × (level g ≡ current)
  unfolding set_priority
  unlock_cell-Sound current g e h =
      let same = at_level g (lowering current) e in
      ((Nested-at g (lowering current) e h, tt, h.2, omega (arith, h.3)), same)

  pub lock_free-Sound :
      (x : R) (g : Frame k.State R)
      → g.pending ≡ quiet
      → MayLock k m l r ceiling g.base x
      → ceiling x ≤ get_priority g.priority
      → Sound g
      → Sound (record g { locks = (x, none) ∷ g.locks })
  unfolding get_priority
  lock_free-Sound x g e may high h =
      let same = at_level g quiet e in ((may, omega arith, h.0), h.1, h.2, h.3)

  pub unlock_free-Sound :
      (x : R) (locks : List (R × Option ℕ)) (g : Frame k.State R)
      → g.locks ≡ (x, none) ∷ locks
      → Sound g
      → Sound (record g { locks = locks })
  unlock_free-Sound x locks g el h =
      let all : Nested g.base (level g) ((x, none) ∷ locks) =
        subst (Nested g.base (level g)) el h.0 in
      (all.2, h.1, h.2, h.3)
