-- ===== src/Runtime/Preemption/Runs.antt =====
-- `lock` of src/export.rs, run without an interruption, is a sequence of the steps of a thread.
use linux_rtfm.Base.{
  ℕ, ◌≤◌, ◌<◌, ◌≡◌, refl, sym, ap, ◌∙◌, subst, Bool, true, false, some, none, List, ◌∷◌, ltb, arith,
  Bool-cases, inl, inr, ltb→lt,
}
use linux_rtfm.Base.Run.{Run, done, panic, done-inj}
use linux_rtfm.Base.State.{State, and_then}
use linux_rtfm.Runtime.Kernel.{Kernel}
use linux_rtfm.Runtime.Cells.{Priority, get_priority, set_priority}
use linux_rtfm.Runtime.Signals.{Range, Cpu, lock, mask, on_kernel}
use linux_rtfm.Runtime.Signals.Levels.{Masks}
use linux_rtfm.Runtime.Preemption.{
  Pending, quiet, Frame, Thread, Sigreturn, MayLock, lock_cell, lock_mask, unlock_mask, unlock_cell,
  lock_free, unlock_free, Reaches, here, next,
}

and_then-eq-done :
    {S T A B : Type 0} (x : Run (A × S)) (g : A → S → Run (B × T)) {v : B × T}
    → and_then x g ≡ done v
    → (a : A) × (s : S) × (x ≡ done (a, s)) × (g a s ≡ done v)
and_then-eq-done (done (a, s)) g h = (a, s, refl, h)
and_then-eq-done panic g h = cc

module _ (k : Kernel) (m : Masks k) (l : Sigreturn k m) (r : Range) {R : Type 0}
    (ceiling : R → ℕ) where
  Reaches-trans :
      {t u v : Thread k.State R}
      → Reaches k m l r ceiling t u
      → Reaches k m l r ceiling u v
      → Reaches k m l r ceiling t v
  Reaches-trans a here = a
  Reaches-trans a (next b step) = next (Reaches-trans a b) step

  -- A thread whose first task is at a state of its own code.
  abbrev pub running :
      {T : Type 0} → Cpu k T → Frame k.State R → List (Frame k.State R) → Thread k.State R
  running c g fs = record { kernel = c.kernel; frames = record g { priority = c.priority } ∷ fs }

  -- The runs of code that returns are runs of the thread, from any task that is in no `lock` half.
  abbrev pub Runs : {T A : Type 0} → (base : ℕ) → State (Cpu k T) A → Type 0
  Runs {T} {A} base body =
      (g : Frame k.State R) (fs : List (Frame k.State R)) (c c' : Cpu k T) (a : A)
      → g.base ≡ base
      → g.pending ≡ quiet
      → body c ≡ done (a, c')
      → Reaches k m l r ceiling (running c g fs) (running c' g fs)

  on_kernel-eq-done :
      {T : Type 0} (current n : ℕ) (block : Bool) (c c' : Cpu k T) (u : Unit {0})
      → on_kernel k (mask k r current n block) c ≡ done (u, c')
      → (s : k.State) × (mask k r current n block c.kernel ≡ done (tt, s))
        × (record c { kernel = s } ≡ c')
  on_kernel-eq-done current n block c c' u h =
      let (_, s, e, h1) = and_then-eq-done (mask k r current n block c.kernel) _ h in
      (s, e, ap (λ p. p.1) (done-inj h1))

  -- The lock's halves around a body that the thread runs.
  locked_run :
      (x : R) (g : Frame k.State R) (fs : List (Frame k.State R)) (p p2 : Priority)
      (s s1 s2 s3 : k.State)
      → g.pending ≡ quiet
      → MayLock k m l r ceiling g.base x
      → p.inner < ceiling x
      → mask k r p.inner (ceiling x) true s ≡ done (tt, s1)
      → ((up : Frame k.State R)
          → up.base ≡ g.base
          → up.pending ≡ quiet
          → Reaches k m l r ceiling
              (record {
                kernel = s1;
                frames = record up { priority = record { inner = ceiling x } } ∷ fs;
              })
              (record { kernel = s2; frames = record up { priority = p2 } ∷ fs }))
      → mask k r p.inner (ceiling x) false s2 ≡ done (tt, s3)
      → Reaches k m l r ceiling
          (record { kernel = s; frames = record g { priority = p } ∷ fs })
          (record { kernel = s3; frames = record g { priority = p } ∷ fs })
  unfolding get_priority set_priority
  locked_run x g fs p p2 s s1 s2 s3 calm may below on body off =
      let g0 = record g { priority = p } in
      let up = record g0 {
        priority = record { inner = ceiling x };
        locks = (x, some p.inner) ∷ g.locks;
        pending = quiet;
      } in
      let one = next here (lock_cell x s g0 fs calm may below) in
      let two = next one (lock_mask x p.inner s s1 _ fs refl on) in
      let three = Reaches-trans two (body up refl refl) in
      let four =
        next three
          (unlock_mask x p.inner g.locks s2 s3 (record up { priority = p2 }) fs refl refl off) in
      let five = next four (unlock_cell p.inner s3 _ fs refl) in
      subst
        (λ (q : Pending R).
          Reaches k m l r ceiling (record { kernel = s; frames = g0 ∷ fs })
            (record { kernel = s3; frames = record g { priority = p; pending = q } ∷ fs }))
        (sym calm) five

  -- What `lock` below the ceiling did, if it returned.
  abbrev Locked : {T A : Type 0} → (n : ℕ) → State (Cpu k T) A → Cpu k T → A → Cpu k T → Type 0
  Locked {T} n body c a c' =
      (s1 : k.State) × (c2 : Cpu k T) × (s3 : k.State) × (mask k r c.priority.inner n true c.kernel
        ≡ done (tt, s1))
      × (body (record c { priority = record { inner = n }; kernel = s1 }) ≡ done (a, c2))
      × (mask k r c.priority.inner n false c2.kernel ≡ done (tt, s3))
      × (record c2 { priority = record { inner = c.priority.inner }; kernel = s3 } ≡ c')

  lock-Locked :
      {T A : Type 0} (n : ℕ) (body : State (Cpu k T) A) (c c' : Cpu k T) (a : A)
      → ltb c.priority.inner n ≡ true
      → lock k n r body c ≡ done (a, c')
      → Locked n body c a c'
  unfolding lock get_priority set_priority
  lock-Locked {T} {A} n body c c' a below =
      let p = c.priority.inner in
      let up : Cpu k T = record c { priority = record { inner = n } } in
      let after : A → Cpu k T → Run (A × Cpu k T) = λ a c2.
        and_then (on_kernel k (mask k r p n false) c2)
          (λ _ c3. done (a, record c3 { priority = record { inner = p } })) in
      let go : and_then (on_kernel k (mask k r p n true) up) (λ _ c1. and_then (body c1) after)
            ≡ done (a, c')
          → Locked n body c a c' =
        λ h.
          let (u, c1, e1, h1) = and_then-eq-done (on_kernel k (mask k r p n true) up) _ h in
          let (b, c2, e2, h2) = and_then-eq-done (body c1) after h1 in
          let (v, c3, e3, h3) = and_then-eq-done (on_kernel k (mask k r p n false) c2) _ h2 in
          let (s1, m1, is1) = on_kernel-eq-done p n true up c1 u e1 in
          let (s3, m3, is3) = on_kernel-eq-done p n false c2 c3 v e3 in
          let same = done-inj h3 in
          (
            s1,
            c2,
            s3,
            m1,
            ap body is1 ∙ e2 ∙ ap (λ a. done (a, c2)) (ap (λ t. t.0) same),
            m3,
            ap (λ (c : Cpu k T). record c { priority = record { inner = p } }) is3
                ∙ ap (λ t. t.1) same,
          ) in
      rw (below, lock) go

  lock_at_ceiling :
      {T A : Type 0} (n : ℕ) (body : State (Cpu k T) A) (c : Cpu k T)
      → ltb c.priority.inner n ≡ false
      → lock k n r body c ≡ body c
  unfolding lock get_priority
  lock_at_ceiling n body c stay = rw (stay, lock) refl
      -- X

  -- If a task of a level may lock a resource, and every run of the body of `lock` that returns is
  -- a run of the steps of the thread from a task of that level that is in no half of a `lock`,
  -- then every run of `lock` with the resource's ceiling that returns, for such a task, is a run
  -- of the steps too.
  pub lock-Runs :
      {T A : Type 0} (base : ℕ) (x : R) (body : State (Cpu k T) A)
      → MayLock k m l r ceiling base x
      → Runs base body
      → (g : Frame k.State R) (fs : List (Frame k.State R)) (c c' : Cpu k T) (a : A) → g.base ≡ base
      → g.pending ≡ quiet
      → lock k (ceiling x) r body c ≡ done (a, c')
      → Reaches k m l r ceiling (running c g fs) (running c' g fs)
  unfolding lock get_priority
  lock-Runs {T} base x body may runs g fs c c' a same calm ran =
      let allowed = subst (λ b. MayLock k m l r ceiling b x) (sym same) may in
      elim (Bool-cases (ltb c.priority.inner (ceiling x))) [
        | inl below ↦
            let (s1, c2, s3, on, e, off, is) = lock-Locked (ceiling x) body c c' a below ran in
            subst (λ (c' : Cpu k T). Reaches k m l r ceiling (running c g fs) (running c' g fs)) is
              (locked_run x g fs c.priority c2.priority c.kernel s1 c2.kernel s3 calm allowed
                (ltb→lt _ _ below) on
                (λ up b q.
                  runs up fs (record c { priority = record { inner = ceiling x }; kernel = s1 }) c2
                    a (b ∙ same) q e)
                off)
        | inr stay ↦
            let e = sym (lock_at_ceiling (ceiling x) body c stay) ∙ ran in
            let high : ceiling x ≤ c.priority.inner = ground arith in
            let g0 = record g { priority = c.priority } in
            let up = record g { locks = (x, none) ∷ g.locks } in
            let one = next here (lock_free x c.kernel g0 fs calm allowed high) in
            let two = Reaches-trans one (runs up fs c c' a same calm e) in
            next two
              (unlock_free x g.locks c'.kernel (record up { priority = c'.priority }) fs calm refl)
      ]
