-- ===== src/Runtime/Preemption/Exclusion.antt =====
-- On a thread, no two tasks have a resource at once: the mask that `lock` of src/export.rs keeps in
-- step with the priority holds off every task that could use what is locked.
use mathlib.Core.List.{Mem, Memᴰ}
use mathlib.Core.Logic.{∥∥₁_elim}
use linux_rtfm.Base.{
  ℕ, suc, ◌-◌, ◌≤◌, ◌<◌, ◌≡◌, refl, sym, ◌∙◌, subst, true, false, List, [], ◌∷◌, ◌++◌, All, length,
  leb, arith,
}
use linux_rtfm.Base.Run.{done}
use linux_rtfm.Base.State.{Returns}
use linux_rtfm.Runtime.Kernel.{Kernel}
use linux_rtfm.Runtime.Cells.{new_priority, set_priority}
use linux_rtfm.Runtime.Signals.{Range, mask}
use linux_rtfm.Runtime.Signals.Words.{Fits}
use linux_rtfm.Runtime.Signals.Levels.{
  Masks, position, Synced, mask_block-Synced, mask_unblock-Synced, enter-Synced,
}
use linux_rtfm.Runtime.Preemption.Nesting.{
  level, Sound, Stacked, IsGood, Nested-base, Within, Sound-Within, at_level, enter-Stacked,
  lock_cell-Sound, lock_mask-Sound, unlock_mask-Sound, unlock_cell-Sound, lock_free-Sound,
  unlock_free-Sound,
}
use linux_rtfm.Runtime.Preemption.{
  raising, Frame, held, Thread, Sigreturn, MayUse, Step, enter, lock_cell, lock_mask, unlock_mask,
  unlock_cell, lock_free, unlock_free, return, Reaches, here, next, started,
}

module _ (k : Kernel) (m : Masks k) (l : Sigreturn k m) (r : Range) (f : Fits k.sigrtmin r)
    {R : Type 0} (ceiling : R → ℕ) where
  not_blocked :
      (p level : ℕ) (s : k.State)
      → 1 ≤ p
      → p ≤ r.end - r.start
      → m.blocked s (suc (position k.sigrtmin r p)) ≡ false
      → Synced k m r f level s
      → level < p
  not_blocked p level s low high e at =
      let test : leb p level ≡ false = sym (at p low high) ∙ e in ground arith

  -- A change of the mask that returned, at levels of the task.
  raised :
      (current n level : ℕ) (s s' : k.State)
      → current < n
      → n ≤ r.end - r.start
      → level ≡ n
      → mask k r current n true s ≡ done (tt, s')
      → Synced k m r f current s
      → Synced k m r f level s'
  raised current n level s s' below fit same e at =
      subst (λ n. Synced k m r f n s') (sym same)
        (subst (Returns (λ t. Synced k m r f n t.1)) e
          (mask_block-Synced k m r f current n (omega arith) fit s at))

  lowered :
      (current n level : ℕ) (s s' : k.State)
      → current < n
      → n ≤ r.end - r.start
      → level ≡ n
      → mask k r current n false s ≡ done (tt, s')
      → Synced k m r f level s
      → Synced k m r f current s'
  lowered current n level s s' below fit same e at =
      subst (Returns (λ t. Synced k m r f current t.1)) e (
        mask_unblock-Synced k m r f current n (omega arith) fit s
          (subst (λ n. Synced k m r f n s) same at))

  Step-IsGood :
      {t u : Thread k.State R}
      → Step k m l r ceiling t u
      → IsGood k m l r f ceiling t
      → IsGood k m l r f ceiling u
  unfolding set_priority new_priority
  Step-IsGood (enter p direct s g fs low high uses open_) (h, at) =
      let above = not_blocked p (level g) s low high open_ at in
      (
        enter-Stacked k m l r f ceiling p direct s g fs high uses above h at,
        enter-Synced k m r f (level g) p s low high above at,
      )
  Step-IsGood (lock_cell x s g fs e may below) (h, at) =
      let (sound, same) = lock_cell-Sound k m l r f ceiling x g e may below h.0 in
      ((sound, h.1, h.2, h.3), subst (λ n. Synced k m r f n s) same at)
  Step-IsGood (lock_mask x current s s' g fs e called) (h, at) =
      let (sound, cell, below, fit) = lock_mask-Sound k m l r f ceiling x current g e h.0 in
      (
        (sound, h.1, h.2, h.3),
        raised current (ceiling x) _ s s' below fit cell called (
            subst (λ n. Synced k m r f n s) (at_level k m l r f ceiling g (raising x current) e)
              at),
      )
  Step-IsGood (unlock_mask x current locks s s' g fs e el called) (h, at) =
      let (sound, same, below, fit) =
        unlock_mask-Sound k m l r f ceiling x current locks g e el h.0 in
      ((sound, h.1, h.2, h.3), lowered current (ceiling x) (level g) s s' below fit same called at)
  Step-IsGood (unlock_cell current s g fs e) (h, at) =
      let (sound, same) = unlock_cell-Sound k m l r f ceiling current g e h.0 in
      ((sound, h.1, h.2, h.3), subst (λ n. Synced k m r f n s) same at)
  Step-IsGood (lock_free x s g fs e may high) (h, at) =
      ((lock_free-Sound k m l r f ceiling x g e may high h.0, h.1, h.2, h.3), at)
  Step-IsGood (unlock_free x locks s g fs e el) (h, at) =
      ((unlock_free-Sound k m l r f ceiling x locks g el h.0, h.1, h.2, h.3), at)
  Step-IsGood (return s g g' fs e el) (h, at) =
      (h.3, λ p low high. l.leaves g.saved s _ ∙ h.2 p low high)

  started-IsGood :
      (direct : List R) (s : k.State)
      → All (MayUse k m l r ceiling 0) direct
      → Synced k m r f 0 s
      → IsGood k m l r f ceiling (started k m l r ceiling direct s)
  unfolding new_priority
  started-IsGood direct s uses at = (((refl, tt, uses, omega arith), tt, tt, tt), at)

  Reaches-IsGood :
      {t u : Thread k.State R}
      → IsGood k m l r f ceiling t
      → Reaches k m l r ceiling t u
      → IsGood k m l r f ceiling u
  Reaches-IsGood good here = good
  Reaches-IsGood good (next reach step) = Step-IsGood step (Reaches-IsGood good reach)

  All-Mem : {A : Type 0} (P : A → Type 0) (x : A) (xs : List A) → All P xs → Memᴰ x xs → P x
  All-Mem P x [] all d = elim d [ ]
  All-Mem P x (y ∷ ys) all (Memᴰ.head e) = subst P (sym e) all.0
  All-Mem P x (y ∷ ys) all (Memᴰ.tail d) = All-Mem P x ys all.1 d

  All-snd : {A : Type 0} (P : A → Type 0) (xs ys : List A) → All P (xs ++ ys) → All P ys
  All-snd P [] ys h = h
  All-snd P (x ∷ xs) ys h = All-snd P xs ys h.1

  Stacked-snd :
      (upper fs : List (Frame k.State R))
      → Stacked k m l r f ceiling (upper ++ fs)
      → Stacked k m l r f ceiling fs
  Stacked-snd [] fs h = h
  Stacked-snd (g ∷ upper) fs h = Stacked-snd upper fs h.3

  apart :
      (a b : Frame k.State R) (x : R)
      → Sound k m l r f ceiling a
      → Sound k m l r f ceiling b
      → level b < a.base
      → Memᴰ x (held a)
      → Memᴰ x (held b)
      → ⊥
  apart a b x ha hb below ma mb =
      let wa =
        All-Mem (Within k m l r f ceiling a.base (level a)) x (held a)
          (Sound-Within k m l r f ceiling a ha) ma in
      let wb =
        All-Mem (Within k m l r f ceiling b.base (level b)) x (held b)
          (Sound-Within k m l r f ceiling b hb) mb in
      omega (arith, wa.0, wb.1)

  module _ (direct : List R) (s : k.State) (uses : All (MayUse k m l r ceiling 0) direct)
      (at : Synced k m r f 0 s) (t : Thread k.State R)
      (run : Reaches k m l r ceiling (started k m l r ceiling direct s) t) where
    good : IsGood k m l r f ceiling t
    good = Reaches-IsGood (started-IsGood direct s uses at) run

    -- On a kernel with the mask laws `Masks` and `Sigreturn`, for a thread that starts with no
    -- signal of its core's levels blocked, and with plain references that its level may use: in
    -- every state that the steps reach, if a task on the stack has a resource, as a plain
    -- reference or by `lock`, no task further down has it. A step locks only what `MayLock`
    -- allows the task, and starts a handler only with plain references that `MayUse` allows.
    pub held_once :
        (upper middle lower : List (Frame k.State R)) (a b : Frame k.State R) (x : R)
        → t.frames ≡ upper ++ a ∷ (middle ++ b ∷ lower)
        → Mem x (held a)
        → ¬ Mem x (held b)
    unfolding Mem
    held_once upper middle lower a b x e ma mb =
        let h =
          Stacked-snd upper (a ∷ (middle ++ b ∷ lower))
            (subst (Stacked k m l r f ceiling) e good.0) in
        let below = All-snd (λ i. level i < a.base) middle (b ∷ lower) h.1 in
        let hb = Stacked-snd middle (b ∷ lower) h.3 in
        ∥∥₁_elim ma (λ x y. elim x [ ])
          λ da. ∥∥₁_elim mb (λ x y. elim x [ ]) λ db. apart a b x h.0 hb.0 below.0 da db

    depth :
        (fs : List (Frame k.State R)) (g : Frame k.State R)
        → Stacked k m l r f ceiling (g ∷ fs)
        → length fs ≤ g.base
    depth [] g h = omega arith
    depth (i ∷ fs) g h =
        let inner = depth fs i h.3 in
        let low = Nested-base k m l r f ceiling i.base (level i) i.locks h.3.0.0 in
        omega (arith, h.1.0)

    -- The tasks on the stack are no more than the core's levels and the thread's own code.
    length-frames : length t.frames ≤ suc (r.end - r.start)
    length-frames = bounded t.frames good.0
      where
        bounded :
            (fs : List (Frame k.State R))
            → Stacked k m l r f ceiling fs
            → length fs ≤ suc (r.end - r.start)
        bounded [] h = omega arith
        bounded (g ∷ fs) h =
            let inner = depth fs g h in
            let low = Nested-base k m l r f ceiling g.base (level g) g.locks h.0.0 in
            omega (arith, h.0.3)
