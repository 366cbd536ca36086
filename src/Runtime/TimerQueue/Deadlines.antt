-- ===== src/Runtime/TimerQueue/Deadlines.antt =====
-- src/tq.rs: which entry the timer queue wakes for and gives out.
use mathlib.Core.Bool.{false≢true}
use mathlib.Core.List.{Mem, Perm, not-mem-nil}
use linux_rtfm.Base.{
  ℕ, ◌<◌, ◌≡◌, refl, sym, ◌∙◌, ap, subst, Bool, true, false, Option, none, some, [], ◌∷◌, length,
  if◌then◌else◌, arith, Bool-cases, Option-cases, inl, inr, ◌↔◌,
}
use linux_rtfm.Base.Run.{Run, done, panic}
use linux_rtfm.Base.State.{zoom, Returns}
use linux_rtfm.Runtime.Time.{Instant, Timespec, lt, ge}
use linux_rtfm.Runtime.Kernel.{Kernel, timer_settime}
use linux_rtfm.Runtime.TimerQueue.{
  NotReady, BinaryHeap, IsMinHeap, TimerQueue, is_earliest, wake, enqueue_unchecked, dequeue,
  no_interval,
}

abbrev pub before : {T : Type 0} → NotReady T → NotReady T → Bool
before a b = lt a.instant b.instant

-- Instants are totally preordered.
pub lt_of_lt_of_not_lt : (a b c : Instant) → lt a b ≡ true → lt c b ≡ false → lt a c ≡ true
unfolding lt
lt_of_lt_of_not_lt a b c h k = ground arith

pub ge-lt : (a b : Instant) → ge a b ≡ (if lt a b then false else true)
unfolding ge lt
ge-lt a b = ground arith

module _ (k : Kernel) {T : Type 0} (cap : ℕ) (b : BinaryHeap (NotReady T))
    (laws : IsMinHeap before cap b) where
  open laws use {peek-none, peek-mem, peek_first, push-perm, pop-perm}

  -- The new entry comes before every one that waits.
  abbrev pub Earliest : NotReady T → b.Heap → Type 0
  Earliest nr h = (x : NotReady T) → Mem x (b.items h) → before nr x ≡ true

  -- Over a heap with the laws `IsMinHeap`, the condition under which `enqueue_unchecked` signals
  -- the handler holds exactly if the new entry is before every entry of the heap.
  pub is_earliest-Earliest :
      (nr : NotReady T) (h : b.Heap) → (is_earliest k b nr h ≡ true) ↔ Earliest nr h
  unfolding is_earliest
  is_earliest-Earliest nr h = elim (Option-cases (b.peek h)) [
    | inl empty ↦
        rw (empty, is_earliest)
          (
            (λ _ x mem. absurd (not-mem-nil (subst (Mem x) ((peek-none h).0 empty) mem))),
            (λ _. refl),
          )
    | inr (head, e) ↦
        rw (e, is_earliest)
          (
            (λ sooner x mem.
                lt_of_lt_of_not_lt nr.instant head.instant x.instant sooner
                  (peek_first h head x e mem)),
            (λ all. all head (peek-mem h head e)),
          )
  ]

  -- What `enqueue_unchecked` leaves: the entry is added, and the handler has been signalled exactly
  -- if the entry comes before all others.
  abbrev pub Enqueued :
      NotReady T → Option (ℕ × ℕ) → ℕ → TimerQueue k b → Unit {0} × TimerQueue k b → Type 0
  Enqueued nr tgid_tid signo q t =
      Perm (b.items t.1.heap) (nr ∷ b.items q.heap)
      × (Earliest nr q.heap → wake k b tgid_tid signo q.kernel ≡ done (tt, t.1.kernel))
      × (¬ Earliest nr q.heap → t.1.kernel ≡ q.kernel)

  -- Over a heap with the laws `IsMinHeap` that has room, where the kernel accepts the wake-up
  -- signal, `enqueue_unchecked` returns: the heap gains just the entry; if the entry is before
  -- all that were there, the handler was signalled; if not, the kernel is as before.
  pub enqueue_unchecked_lem :
      (nr : NotReady T) (tgid_tid : Option (ℕ × ℕ)) (signo : ℕ) (q : TimerQueue k b)
      → length (b.items q.heap) < cap
      → (s : k.State) → wake k b tgid_tid signo q.kernel ≡ done (tt, s)
      → Returns (Enqueued nr tgid_tid signo q) (enqueue_unchecked k b nr tgid_tid signo q)
  unfolding enqueue_unchecked
  enqueue_unchecked_lem nr tgid_tid signo q room s woken =
      let iff = is_earliest-Earliest nr q.heap in
      elim (Bool-cases (is_earliest k b nr q.heap)) [
        | inl first ↦
            rw (first, enqueue_unchecked)
              (rw (woken, zoom)
                (
                  push-perm q.heap nr room,
                  (λ _. woken),
                  (λ some_earlier. absurd (some_earlier (iff.0 first))),
                ))
        | inr later ↦
            rw (later, enqueue_unchecked)
              (
                push-perm q.heap nr room,
                (λ all. absurd (false≢true (sym later ∙ iff.1 all))),
                (λ _. refl),
              )
      ]

  -- What is left of setting the timer, by the kernel's answer: the code panics where it is refused.
  abbrev pub Rearmed :
      TimerQueue k b → Option (ℕ × k.State) → Run (Option (T × ℕ) × TimerQueue k b) → Type 0
  Rearmed q none m = m ≡ panic
  Rearmed q (some (v, s)) m = m ≡ done (none, record q { kernel = s })

  -- What `dequeue` does with a head, at the clock reading `t`: no entry comes before it, and it is
  -- given out if it is due; if it is not, the heap stays and the timer is set for it.
  abbrev pub Dequeued :
      (timer_id : ℕ)
      → NotReady T
      → Instant
      → k.State
      → TimerQueue k b
      → Run (Option (T × ℕ) × TimerQueue k b)
      → Type 0
  Dequeued timer_id head t s q m =
      ((x : NotReady T) → Mem x (b.items q.heap) → before x head ≡ false)
      × (lt t head.instant ≡ false
          → Returns
              (λ r.
                (r.0 ≡ some (head.task, head.index))
                × Perm (b.items q.heap) (head ∷ b.items r.1.heap)
                × (r.1.kernel ≡ s))
              m)
      × (lt t head.instant ≡ true
          → Rearmed q (k.call (timer_settime timer_id no_interval head.instant.ts) s) m)

  pub dequeue_empty :
      (timer_id : ℕ) (q : TimerQueue k b)
      → b.items q.heap ≡ []
      → dequeue k b timer_id q ≡ done (none, q)
  unfolding dequeue
  dequeue_empty timer_id q h = rw ((peek-none q.heap).1 h, dequeue)

  -- Over a heap with the laws `IsMinHeap`, for `dequeue` with a head, where the kernel reads the
  -- clock as `t`: no entry is before the head; if `t` is not before its instant, `dequeue`
  -- returns its task and index, the heap loses just it, and only the clock was read; else the
  -- timer is set for its instant, and `dequeue` panics if the kernel refuses that, and returns
  -- none, with the heap as it was, if the kernel accepts it.
  pub dequeue-Dequeued :
      (timer_id : ℕ) (q : TimerQueue k b) (head : NotReady T) (t : Timespec) (s : k.State)
      → b.peek q.heap ≡ some head
      → k.clock q.kernel ≡ some (t, s)
      → Dequeued timer_id head (record { ts = t }) s q (dequeue k b timer_id q)
  unfolding dequeue
  dequeue-Dequeued timer_id q head t s first now =
      let (same, kept) = pop-perm q.heap head first in
      let order = ge-lt (record { ts = t }) head.instant in
      let none_before : (x : NotReady T) → Mem x (b.items q.heap) → before x head ≡ false =
        λ x mem. peek_first q.heap head x first mem in
      elim (Bool-cases (lt (record { ts = t }) head.instant)) [
        | inl early ↦
            elim (Option-cases (k.call (timer_settime timer_id no_interval head.instant.ts) s)) [
              | inl refused ↦
                  rw (first, dequeue, now, order, early, refused)
                    (none_before, (λ due. absurd (false≢true (sym due))), (λ _. refl))
              | inr ((v, s'), armed) ↦
                  rw (first, dequeue, now, order, early, armed)
                    (none_before, (λ due. absurd (false≢true (sym due))), (λ _. refl))
            ]
        | inr due ↦
            rw (first, dequeue, now, order, due)
              (
                none_before,
                (λ _. (ap (λ e. some (e.task, e.index)) same, kept, refl)),
                (λ early. absurd (false≢true early)),
              )
      ]
