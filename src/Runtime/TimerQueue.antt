-- ===== src/Runtime/TimerQueue.antt =====
-- src/tq.rs: the tasks that wait for their time, in a binary heap ordered by instant. The heap is
-- that of the `heapless` crate and a parameter; `IsMinHeap` states what its documentation promises.
pub mod Deadlines
pub mod Handler
pub mod Alarm
pub mod Ends
use mathlib.Core.List.{Mem, Perm}
use linux_rtfm.Base.{
  ℕ, ◌+◌, ◌<◌, ◌≡◌, ◌↔◌, Bool, true, false, Option, none, some, List, [], ◌∷◌, length,
  if◌then◌else◌,
}
use linux_rtfm.Base.Run.{Run, done, panic}
use linux_rtfm.Base.Int.{pos}
use linux_rtfm.Base.State.{State, ◌>>=◌, ◌>>◌, pure, modify, zoom}
use linux_rtfm.Runtime.Time.{Instant, Timespec, Order, eq, cmp, lt, ge}
use linux_rtfm.Runtime.Kernel.{Kernel, call, now, tgkill, kill, timer_settime}

pub record NotReady (T : Type 0) : Type 0 where
  pub index : ℕ
  pub instant : Instant
  pub task : T

module _ {T : Type 0} where
  unfoldable pub eq_not_ready : NotReady T → NotReady T → Bool
  unfolding eq
  eq_not_ready a b = eq a.instant b.instant

  unfoldable pub cmp_not_ready : NotReady T → NotReady T → Run Order
  unfolding cmp
  cmp_not_ready a b = cmp a.instant b.instant

  unfoldable pub partial_cmp_not_ready : NotReady T → NotReady T → Run (Option Order)
  unfolding cmp_not_ready
  partial_cmp_not_ready a b = elim (cmp_not_ready a b) [ done o ↦ done (some o) | panic ↦ panic ]

-- `BinaryHeap<E, N, Min>`. `pop_unchecked` is undefined on an empty heap.
pub record BinaryHeap (E : Type 0) : Type 1 where
  pub Heap : Type 0
  pub new : Heap
  pub items : Heap → List E
  pub peek : Heap → Option E
  pub push_unchecked : E → Heap → Heap
  pub pop_unchecked : Heap → E × Heap

-- Its laws, for an order test `before` and a capacity: what it holds changes only by the element
-- pushed or popped, and `peek` and `pop` give an element that none comes before.
pub record IsMinHeap {E : Type 0} (before : E → E → Bool) (cap : ℕ) (b : BinaryHeap E)
    : Type 0 where
  pub items-new : b.items b.new ≡ []
  pub peek-none : (h : b.Heap) → (b.peek h ≡ none) ↔ (b.items h ≡ [])
  pub peek-mem : (h : b.Heap) (e : E) → b.peek h ≡ some e → Mem e (b.items h)
  pub peek_first :
      (h : b.Heap) (e x : E) → b.peek h ≡ some e → Mem x (b.items h) → before x e ≡ false
  pub push-perm :
      (h : b.Heap) (e : E)
      → length (b.items h) < cap
      → Perm (b.items (b.push_unchecked e h)) (e ∷ b.items h)
  pub pop-perm :
      (h : b.Heap) (e : E)
      → b.peek h ≡ some e
      → ((b.pop_unchecked h).0 ≡ e) × Perm (b.items h) (e ∷ b.items (b.pop_unchecked h).1)

abbrev pub no_interval : Timespec
no_interval = record { tv_sec = pos 0; tv_nsec = pos 0 }

module _ (k : Kernel) {T : Type 0} (b : BinaryHeap (NotReady T)) where
  -- `static mut TQ` and the kernel
  pub record TimerQueue : Type 0 where
    pub heap : b.Heap
    pub kernel : k.State

  abbrev pub on_kernel : {A : Type 0} → State k.State A → State TimerQueue A
  on_kernel = zoom (λ q. q.kernel) (λ s q. record q { kernel = s })

  -- `peek().map(|head| nr.instant < head.instant).unwrap_or(true)`
  unfoldable pub is_earliest : NotReady T → b.Heap → Bool
  unfolding lt
  is_earliest nr h = elim (b.peek h) [ none ↦ true | some head ↦ lt nr.instant head.instant ]

  -- Signal the timer queue's handler: of one thread, or of the process.
  unfoldable pub wake : Option (ℕ × ℕ) → (signo : ℕ) → State k.State (Unit {0})
  wake none signo = call k (kill 0 (k.sigrtmin + signo)) >> pure tt
  wake (some (tgid, tid)) signo = call k (tgkill tgid tid (k.sigrtmin + signo)) >> pure tt

  unfoldable pub enqueue_unchecked :
      NotReady T → Option (ℕ × ℕ) → (signo : ℕ) → State TimerQueue (Unit {0})
  unfolding is_earliest wake
  enqueue_unchecked nr tgid_tid signo q =
      ((if is_earliest nr q.heap then on_kernel (wake tgid_tid signo) else pure tt)
          >> modify λ q'. record q' { heap = b.push_unchecked nr q'.heap })
        q

  pop : State TimerQueue (Option (T × ℕ))
  pop q =
      let (nr, heap) = b.pop_unchecked q.heap in
      done (some (nr.task, nr.index), record q { heap = heap })

  rearm : (timer_id : ℕ) → Instant → State TimerQueue (Option (T × ℕ))
  rearm timer_id instant =
      on_kernel (call k (timer_settime timer_id no_interval instant.ts)) >> pure none

  unfoldable pub dequeue : (timer_id : ℕ) → State TimerQueue (Option (T × ℕ))
  unfolding ge now pop rearm
  dequeue timer_id q = elim (b.peek q.heap) [
    | none ↦ done (none, q)
    | some p ↦
        (on_kernel (now k) >>= λ t. if ge t p.instant then pop else rearm timer_id p.instant) q
  ]
