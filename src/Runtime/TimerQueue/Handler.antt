-- ===== src/Runtime/TimerQueue/Handler.antt =====
-- The loop of a timer's handler that macros/src/codegen/timer_body.rs emits, run on the queue of
-- src/tq.rs under the lock of src/export.rs.
use linux_rtfm.Base.{ℕ, zero, suc, Option, none, some}
use linux_rtfm.Base.Run.{done}
use linux_rtfm.Base.State.{State, ◌>>=◌, ◌>>◌, pure, and_then}
use linux_rtfm.Runtime.Kernel.{Kernel}
use linux_rtfm.Runtime.Signals.{Range, Cpu, lock, enqueue}
use linux_rtfm.Runtime.Signals as Signals
use linux_rtfm.Runtime.TimerQueue.{NotReady, BinaryHeap, TimerQueue, dequeue}

-- An arm of the handler's match: the thread and the signal, and the number of the task's variant.
pub record Send : Type 0 where
  pub tid : Option ℕ
  pub signo : ℕ
  pub task : ℕ

module _ (k : Kernel) {T : Type 0} (b : BinaryHeap (NotReady T)) where
  -- The thread of the handler, with the queue as what is locked.
  abbrev pub Handler : Type 0
  Handler = Cpu k b.Heap

  abbrev pub on_queue : {A : Type 0} → State (TimerQueue k b) A → State Handler A
  on_queue m c =
      and_then (m (record { heap = c.resource; kernel = c.kernel }))
        λ a q. done (a, record c { resource = q.heap; kernel = q.kernel })

  -- `tq.lock(|tq| tq.dequeue(timer))`
  unfoldable pub locked_dequeue :
      (ceiling : ℕ) → Range → (timer_id : ℕ) → State Handler (Option (T × ℕ))
  unfolding lock dequeue
  locked_dequeue ceiling range timer_id = lock k ceiling range (on_queue (dequeue k b timer_id))

  -- `match task { … }`
  unfoldable pub send_task : (tgid : ℕ) → (T → Send) → T → ℕ → State Handler (Unit {0})
  unfolding enqueue
  send_task tgid arms task index =
      let to = arms task in Signals.on_kernel k (enqueue k tgid to.tid to.signo to.task index)

  -- A turn of `while let Some((task, index)) = …`.
  abbrev pub turn :
      (T → ℕ → State Handler (Option (Unit {0})))
      → Option (T × ℕ)
      → State Handler (Option (Unit {0}))
  turn body none = pure (some tt)
  turn body (some (task, index)) = body task index

  -- The loop; `none` is that the fuel, one unit for each `lock`, ran out.
  unfoldable pub run_timer :
      (fuel ceiling : ℕ)
      → Range
      → (timer_id tgid : ℕ) → (T → Send)
      → State Handler (Option (Unit {0}))
  unfolding locked_dequeue send_task
  run_timer zero ceiling range timer_id tgid arms = pure none
  run_timer (suc fuel) ceiling range timer_id tgid arms =
      locked_dequeue ceiling range timer_id
      >>= turn λ task index.
        send_task tgid arms task index >> run_timer fuel ceiling range timer_id tgid arms
