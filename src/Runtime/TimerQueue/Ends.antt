-- ===== src/Runtime/TimerQueue/Ends.antt =====
-- The whole run of the loop that macros/src/codegen/timer_body.rs emits over the queue of src/tq.rs.
use mathlib.Core.List.{Mem, Perm}
use mathlib.Core.List.Perm
use linux_rtfm.Base.{
  ℕ, ◌+◌, ◌-◌, ◌≡◌, ◌⊎◌, false, Option, none, some, List, [], ◌∷◌, ◌++◌, map, ◌*◌, ◌^◌,
}
use linux_rtfm.Base.State.{State}
use linux_rtfm.Runtime.Kernel.{Kernel, SigInfo}
use linux_rtfm.Runtime.Signals.{Cpu}
use linux_rtfm.Runtime.TimerQueue.{NotReady, BinaryHeap, IsMinHeap, TimerQueue}
use linux_rtfm.Runtime.TimerQueue.Deadlines.{before}
use linux_rtfm.Runtime.TimerQueue.Handler.{Send}
use linux_rtfm.Runtime.TimerQueue.Alarm.{Sent, to_process, to_thread, Seen, Alarm}

module _ (k : Kernel) (timer_id : ℕ) (alarm : Alarm k timer_id) where
  open alarm use {seen, reads, seen_read, arms, seen_armed, queues, queues_to}

  module _ {T : Type 0} (cap : ℕ) (b : BinaryHeap (NotReady T))
      (laws : IsMinHeap before cap b) where
    -- Nothing waits, or the timer is armed for an entry that none comes before.
    abbrev pub Settled : b.Heap → Seen → Type 0
    Settled h now =
        (b.items h ≡ [])
        ⊎ ((head : NotReady T) × Mem head (b.items h)
            × ((x : NotReady T) → Mem x (b.items h) → before x head ≡ false)
            × (now.armed ≡ head.instant.ts))

    -- What one `dequeue` does to a heap.
    abbrev Step : b.Heap → Seen → Option (T × ℕ) → b.Heap → Seen → Type 0
    Step h0 was none h now = (b.items h ≡ b.items h0) × (now.sent ≡ was.sent) × Settled h now
    Step h0 was (some e) h now =
        (gone : NotReady T) × Perm (b.items h0) (gone ∷ b.items h)
        × (e ≡ (gone.task, gone.index))
        × (now.sent ≡ was.sent)
        × (now.room ≡ was.room)

    -- The message for an entry.
    abbrev message_to : (tgid : ℕ) → Option ℕ → (sig : ℕ) → SigInfo → Sent
    message_to tgid none sig info = to_process tgid sig info
    message_to tgid (some tid) sig info = to_thread tgid tid sig info

    abbrev pub message_of : (tgid : ℕ) → (T → Send) → NotReady T → Sent
    message_of tgid to e =
        message_to tgid (to e.task).tid (k.sigrtmin + (to e.task).signo)
          (record { sival_ptr = (to e.task).task * 2 ^ 8 + e.index })

    -- What `send_task` does for an entry.
    abbrev IsSent :
        (tgid : ℕ) → (T → Send) → NotReady T → Cpu k b.Heap → (Unit {0}) × Cpu k b.Heap → Type 0
    IsSent tgid to e c t =
        (t.1.resource ≡ c.resource)
        × ((seen t.1.kernel).sent ≡ (seen c.kernel).sent ++ message_of tgid to e ∷ [])
        × ((seen t.1.kernel).room ≡ (seen c.kernel).room - 1)

    -- What the loop leaves.
    abbrev pub Emptied :
        (tgid : ℕ) → (T → Send) → Cpu k b.Heap → Option (Unit {0}) × Cpu k b.Heap → Type 0
    Emptied tgid to c t =
        (t.0 ≡ some tt)
        × ((gone : List (NotReady T)) × Perm (b.items c.resource) (gone ++ b.items t.1.resource)
            × ((seen t.1.kernel).sent ≡ (seen c.kernel).sent ++ map (message_of tgid to) gone))
        × Settled t.1.resource (seen t.1.kernel)
