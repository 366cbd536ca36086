-- ===== src/Runtime/Examples/Queue.antt =====
-- The timer queue of src/tq.rs on a heap of one slot.
use mathlib.Core.List.{Mem, Perm, mem-cons_self}
use mathlib.Core.List.Memᴰ
use mathlib.Core.List.Perm
use mathlib.Core.Logic.{∥∥₁_elim}
use mathlib.Core.Bool.{Bool-set}
use linux_rtfm.Base.{
  ℕ, ◌<◌, zero, suc, ◌≡◌, ◌↔◌, refl, sym, subst, Bool, false, Option, none, some, List, [], ◌∷◌,
  length, arith, inl, inr, ap,
}
use linux_rtfm.Base.Int.{pos}
use linux_rtfm.Base.State.{Returns}
use linux_rtfm.Runtime.Time.{Timespec, Instant, instant, lt, partial_cmp}
use linux_rtfm.Runtime.Kernel.{Kernel, Syscall, timer_settime, rt_sigqueueinfo, rt_tgsigqueueinfo}
use linux_rtfm.Runtime.Signals.{Cpu}
use linux_rtfm.Runtime.TimerQueue.Handler.{Send}
use linux_rtfm.Runtime.TimerQueue.Alarm.{Sent, Seen, with_sent, Alarm, to_process, to_thread}
use linux_rtfm.Runtime.TimerQueue.{
  NotReady, BinaryHeap, IsMinHeap, TimerQueue, enqueue_unchecked, dequeue, no_interval, wake,
}
use linux_rtfm.Runtime.TimerQueue.Deadlines.{
  before, Enqueued, Dequeued, enqueue_unchecked_lem, dequeue-Dequeued,
}
use linux_rtfm.Runtime.Examples.{reading, toy}

abbrev unblocked : ℕ → Bool
unblocked n = false

-- A heap of at most one entry.
abbrev Slot : Type 0
Slot = Option (NotReady ℕ)

abbrev contents : Slot → List (NotReady ℕ)
contents none = []
contents (some e) = e ∷ []

abbrev at : ℕ → NotReady ℕ
at n = record { index = n; instant = instant (pos n) (pos 0); task = n }

abbrev pop_slot : Slot → NotReady ℕ × Slot
pop_slot none = (at 0, none)
pop_slot (some e) = (e, none)

abbrev slot : BinaryHeap (NotReady ℕ)
slot = record {
  Heap = Slot;
  new = none;
  items = contents;
  peek = λ h. h;
  push_unchecked = λ e h. some e;
  pop_unchecked = pop_slot;
}

lt_irrefl : (i : Instant) → lt i i ≡ false
unfolding lt partial_cmp
lt_irrefl i = ground arith

slot_peek-none : (h : Slot) → (h ≡ none) ↔ (contents h ≡ [])
slot_peek-none none = (λ _. refl, λ _. refl)
slot_peek-none (some e) = (λ h. cc, λ h. cc)

slot_peek-mem : (h : Slot) (e : NotReady ℕ) → h ≡ some e → Mem e (contents h)
slot_peek-mem h e same = subst (λ h. Mem e (contents h)) (sym same) mem-cons_self

slot_peek_first :
    (h : Slot) (e x : NotReady ℕ) → h ≡ some e → Mem x (contents h) → before x e ≡ false
slot_peek_first h e x same mem =
    let stays = subst (λ h. Mem x (contents h)) same mem in
    ∥∥₁_elim stays (Bool-set _ _) (λ d. elim (Memᴰ.cases_cons d) [
      | inl x_is ↦ subst (λ y. before y e ≡ false) (sym x_is) (lt_irrefl e.instant)
      | inr none_else ↦ absurd (Memᴰ.not-nil none_else)
    ])

slot_push-perm :
    (h : Slot) (e : NotReady ℕ) → length (contents h) < 1 → Perm (e ∷ []) (e ∷ contents h)
slot_push-perm none e room = Perm.refl (e ∷ [])
slot_push-perm (some f) e room = absurd (omega arith)

slot_pop-perm :
    (h : Slot) (e : NotReady ℕ)
    → h ≡ some e
    → ((pop_slot h).0 ≡ e) × Perm (contents h) (e ∷ contents (pop_slot h).1)
slot_pop-perm h e same =
    subst (λ h. ((pop_slot h).0 ≡ e) × Perm (contents h) (e ∷ contents (pop_slot h).1)) (sym same)
      (refl, Perm.refl (e ∷ []))

slot-IsMinHeap : IsMinHeap before 1 slot
slot-IsMinHeap = record {
  items-new = refl;
  peek-none = slot_peek-none;
  peek-mem = slot_peek-mem;
  peek_first = slot_peek_first;
  push-perm = slot_push-perm;
  pop-perm = slot_pop-perm;
}

abbrev waiting : ℕ → TimerQueue toy slot
waiting n = record { heap = some (at n); kernel = unblocked }

abbrev nothing : TimerQueue toy slot
nothing = record { heap = none; kernel = unblocked }

enqueue_unchecked_example :
    Returns
      (Enqueued toy 1 slot slot-IsMinHeap (at 3) none 0 nothing)
      (enqueue_unchecked toy slot (at 3) none 0 nothing)
unfolding wake
enqueue_unchecked_example =
    enqueue_unchecked_lem toy 1 slot slot-IsMinHeap (at 3) none 0 nothing (omega arith) unblocked
      refl

dequeue-Dequeued_example :
    Dequeued toy 1 slot slot-IsMinHeap 7
      (at 3)
      (record { ts = reading })
      unblocked
      (waiting 3)
      (dequeue toy slot 7 (waiting 3))
dequeue-Dequeued_example =
    dequeue-Dequeued toy 1 slot slot-IsMinHeap 7 (waiting 3) (at 3) reading unblocked refl refl

-- The timer's handler: its task's messages go to this process.
abbrev to_self : ℕ → Send
to_self task = record { tid = none; signo = 0; task = task }

-- A kernel with the timer and the messages, which refuses a message where there is no room.
abbrev push : Seen → Sent → (room : ℕ) → Option (ℕ × Seen)
push s m zero = none
push s m (suc n) = some (0, with_sent s m)

push_lem :
    (s : Seen) (m : Sent) (room : ℕ)
    → 0 < room
    → (v : ℕ) × (s' : Seen) × (push s m room ≡ some (v, s')) × (s' ≡ with_sent s m)
push_lem s m zero h = absurd (omega arith)
push_lem s m (suc n) h = (0, with_sent s m, refl, refl)

abbrev log_call : Syscall → Seen → Option (ℕ × Seen)
log_call (timer_settime timer interval value) s = some (0, record s { armed = value })
log_call (rt_sigqueueinfo tgid sig info) s = push s (to_process tgid sig info) s.room
log_call (rt_tgsigqueueinfo tgid tid sig info) s = push s (to_thread tgid tid sig info) s.room
log_call c s = some (0, s)

abbrev log : Kernel
log = record { State = Seen; call = log_call; clock = λ s. some (reading, s); sigrtmin = 32 }

abbrev seen_of : Option (ℕ × Seen) → Seen
seen_of none = record { armed = no_interval; sent = []; room = 1 }
seen_of (some (v, s)) = s

abbrev time_of : Option (Timespec × Seen) → Seen
time_of none = record { armed = no_interval; sent = []; room = 1 }
time_of (some (v, s)) = s

abbrev log_alarm : Alarm log 7
log_alarm = record {
  seen = λ s. s;
  reads = λ s. (reading, s, refl);
  seen_read = λ s s' t e. sym (ap time_of e);
  arms = λ i s normal. (0, _, refl);
  seen_armed = λ i s s' v e. sym (ap seen_of e);
  masks = λ how w s. (0, s, refl);
  seen_masked = λ how w s s' v e. sym (ap seen_of e);
  queues = λ tgid sig info s room. push_lem s (to_process tgid sig info) s.room room;
  queues_to = λ tgid tid sig info s room. push_lem s (to_thread tgid tid sig info) s.room room;
}

abbrev handler : Cpu log Slot
handler = record {
  priority = record { inner = 1 };
  kernel = record { armed = no_interval; sent = []; room = 1 };
  resource = some (at 3);
}
