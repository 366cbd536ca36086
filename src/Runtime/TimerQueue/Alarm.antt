-- ===== src/Runtime/TimerQueue/Alarm.antt =====
-- What the calls of the loop that macros/src/codegen/timer_body.rs emits do to the kernel, and `lock`
-- of src/export.rs around code with a post-condition.
use linux_rtfm.Base.{
  ℕ, ◌-◌, ◌<◌, ◌≡◌, refl, sym, subst, Bool, true, false, some, List, [], ◌∷◌, ◌++◌, ltb, Bool-cases,
  inl, inr,
}
use linux_rtfm.Base.State.{State, Returns, and_then-Returns}
use linux_rtfm.Runtime.Time.{Instant, Timespec}
use linux_rtfm.Runtime.Time.Elapsed.{IsNormal}
use linux_rtfm.Runtime.Kernel.{
  Kernel, MaskHow, rt_sigprocmask, sig_block, sig_unblock, timer_settime, rt_sigqueueinfo,
  rt_tgsigqueueinfo, SigInfo,
}
use linux_rtfm.Runtime.Signals.{Range, Cpu, lock, mask, mask_word, enqueue}
use linux_rtfm.Runtime.Signals as Signals
use linux_rtfm.Runtime.Signals.Levels.{call_unit-Returns}
use linux_rtfm.Runtime.TimerQueue.{no_interval}

-- A message signal, to a process or to a thread.
pub data Sent : Type 0 where
  to_process : (tgid sig : ℕ) → SigInfo → Sent
  to_thread : (tgid tid sig : ℕ) → SigInfo → Sent

-- What others see of the kernel: the time that the timer was last set for, the messages in their
-- order, and how many more signals may be queued (`RLIMIT_SIGPENDING`).
pub record Seen : Type 0 where
  pub armed : Timespec
  pub sent : List Sent
  pub room : ℕ

abbrev pub with_sent : Seen → Sent → Seen
with_sent q m = record q { sent = q.sent ++ m ∷ []; room = q.room - 1 }

-- What the manual pages promise of the calls of the loop: `timer_settime(2)` sets the timer for a
-- time that is valid (EINVAL for 10⁹ nanoseconds or more, or for a negative field),
-- `rt_sigqueueinfo(2)` queues one message while there is room for signals (EAGAIN otherwise), and a
-- reading of the clock and a change of the mask do neither.
pub record Alarm (k : Kernel) (timer_id : ℕ) : Type 0 where
  pub seen : k.State → Seen
  pub reads : (s : k.State) → (t : Timespec) × (s' : k.State) × (k.clock s ≡ some (t, s'))
  pub seen_read : (s s' : k.State) (t : Timespec) → k.clock s ≡ some (t, s') → seen s' ≡ seen s
  pub arms :
      (i : Instant) (s : k.State)
      → IsNormal i
      → (v : ℕ) × (s' : k.State) × (k.call (timer_settime timer_id no_interval i.ts) s
          ≡ some (v, s'))
  pub seen_armed :
      (i : Instant) (s s' : k.State) (v : ℕ)
      → k.call (timer_settime timer_id no_interval i.ts) s ≡ some (v, s')
      → seen s' ≡ record (seen s) { armed = i.ts }
  pub masks :
      (how : MaskHow) (w : ℕ) (s : k.State)
      → (v : ℕ) × (s' : k.State) × (k.call (rt_sigprocmask how w) s ≡ some (v, s'))
  pub seen_masked :
      (how : MaskHow) (w : ℕ) (s s' : k.State) (v : ℕ)
      → k.call (rt_sigprocmask how w) s ≡ some (v, s')
      → seen s' ≡ seen s
  pub queues :
      (tgid sig : ℕ) (info : SigInfo) (s : k.State)
      → 0 < (seen s).room
      → (v : ℕ) × (s' : k.State) × (k.call (rt_sigqueueinfo tgid sig info) s ≡ some (v, s'))
        × (seen s' ≡ with_sent (seen s) (to_process tgid sig info))
  pub queues_to :
      (tgid tid sig : ℕ) (info : SigInfo) (s : k.State)
      → 0 < (seen s).room
      → (v : ℕ) × (s' : k.State) × (k.call (rt_tgsigqueueinfo tgid tid sig info) s ≡ some (v, s'))
        × (seen s' ≡ with_sent (seen s) (to_thread tgid tid sig info))

module _ (k : Kernel) (timer_id : ℕ) (alarm : Alarm k timer_id) where
  open alarm use {seen, reads, seen_read, arms, seen_armed, masks, seen_masked, queues, queues_to}

  mask-seen :
      (r : Range) (current ceiling : ℕ) (block : Bool) (s : k.State)
      → Returns (λ t. seen t.1 ≡ seen s) (mask k r current ceiling block s)
  unfolding mask
  mask-seen r current ceiling true s =
      let w = mask_word k.sigrtmin r current ceiling in
      let (v, s', e) = masks sig_block w s in
      call_unit-Returns k (rt_sigprocmask sig_block w) s (λ s'. seen s' ≡ seen s) e
        (seen_masked sig_block w s s' v e)
  mask-seen r current ceiling false s =
      let w = mask_word k.sigrtmin r current ceiling in
      let (v, s', e) = masks sig_unblock w s in
      call_unit-Returns k (rt_sigprocmask sig_unblock w) s (λ s'. seen s' ≡ seen s) e
        (seen_masked sig_unblock w s s' v e)

  module _ {T R : Type 0} (P : R → T → Seen → Type 0) where
    -- What is said of a result, of what is locked and of the kernel.
    abbrev Says : R × Cpu k T → Type 0
    Says t = P t.0 t.1.resource (seen t.1.kernel)

    -- A mask's change on the thread.
    abbrev Kept : Cpu k T → (Unit {0}) × Cpu k T → Type 0
    Kept c t = (t.1.resource ≡ c.resource) × (seen t.1.kernel ≡ seen c.kernel)

    on_kernel-Kept :
        (r : Range) (current ceiling : ℕ) (block : Bool) (c : Cpu k T)
        → Returns (Kept c) (Signals.on_kernel k (mask k r current ceiling block) c)
    on_kernel-Kept r current ceiling block c =
        and_then-Returns (λ t. seen t.1 ≡ seen c.kernel) (Kept c)
          (mask k r current ceiling block c.kernel) _ (mask-seen r current ceiling block c.kernel)
          (λ _ s e. (refl, e))

    pub lock-Says :
        (ceiling : ℕ) (r : Range) (body : State (Cpu k T) R) (c : Cpu k T)
        → ((c' : Cpu k T)
            → c'.resource ≡ c.resource
            → seen c'.kernel ≡ seen c.kernel
            → Returns Says (body c'))
        → Returns Says (lock k ceiling r body c)
    unfolding lock
    lock-Says ceiling r body c runs = elim (Bool-cases (ltb c.priority.inner ceiling)) [
      | inl raise ↦
          let p = c.priority.inner in
          let up = record c { priority = record { inner = ceiling } } in
          rw (raise, lock)
            (and_then-Returns (Kept up) Says (Signals.on_kernel k (mask k r p ceiling true) up) _
              (on_kernel-Kept r p ceiling true up)
              λ _ c1 in1. and_then-Returns Says Says (body c1) _ (runs c1 in1.0 in1.1) λ res c2 in2.
                and_then-Returns (Kept c2) Says (Signals.on_kernel k (mask k r p ceiling false) c2)
                  _ (on_kernel-Kept r p ceiling false c2)
                  λ _ c3 in3.
                    subst (P res c3.resource) (sym in3.1)
                      (subst (λ t. P res t (seen c2.kernel)) (sym in3.0) in2))
      | inr stay ↦ rw (stay, lock) (runs c refl refl)
    ]
