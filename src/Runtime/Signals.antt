-- ===== src/Runtime/Signals.antt =====
-- The system-call side of src/export.rs: the start of the process and of its threads, signal masks,
-- message signals and handlers.
pub mod Words
pub mod Levels
use linux_rtfm.Base.{
  ℕ, ◌+◌, ◌-◌, ◌*◌, ◌%◌, ◌^◌, Bool, true, false, Option, none, some, ltb, if◌then◌else◌,
}
use linux_rtfm.Base.Bits.{bit_xor, u8_add, u8_sub, shift_left, shift_right}
use linux_rtfm.Base.State.{State, ◌>>=◌, ◌>>◌, pure, modify, zoom}
use linux_rtfm.Runtime.Kernel.{
  Kernel, call, sched_setaffinity, sched_setscheduler_fifo, rt_sigprocmask, sig_block, sig_unblock,
  mmap_stack, clone_thread, timer_create, Notify, sigev_signal, sigev_thread_id, rt_sigqueueinfo,
  rt_tgsigqueueinfo, rt_sigaction, SigInfo,
}
use linux_rtfm.Runtime.Cells.{Priority, get_priority, set_priority}

-- `Range<u8>`
pub record Range : Type 0 where
  pub start : ℕ
  pub end : ℕ

-- The PID `0` represents the current process.
abbrev pub ourselves : ℕ
ourselves = 0

-- The words of the masks, without the calls that they are for.
unfoldable pub init_word : (sigrtmin signo : ℕ) → ℕ
init_word sigrtmin signo = shift_left (shift_left 1 (u8_add signo 1) - 1) (sigrtmin - 1)

unfoldable pub mask_word : (sigrtmin : ℕ) → Range → (current ceiling : ℕ) → ℕ
mask_word sigrtmin r current ceiling =
    let len = u8_sub r.end r.start in
    shift_left (shift_left 1 (u8_sub ceiling current) - 1)
      (sigrtmin - 1 + u8_sub (u8_add r.start len) ceiling)

unfoldable pub action_word : (sigrtmin : ℕ) → Range → (priority : ℕ) → ℕ
action_word sigrtmin r priority =
    let len = u8_sub r.end r.start in
    let all = shift_left 1 len - 1 in
    shift_left (bit_xor all (shift_right all (u8_sub priority 1))) (r.start + sigrtmin - 1)

abbrev pub stack_size : ℕ
stack_size = 2 * 1024 * (4 * 1024)

-- The signal of a priority level, without SIGRTMIN.
abbrev pub handler_signal : Range → (priority : ℕ) → ℕ
handler_signal r priority = u8_sub r.end priority

module _ (k : Kernel) where
  unfoldable pub set_affinity : (tid core : ℕ) → State k.State (Unit {0})
  set_affinity tid core = call k (sched_setaffinity tid (shift_left 1 core)) >> pure tt

  unfoldable pub init_runtime : Option ℕ → State k.State (Unit {0})
  unfolding set_affinity init_word
  init_runtime signo_max = do
    set_affinity ourselves 0
    call k (sched_setscheduler_fifo ourselves 1)
    elim signo_max [
      | none ↦ pure tt
      | some signo ↦ call k (rt_sigprocmask sig_block (init_word k.sigrtmin signo)) >> pure tt
    ]

  -- The result is the new thread's id. The source does not use its argument, the child's function.
  unfoldable pub spawn : State k.State ℕ
  spawn = do
    stack_low ← call k (mmap_stack stack_size)
    call k (clone_thread ((stack_low + stack_size) % 2 ^ 64))

  abbrev notify : Option ℕ → Notify
  notify none = sigev_signal
  notify (some tid) = sigev_thread_id tid

  unfoldable pub create_timer : (tid : Option ℕ) (signo : ℕ) → State k.State ℕ
  create_timer tid signo = call k (timer_create (k.sigrtmin + signo) (notify tid))

  unfoldable pub mask : Range → (current ceiling : ℕ) (block : Bool) → State k.State (Unit {0})
  unfolding mask_word
  mask r current ceiling block =
      call k (
        rt_sigprocmask (if block then sig_block else sig_unblock)
          (mask_word k.sigrtmin r current ceiling))
      >> pure tt

  abbrev pub message : (task index : ℕ) → SigInfo
  message task index = record { sival_ptr = task * 2 ^ 8 + index }

  unfoldable pub enqueue :
      (tgid : ℕ) (tid : Option ℕ) (signo task index : ℕ) → State k.State (Unit {0})
  enqueue tgid none signo task index =
      call k (rt_sigqueueinfo tgid (k.sigrtmin + signo) (message task index)) >> pure tt
  enqueue tgid (some tid) signo task index =
      call k (rt_tgsigqueueinfo tgid tid (k.sigrtmin + signo) (message task index)) >> pure tt

  unfoldable pub register : Range → (priority sigaction : ℕ) → State k.State (Unit {0})
  unfolding action_word
  register r priority sigaction =
      call k (
        rt_sigaction (k.sigrtmin + handler_signal r priority) sigaction
          (action_word k.sigrtmin r priority))
      >> pure tt

  -- One thread's view while a task runs: its dynamic priority, the kernel, the protected data.
  pub record Cpu (T : Type 0) : Type 0 where
    pub priority : Priority
    pub kernel : k.State
    pub resource : T

  abbrev pub on_kernel : {T A : Type 0} → State k.State A → State (Cpu T) A
  on_kernel = zoom (λ c. c.kernel) (λ s c. record c { kernel = s })

  abbrev with_priority : {T : Type 0} → ℕ → State (Cpu T) (Unit {0})
  with_priority p = modify λ c. record c { priority = set_priority c.priority p }

  -- `f` runs on the same thread: it sees the cell and the kernel too.
  unfoldable pub lock : {T R : Type 0} → (ceiling : ℕ) → Range → State (Cpu T) R → State (Cpu T) R
  unfolding get_priority set_priority mask
  lock ceiling range f c =
      let current = get_priority c.priority in
      let raised = do
        with_priority ceiling
        on_kernel (mask range current ceiling true)
        r ← f
        on_kernel (mask range current ceiling false)
        with_priority current
        pure r
      in if ltb current ceiling then raised c else f c
