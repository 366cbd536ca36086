-- ===== src/Macros/Codegen/Dispatch.antt =====
-- macros/src/codegen/timer_body.rs, timer_queue.rs and dispatchers.rs: the handlers of the signals.
pub mod Links
pub mod Entries
pub mod Registered
pub mod Reached
pub mod Distinct
use linux_rtfm.Base.{
  ℕ, ◌/◌, ◌%◌, ◌^◌, Bool, true, false, Option, none, some, List, [], ◌∷◌, ◌++◌, ◌==◌, if◌then◌else◌,
}
use linux_rtfm.Base.Run.{Run, done, ◌>>=◌, unwrap, map_run, flat_map_run}
use linux_rtfm.Runtime.Kernel.{SigInfo}
use linux_rtfm.Macros.Ident.{
  Ident, inputs_ident, rt_ident, timer_ident, fq_ident, spawn_t_ident, schedule_t_ident, task_ident,
  tq_ident,
}
use linux_rtfm.Macros.Collect.{Map, get, find, elem}
use linux_rtfm.Macros.Syntax.{App, TimerQueue, SoftwareTask}
use linux_rtfm.Macros.Analyze.{Analysis, Signals, range}
use linux_rtfm.Macros.Codegen.Code.{Arm, TimerArm, TimerBody, Mutex}
use linux_rtfm.Macros.Codegen.Groups.{typenum_capacity}
use linux_rtfm.Macros.Codegen.Boot.{keys, signal_of}
use linux_rtfm.Macros.Codegen.Spawn.{thread_of, instants_of}

unfoldable pub timer_arm : App → Analysis → (sender : ℕ) → Ident → Run TimerArm
unfolding find signal_of
timer_arm app analysis sender name = do
  task ← unwrap (find name app.software_tasks)
  signo ← signal_of analysis task.core task.priority
  done (record {
    task = name;
    send = record {
      tid = thread_of app task.core;
      signo = signo;
      t = spawn_t_ident task.core task.priority;
      variant = task_ident name sender;
    };
  })

-- The loop that empties the timer queue of what is due.
unfoldable pub timer_body : ℕ → TimerQueue → App → Analysis → Run TimerBody
unfolding timer_arm
timer_body sender timer_queue app analysis = do
  arms ← map_run (timer_arm app analysis sender) timer_queue.tasks
  done (record {
    timer = timer_ident sender;
    tq = tq_ident sender;
    t = schedule_t_ident sender;
    arms = arms;
  })

pub data TimerItem : Type 0 where
  -- `enum t { variants }`
  schedule_enum : (t : Ident) (variants : List Ident) → TimerItem
  static_tq : (tq t cap : Ident) → TimerItem
  static_timer : (timer : Ident) → TimerItem
  proxy : (tq : Ident) → TimerItem
  impl_mutex : Mutex → TimerItem

unfoldable pub timer_items : Analysis → ℕ × TimerQueue → Run (List TimerItem)
unfolding get range
timer_items analysis (sender, timer_queue) = do
  cap ← typenum_capacity timer_queue.capacity false
  signals ← unwrap (get sender analysis.signals)
  done (
      schedule_enum (schedule_t_ident sender) timer_queue.tasks
      ∷ static_tq (tq_ident sender) (schedule_t_ident sender) cap
      ∷ static_timer (timer_ident sender)
      ∷ proxy (tq_ident sender)
      ∷ impl_mutex
          (record { name = tq_ident sender; ceiling = timer_queue.ceiling; range = range signals })
      ∷ [])

unfoldable pub timer_queue_items : Analysis → Run (List TimerItem)
unfolding timer_items
timer_queue_items analysis = flat_map_run (timer_items analysis) analysis.timer_queues

-- What a handler does: a match on the message, the timer's loop, or by `si_code` one or the other.
pub data HandlerBody : Type 0 where
  dispatch : (t : Ident) → List Arm → HandlerBody
  dispatch_or_timer : (t : Ident) → List Arm → TimerBody → HandlerBody
  timer_only : TimerBody → HandlerBody

pub data DispatchItem : Type 0 where
  spawn_enum : (t : Ident) (variants : List Ident) → DispatchItem
  handler : (name : Ident) (priority : ℕ) → HandlerBody → DispatchItem

unfoldable pub arm : App → (receiver sender : ℕ) → Ident → Run Arm
unfolding find
arm app receiver sender name = do
  task ← unwrap (find name app.software_tasks)
  done (record {
    variant = task_ident name sender;
    inputs = inputs_ident name;
    instants = instants_of app receiver name;
    fq = fq_ident name sender;
    task = name;
  })

-- What a handler reads of a message: `(si_value >> 8) as u8` and `(si_value & 0xff) as u8`.
unfoldable pub received : SigInfo → ℕ × ℕ
received si = (si.sival_ptr / 2 ^ 8 % 2 ^ 8, si.sival_ptr % 2 ^ 8)

-- The arms for one sender.
unfoldable pub channel_arms : App → (receiver : ℕ) → ℕ × List Ident → Run (List Arm)
unfolding arm
channel_arms app receiver (sender, tasks) = map_run (arm app receiver sender) tasks

abbrev pub variants : List Arm → List Ident
variants [] = []
variants (a ∷ arms) = a.variant ∷ variants arms

-- The timer's loop where the timer has this level.
unfoldable pub timer_at : App → Analysis → (receiver level : ℕ) → Run (Option TimerBody)
unfolding get timer_body
timer_at app analysis receiver level = elim (get receiver analysis.timer_queues) [
  | none ↦ done none
  | some tq ↦
      if tq.priority == level
      then (do body ← timer_body receiver tq app analysis; done (some body))
      else done none
]

abbrev pub handler_body : Ident → List Arm → Option TimerBody → HandlerBody
handler_body t arms none = dispatch t arms
handler_body t arms (some tq) = dispatch_or_timer t arms tq

unfoldable pub dispatcher :
    App → Analysis → (receiver : ℕ) → Signals → ℕ × Map (List Ident) → Run (List DispatchItem)
unfolding get channel_arms timer_at
dispatcher app analysis receiver signals (level, channels) = do
  arms ← flat_map_run (channel_arms app receiver) channels
  rt ← unwrap (get level signals.map)
  timer ← timer_at app analysis receiver level
  done (
      spawn_enum (spawn_t_ident receiver level) (variants arms)
      ∷ handler (rt_ident rt) level (handler_body (spawn_t_ident receiver level) arms timer)
      ∷ [])

-- The timer queue handler may be a separate signal handler.
unfoldable pub separate_timer :
    App → Analysis → (receiver : ℕ) → Signals → List ℕ → Run (List DispatchItem)
unfolding get elem timer_body
separate_timer app analysis receiver signals levels = elim (get receiver analysis.timer_queues) [
  | none ↦ done []
  | some tq ↦ if elem tq.priority levels then done [] else (do
    rt ← unwrap (get tq.priority signals.map)
    body ← timer_body receiver tq app analysis
    done (handler (rt_ident rt) tq.priority (timer_only body) ∷ []))
]

unfoldable pub dispatch_core : App → Analysis → ℕ × Map (Map (List Ident)) → Run (List DispatchItem)
unfolding get dispatcher separate_timer
dispatch_core app analysis (receiver, dispatchers) = do
  signals ← unwrap (get receiver analysis.signals)
  items ← flat_map_run (dispatcher app analysis receiver signals) dispatchers
  own ← separate_timer app analysis receiver signals (keys dispatchers)
  done (items ++ own)

unfoldable pub dispatchers : App → Analysis → Run (List DispatchItem)
unfolding dispatch_core
dispatchers app analysis = flat_map_run (dispatch_core app analysis) analysis.channels
