-- ===== src/Macros/Examples/Code.antt =====
-- The code that is generated for the application (macros/src/codegen/).
use mathlib.Core.List.{Memᴰ}
use linux_rtfm.Base.{
  ℕ, ◌≡◌, refl, true, false, Option, none, some, List, [], ◌∷◌, map, length, All, arith,
}
use mathlib.Core.List.{flat_map}
use linux_rtfm.Base.Run.{done}
use linux_rtfm.Macros.Ident.{
  eq_ident, b_ident, fq_ident, inputs_ident, instants_ident, tid_ident, spawn_t_ident, task_ident,
}
use linux_rtfm.Macros.Codegen.Code.{
  SpawnBody, Stmt, Output, reset_index, fill_queue, locked, static_barrier, release_barrier,
  wait_barrier, mask, wait_tid, loop_pause, write_late,
}
use linux_rtfm.Macros.Codegen.Boot.{
  keys, signal_of, fill_queues, post_init, child_stmts, all_senders, enable,
}
use linux_rtfm.Macros.Codegen.Spawn.{spawn_body, dequeue_of, instants_of, thread_of}
use linux_rtfm.Macros.Codegen.Tasks.{buffer_capacity}
use linux_rtfm.Macros.Codegen.Tasks.Slots.{run_fills, slots, queue_names, iota, fill_queues-Fills}
use linux_rtfm.Macros.Codegen.Dispatch.{
  DispatchItem, dispatcher, channel_arms, arm, timer_at, timer_arm,
}
use linux_rtfm.Macros.Codegen.Schedule.{schedule_body}
use linux_rtfm.Macros.Codegen.Code.{ScheduleBody, TimerBody, TimerArm}
use linux_rtfm.Macros.Ident.{schedule_t_ident, tq_ident, timer_ident}
use linux_rtfm.Macros.Codegen.Dispatch.{timer_body}
use linux_rtfm.Macros.Codegen.Dispatch.Entries.{timer_body-schedule_body}
use linux_rtfm.Macros.Codegen.Dispatch.Links.{
  Dispatched, counterpart, items_of, dispatcher-spawn_body,
}
use linux_rtfm.Macros.Collect.{Map, get, find, elem, insert, collect_set, collect_map, insert_map}
use linux_rtfm.Macros.Syntax.{TimerQueue, software_task}
use linux_rtfm.Macros.Analyze.{
  Analysis, Signals, app_analysis, core_signals, range, priorities, task_priorities, zip_from,
  assign,
}
use linux_rtfm.Macros.Examples.{y_name, a_name, b_name, task_b, app, parent}

abbrev pub signals_0 : Signals
signals_0 = record { map = (1, 0) ∷ []; start = 0 }

abbrev pub signals_1 : Signals
signals_1 = record { map = (1, 2) ∷ (2, 1) ∷ []; start = 1 }

abbrev pub analysis : Analysis
analysis = record { parent = parent; signals = (0, signals_0) ∷ (1, signals_1) ∷ [] }

pub analysis_lem : app_analysis parent app ≡ analysis
unfolding app_analysis assign core_signals priorities collect_set insert task_priorities get
    zip_from collect_map insert_map
analysis_lem = refl

-- What `a` does to spawn `b`.
abbrev pub body : SpawnBody
body = record {
  dequeue = locked (fq_ident b_name 0);
  inputs = inputs_ident b_name;
  write_instant = some (instants_ident b_name);
  enqueue = record {
    tid = some (tid_ident 1);
    signo = 1;
    t = spawn_t_ident 1 2;
    variant = task_ident b_name 0;
  };
}

pub body_lem : spawn_body (software_task a_name) b_name app analysis ≡ done body
unfolding spawn_body find eq_ident get signal_of dequeue_of instants_of thread_of
body_lem = refl

abbrev items : List DispatchItem
items = items_of task_b body (counterpart b_name body ∷ []) none

items_lem : dispatcher app analysis 1 signals_1 (2, (0, b_name ∷ []) ∷ []) ≡ done items
unfolding dispatcher channel_arms arm find eq_ident get timer_at instants_of
items_lem = refl

b_found : find b_name app.software_tasks ≡ some task_b
unfolding find eq_ident
b_found = refl

signals_found : get 1 analysis.signals ≡ some signals_1
unfolding get
signals_found = refl

dispatcher-spawn_body_example : Dispatched b_name task_b body items
dispatcher-spawn_body_example =
    dispatcher-spawn_body app analysis (software_task a_name) b_name signals_1
      ((0, b_name ∷ []) ∷ []) (b_name ∷ []) b_found signals_found (Memᴰ.head refl) (Memᴰ.head refl)
      body_lem items_lem

-- The free queue of `b` for core 0.
abbrev senders : Map (Option ℕ)
senders = (0, none) ∷ []

abbrev fills : List Stmt
fills = reset_index ∷ fill_queue (fq_ident b_name 0) 3 ∷ []

fills_lem : fill_queues app (b_name, senders) ≡ done fills
unfolding fill_queues find eq_ident
fills_lem = refl

fill_queues-Fills_example :
    (queue_names (run_fills fills 7) ≡ map (fq_ident b_name) (keys senders))
    × All (λ q. length q.1 ≡ 3) (run_fills fills 7)
    × (slots (run_fills fills 7) ≡ iota 0 (buffer_capacity task_b senders))
fill_queues-Fills_example =
    fill_queues-Fills app b_name senders task_b fills 7 b_found (omega arith) (omega arith)
      fills_lem

abbrev out : Output
out = record {
  const_app = static_barrier (b_ident 0) ∷ [];
  stmts =
      write_late y_name
      ∷ release_barrier (b_ident 0)
      ∷ mask (record { start = 0; end = 1 }) 0 1 false
      ∷ [];
}

out_lem : post_init analysis ≡ done out
unfolding post_init all_senders enable get elem collect_set insert range flat_map
out_lem = refl

abbrev thread : List Stmt
thread =
    wait_tid (tid_ident 1)
    ∷ wait_barrier (b_ident 0)
    ∷ mask (record { start = 1; end = 3 }) 0 2 false
    ∷ loop_pause
    ∷ []

thread_lem : child_stmts app analysis 1 ≡ done thread
unfolding child_stmts enable get range
thread_lem = refl

-- What `b` does to schedule `a`, and the timer handler of core 1.
abbrev timer_queue : TimerQueue
timer_queue = record { priority = 1; ceiling = 2; capacity = 2; tasks = a_name ∷ [] }

abbrev entry : ScheduleBody
entry = record {
  dequeue = locked (fq_ident a_name 1);
  instants_write = none;
  inputs = inputs_ident a_name;
  t = schedule_t_ident 1;
  task = a_name;
  tq = tq_ident 1;
  tq_locked = true;
  tid = some (tid_ident 1);
  signo = 2;
}

entry_lem : schedule_body (software_task b_name) a_name app analysis ≡ done entry
unfolding schedule_body find eq_ident get signal_of dequeue_of instants_of thread_of
entry_lem = refl

abbrev timer_handler : TimerBody
timer_handler = record {
  timer = timer_ident 1;
  tq = tq_ident 1;
  t = schedule_t_ident 1;
  arms =
      record {
        task = a_name;
        send = record {
          tid = some (tid_ident 0);
          signo = 0;
          t = spawn_t_ident 0 1;
          variant = task_ident a_name 1;
        };
      }
      ∷ [];
}

timer_handler_lem : timer_body 1 timer_queue app analysis ≡ done timer_handler
unfolding timer_body timer_arm find eq_ident get signal_of thread_of
timer_handler_lem = refl

timer_body-schedule_body_example :
    (timer_handler.t ≡ entry.t)
    × (timer_handler.tq ≡ entry.tq)
    × (a : TimerArm) × Memᴰ a timer_handler.arms
    × (a.task ≡ entry.task)
    × (timer_arm app analysis 1 a_name ≡ done a)
timer_body-schedule_body_example =
    timer_body-schedule_body app analysis (software_task b_name) a_name timer_queue (Memᴰ.head refl)
      timer_handler_lem entry_lem
