-- ===== src/Macros/Examples.antt =====
-- A small application on two cores (macros/src/): core 0 spawns a task of core 1, which has a timer.
pub mod Levels
pub mod Code
pub mod Contexts
pub mod Whole
pub mod Threads
pub mod Stuck
pub mod Asserted
pub mod Startup
pub mod Shared
use linux_rtfm.Base.{collect}
use mathlib.Core.List.{Memᴰ}
use linux_rtfm.Base.{
  ltb, ℕ, ◌+◌, ◌-◌, ◌≤◌, ◌<◌, ◌≡◌, ◌↔◌, refl, Bool, true, false, Option, none, some, List, [], ◌∷◌,
  map, length, All, ◌==◌, if◌then◌else◌, arith,
}
use mathlib.Core.List.{flat_map}
use mathlib.Core.Option.{bind}
use linux_rtfm.Macros.Collect.Sorted.{above}
use linux_rtfm.Base.Run.{done, ◌>>=◌}
use linux_rtfm.Runtime.Signals.{message, handler_signal}
use linux_rtfm.Runtime.Examples.{toy}
use linux_rtfm.Macros.Ident.{
  Ident, eq_ident, b_ident, fq_ident, inputs_ident, instants_ident, tid_ident, spawn_t_ident,
  task_ident,
}
use linux_rtfm.Macros.Codegen.Code.{
  SpawnBody, Stmt, Output, reset_index, fill_queue, locked, static_barrier, release_barrier,
  wait_barrier, mask, wait_tid, loop_pause,
}
use linux_rtfm.Macros.Codegen.Boot.{
  keys, signal_of, fill_queues, post_init, child_stmts, all_senders, enable,
}
use linux_rtfm.Macros.Codegen.Boot.Barriers.{
  released, awaited, senders_of, post_init-barriers, child_stmts-barriers,
}
use linux_rtfm.Macros.Codegen.Spawn.{spawn_body, dequeue_of, instants_of, thread_of}
use linux_rtfm.Macros.Codegen.Tasks.{buffer_capacity}
use linux_rtfm.Macros.Codegen.Tasks.Slots.{run_fills, slots, queue_names, iota, fill_queues-Fills}
use linux_rtfm.Macros.Codegen.Dispatch.{
  DispatchItem, dispatcher, channel_arms, arm, timer_at, timer_arm, received,
}
use linux_rtfm.Macros.Codegen.Schedule.{schedule_body}
use linux_rtfm.Macros.Codegen.Code.{ScheduleBody, TimerBody, TimerArm}
use linux_rtfm.Macros.Ident.{schedule_t_ident, tq_ident, timer_ident}
use linux_rtfm.Macros.Codegen.Dispatch.{timer_body}
use linux_rtfm.Macros.Codegen.Dispatch.Entries.{timer_body-schedule_body}
use linux_rtfm.Macros.Codegen.Dispatch.Links.{
  Dispatched, counterpart, items_of, dispatcher-spawn_body, timer_arm-spawn_body, received-message,
}
use linux_rtfm.Macros.Collect.{
  Map, get, find, elem, elem_ident, insert, collect_set, collect_map, insert_map,
}
use linux_rtfm.Macros.Syntax.{
  Ownership, Placed, Resource, Local, Main, TimerQueue, App, Parent, SoftwareTask, Context, init,
  idle, hardware_task, software_task,
}
use linux_rtfm.Macros.Analyze.{
  Analysis, Signals, app_analysis, core_signals, range, priorities, task_priorities, zip_from,
  assign,
}
use linux_rtfm.Macros.Analyze.Ranks.{sum, count}
use linux_rtfm.Macros.Analyze.Assignment.{
  signal, total, start, signal_lem, signal-range, signal-antitone, signal-injective,
  range-core_signals, signal-dense,
}
use linux_rtfm.Macros.Check.{
  app_check, ok, nsignals, check_names, levels, task_levels, timer_levels,
}
use linux_rtfm.Macros.Check.Enough.{app_check-signal-lt, app_check-total}

-- The names `init`, `a` and `b`.
abbrev init_name : Ident
init_name = 1 ∷ []

abbrev a_name : Ident
a_name = 97 ∷ []

abbrev b_name : Ident
b_name = 98 ∷ []

-- `x` is a resource of `init` and of `a`, with a ceiling above `a`, `y` is a late one, which `#[init]` of core 0 gives its value.
abbrev x_name : Ident
x_name = 120 ∷ []

abbrev y_name : Ident
y_name = 121 ∷ []

abbrev x : Resource
x = record { cfgs = []; is_mut = true; ty = 117 ∷ [] }

abbrev y : Resource
y = record { cfgs = []; is_mut = false; ty = 117 ∷ [] }

unfoldable resource_of : Ident → Option (Resource × Option Ident)
unfolding eq_ident
resource_of name =
    if eq_ident name x_name
    then some (x, some (48 ∷ []))
    else if eq_ident name y_name
    then some (y, none)
    else none

-- `a` on core 0 at priority 1 spawns `b` on core 1 at priority 2, which spawns `a`.
abbrev task_a : SoftwareTask
task_a = record {
  core = 0;
  priority = 1;
  capacity = 2;
  inputs = [];
  resources = x_name ∷ [];
  schedule = [];
  spawn = b_name ∷ [];
  locals = [];
}

abbrev task_b : SoftwareTask
task_b = record {
  core = 1;
  priority = 2;
  capacity = 3;
  inputs = (105 ∷ []) ∷ [];
  resources = [];
  schedule = a_name ∷ [];
  spawn = a_name ∷ [];
  locals = [];
}

abbrev core_of : Context → ℕ
core_of (init core) = core
core_of (idle core) = core
core_of (hardware_task name) = 0
core_of (software_task []) = 0
core_of (software_task (c ∷ cs)) = c - 97

abbrev ident_of : Context → Ident
ident_of (software_task name) = name
ident_of context = init_name

abbrev is_init_context : Context → Bool
is_init_context (init core) = true
is_init_context context = false

abbrev is_idle_context : Context → Bool
is_idle_context (idle core) = true
is_idle_context context = false

abbrev runs_once_in : Context → Bool
runs_once_in (software_task name) = false
runs_once_in context = true

abbrev setup : Main
setup = record {
  name = init_name;
  resources = x_name ∷ [];
  schedule = [];
  spawn = a_name ∷ [];
  locals = (122 ∷ [], record { cfgs = []; ty = 117 ∷ []; expr = 48 ∷ [] }) ∷ [];
}

abbrev app : App
app = record {
  cores = 2;
  inits = (0, setup) ∷ [];
  idles = [];
  hardware_tasks = [];
  software_tasks = (a_name, task_a) ∷ (b_name, task_b) ∷ [];
  uses_schedule = λ core. core == 1;
  spawn_callers = (software_task a_name, b_name ∷ []) ∷ (software_task b_name, a_name ∷ []) ∷ [];
  schedule_callers = (software_task b_name, a_name ∷ []) ∷ [];
  core = core_of;
  ident = ident_of;
  is_init = is_init_context;
  is_idle = is_idle_context;
  runs_once = runs_once_in;
  late_resources = (y_name, y) ∷ [];
  resource = resource_of;
}

abbrev owner : Ownership
owner = record { ceiling = some 2; is_owned = false; needs_lock = λ p. ltb p 2 }

abbrev placed_x : Placed
placed_x = record { name = x_name; res = x; expr = some (48 ∷ []); core = some 0 }

abbrev placed_y : Placed
placed_y = record { name = y_name; res = y; expr = none; core = none }

abbrev parent : Parent
parent = record {
  timer_queues = (1, record { priority = 1; ceiling = 2; capacity = 2; tasks = a_name ∷ [] }) ∷ [];
  free_queues = (a_name, (1, some 2) ∷ []) ∷ (b_name, (0, none) ∷ []) ∷ [];
  channels = (0, (1, (1, a_name ∷ []) ∷ []) ∷ []) ∷ (1, (2, (0, b_name ∷ []) ∷ []) ∷ []) ∷ [];
  used_cores = 0 ∷ 1 ∷ [];
  late_resources = (0, y_name ∷ []) ∷ [];
  initialization_barriers = (1, 0 ∷ []) ∷ [];
  send_types = [];
  sync_types = [];
  ownerships = (x_name, owner) ∷ [];
  resources = placed_x ∷ placed_y ∷ [];
}
