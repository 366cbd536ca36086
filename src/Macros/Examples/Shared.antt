-- ===== src/Macros/Examples/Shared.antt =====
-- The functions that the spawners and schedulers of the application share (macros/src/codegen/spawn.rs
-- and schedule.rs).
use mathlib.Core.List.{Memᴰ}
use linux_rtfm.Base.{◌≡◌, refl, ap, [], ◌∷◌, collect, List}
use linux_rtfm.Base.Run.{done}
use linux_rtfm.Macros.Collect
use linux_rtfm.Macros.Ident.{Ident, eq_ident, spawn_ident, schedule_ident}
use linux_rtfm.Macros.Syntax.{Context, init, idle, software_task, App}
use linux_rtfm.Macros.Codegen.Code.{SpawnBody, ScheduleBody}
use linux_rtfm.Macros.Codegen.Boot
use linux_rtfm.Macros.Codegen.Groups
use linux_rtfm.Macros.Codegen.Spawn
use linux_rtfm.Macros.Codegen.Schedule
use linux_rtfm.Macros.Codegen.Spawn.{SpawnItem, spawn_items, spawn_body}
use linux_rtfm.Macros.Codegen.Schedule.{ScheduleItem, schedule_items, schedule_body}
use linux_rtfm.Macros.Codegen.Shared.{DeclaredOnce}
use linux_rtfm.Macros.Codegen.Spawn.Declared as Spawners
use linux_rtfm.Macros.Codegen.Schedule.Declared as Schedulers
use linux_rtfm.Macros.Codegen.Spawn.Served.{
  spawn_items-DeclaredOnce, spawn_items-served, SpawnsTask,
}
use linux_rtfm.Macros.Codegen.Schedule.Served.{schedule_items-served, SchedulesTask}
use linux_rtfm.Macros.Examples.{app, a_name, b_name}
use linux_rtfm.Macros.Examples.Code.{analysis}
use linux_rtfm.Macros.Examples.Startup.{result_or}

-- On core 0, `init`, `a` and `#[idle]` spawn `b`; on core 1, they and `b` schedule `a`.
abbrev app_of_many : App
app_of_many = record app {
  spawn_callers =
      (init 0, b_name ∷ []) ∷ (software_task a_name, b_name ∷ []) ∷ (idle 0, b_name ∷ []) ∷ [];
  schedule_callers =
      (init 1, a_name ∷ []) ∷ (software_task b_name, a_name ∷ []) ∷ (idle 1, a_name ∷ []) ∷ [];
}

abbrev spawns : List SpawnItem
spawns = result_or [] (spawn_items app_of_many analysis)

spawns_lem : spawn_items app_of_many analysis ≡ done spawns
unfolding Spawn.spawn_items Spawn.spawn_from Spawn.spawn_methods Spawn.spawn_method Spawn.add_spawn
    Spawn.spawn_body Spawn.instant_source Spawn.dequeue_of Spawn.instants_of Spawn.thread_of
    Boot.signal_of Groups.regroup_inputs Groups.number_inputs Groups.input_ident Collect.get
    Collect.find Collect.elem_ident eq_ident
spawns_lem = refl

abbrev schedules : List ScheduleItem
schedules = result_or [] (schedule_items app_of_many analysis)

schedules_lem : schedule_items app_of_many analysis ≡ done schedules
unfolding Schedule.schedule_items Schedule.schedule_from Schedule.schedule_methods
    Schedule.schedule_method Schedule.add_schedule Schedule.schedule_body Spawn.dequeue_of
    Spawn.instants_of Spawn.thread_of Boot.signal_of Groups.regroup_inputs Groups.number_inputs
    Groups.input_ident Collect.get Collect.find Collect.elem_ident eq_ident
schedules_lem = refl

spawn_items-DeclaredOnce_example :
    DeclaredOnce (collect Spawners.functions_of spawns) (collect Spawners.calls_of spawns)
spawn_items-DeclaredOnce_example = spawn_items-DeclaredOnce app_of_many analysis spawns_lem

spawners_on_0 : (c : Context) → SpawnsTask app_of_many analysis c b_name → app_of_many.core c ≡ 0
spawners_on_0 c (other, names, listed, inside) = elim listed [
  | Memᴰ.head e ↦ ap (λ (x : Context × List Ident). app_of_many.core x.0) e
  | Memᴰ.tail m ↦ elim m [
    | Memᴰ.head e ↦ ap (λ (x : Context × List Ident). app_of_many.core x.0) e
    | Memᴰ.tail m ↦ elim m [
      | Memᴰ.head e ↦ ap (λ (x : Context × List Ident). app_of_many.core x.0) e
      | Memᴰ.tail m ↦ elim m [ ]
    ]
  ]
]

spawn_items-served_example :
    (b : SpawnBody) × (spawn_body (idle 0) b_name app_of_many analysis ≡ done b)
    × Memᴰ (spawn_ident b_name, b) (collect Spawners.functions_of spawns)
spawn_items-served_example =
    spawn_items-served app_of_many analysis (idle 0) b_name spawns_lem
      (refl, b_name ∷ [], Memᴰ.tail (Memᴰ.tail (Memᴰ.head refl)), Memᴰ.head refl) spawners_on_0

schedulers_on_1 :
    (c : Context) → SchedulesTask app_of_many analysis c a_name → app_of_many.core c ≡ 1
schedulers_on_1 c (other, names, listed, inside) = elim listed [
  | Memᴰ.head e ↦ ap (λ (x : Context × List Ident). app_of_many.core x.0) e
  | Memᴰ.tail m ↦ elim m [
    | Memᴰ.head e ↦ ap (λ (x : Context × List Ident). app_of_many.core x.0) e
    | Memᴰ.tail m ↦ elim m [
      | Memᴰ.head e ↦ ap (λ (x : Context × List Ident). app_of_many.core x.0) e
      | Memᴰ.tail m ↦ elim m [ ]
    ]
  ]
]

schedule_items-served_example :
    (b : ScheduleBody) × (schedule_body (idle 1) a_name app_of_many analysis ≡ done b)
    × Memᴰ (schedule_ident a_name, b) (collect Schedulers.functions_of schedules)
schedule_items-served_example =
    schedule_items-served app_of_many analysis (idle 1) a_name schedules_lem
      (refl, a_name ∷ [], Memᴰ.tail (Memᴰ.tail (Memᴰ.head refl)), Memᴰ.head refl) schedulers_on_1
