-- ===== src/Macros/Examples/Stuck.antt =====
-- An application whose core 1 waits for core 2 (macros/src/codegen/childs.rs).
use mathlib.Core.List.{Memᴰ, flat_map}
use linux_rtfm.Base.{ℕ, suc, ◌≡◌, refl, sym, subst, false, some, List, [], ◌∷◌, collect, arith}
use linux_rtfm.Base.Run.{done}
use linux_rtfm.Macros.Ident.{
  eq_ident, decimal, b_ident, tid_ident, child_ident, rt_ident, fq_ident, timer_ident,
}
use linux_rtfm.Macros.Collect
use linux_rtfm.Macros.Codegen.Groups
use linux_rtfm.Macros.Codegen.Boot
use linux_rtfm.Macros.Codegen.Spawn
use linux_rtfm.Macros.Codegen.Schedule
use linux_rtfm.Macros.Codegen.Dispatch
use linux_rtfm.Macros.Codegen.Tasks
use linux_rtfm.Macros.Codegen.Resources
use linux_rtfm.Macros.Codegen.Statics
use linux_rtfm.Macros.Codegen.Locals
use linux_rtfm.Macros.Codegen.Module
use linux_rtfm.Macros.Codegen.Functions
use linux_rtfm.Macros.Analyze
use linux_rtfm.Macros.Collect.{get, elem_ident}
use linux_rtfm.Macros.Codegen.Code.{
  Stmt, init_runtime, reset_index, fill_queue, init_tgid, init_timer, register, init_tid, wait_tid,
  spawn_child, set_affinity, call_init, write_late, wait_barrier, mask, loop_pause, tgid_var,
  tid_var,
}
use linux_rtfm.Macros.Codegen.Startup.{
  Thread, State, child_step, Reach, start, next, boot, fresh, program, unmasked,
}
use linux_rtfm.Macros.Codegen.Startup.Order.{unmasked-never}
use linux_rtfm.Macros.Examples.{init_name, a_name, b_name, y_name, app, resource_of}
use linux_rtfm.Macros.Analyze.{range}
use linux_rtfm.Macros.Codegen.Boot.{child_stmts, enable, list_of}
use linux_rtfm.Macros.Codegen.Boot.Barriers.{senders_of}
use linux_rtfm.Macros.Codegen.Functions.{statement}
use linux_rtfm.Macros.Analyze.{Analysis}
use linux_rtfm.Macros.Syntax.{App}
use linux_rtfm.Macros.Codegen.Functions.{Expansion, expansion}
use linux_rtfm.Macros.Examples.{parent}
use linux_rtfm.Macros.Examples.Code.{signals_0, signals_1}
use linux_rtfm.Macros.Examples.Whole.{code_of}
use linux_rtfm.Macros.Examples.Threads.{main_at, run_main}

-- With a third core, and core 1 waiting for it.
abbrev three_app : App
three_app = record app { cores = 3 }

abbrev three : Analysis
three = record {
  parent = record parent {
    used_cores = 0 ∷ 1 ∷ 2 ∷ [];
    initialization_barriers = (1, 2 ∷ []) ∷ [];
  };
  signals = (0, signals_0) ∷ (1, signals_1) ∷ (2, record { map = []; start = 3 }) ∷ [];
}

abbrev three_code : Expansion
three_code = code_of (expansion three_app three)

three_generated : expansion three_app three ≡ done three_code
unfolding eq_ident resource_of Collect.insert Collect.collect_set Collect.get Collect.insert_map
    Collect.collect_map Collect.find Collect.elem Collect.elem_ident Groups.input_ident
    Groups.number_inputs Groups.regroup_inputs Groups.power_from Groups.typenum_capacity
    Boot.maximum Boot.concat_values Boot.signal_of Boot.fill_queues Boot.timer_0 Boot.register_level
    Boot.register_core Boot.timer_of Boot.start_thread Boot.thread_statics Boot.tgid_name
    Boot.pre_init Boot.enable Boot.all_senders Boot.post_init Boot.child_stmts Boot.child
    Boot.childs Spawn.thread_of Spawn.instants_of Spawn.dequeue_of Spawn.spawn_body
    Spawn.instant_source Spawn.add_spawn Spawn.spawn_method Spawn.spawn_methods Spawn.spawn_from
    Spawn.spawn_items Schedule.schedule_body Schedule.add_schedule Schedule.schedule_method
    Schedule.schedule_methods Schedule.schedule_from Schedule.schedule_items Dispatch.timer_arm
    Dispatch.timer_body Dispatch.timer_items Dispatch.timer_queue_items Dispatch.arm
    Dispatch.received Dispatch.channel_arms Dispatch.timer_at Dispatch.dispatcher
    Dispatch.separate_timer Dispatch.dispatch_core Dispatch.dispatchers Tasks.buffer_capacity
    Tasks.fq_items Tasks.free_queue Tasks.buffers Tasks.task_buffers Resources.function_name
    Resources.locals_ident Resources.resources_ident Resources.resources_of Resources.init_access
    Resources.direct_value Resources.task_access Resources.access_by Resources.access
    Resources.resources_struct Statics.static_of Statics.shared_ceiling Statics.mutex_items
    Statics.resource_items Statics.resources Locals.locals Module.add_scheduled Module.add_locals
    Module.add_resources Module.add_schedule Module.add_spawn Module.add_late_resources
    Module.module_of Functions.own_resources Functions.late_field Functions.late_fields
    Functions.init_items Functions.idle_items Functions.task_items Functions.expansion
    Functions.main_stmts Analyze.range Analyze.task_priorities Analyze.priorities Analyze.zip_from
    Analyze.core_signals Analyze.assign Analyze.app_analysis flat_map
three_generated = refl

abbrev three_main : List Stmt
three_main =
    init_runtime (some 2)
    ∷ reset_index
    ∷ fill_queue (fq_ident a_name 1) 2
    ∷ reset_index
    ∷ fill_queue (fq_ident b_name 0) 3
    ∷ init_tgid
    ∷ register (record { start = 0; end = 1 }) 1 (rt_ident 0)
    ∷ register (record { start = 1; end = 3 }) 2 (rt_ident 1)
    ∷ register (record { start = 1; end = 3 }) 1 (rt_ident 2)
    ∷ init_tid (tid_ident 0) tgid_var
    ∷ spawn_child (child_ident 1)
    ∷ init_timer (timer_ident 1) tid_var 2
    ∷ set_affinity 1
    ∷ init_tid (tid_ident 1) tid_var
    ∷ spawn_child (child_ident 2)
    ∷ set_affinity 2
    ∷ init_tid (tid_ident 2) tid_var
    ∷ call_init init_name
    ∷ write_late y_name
    ∷ mask (record { start = 0; end = 1 }) 0 1 false
    ∷ loop_pause
    ∷ []

abbrev waiting_program : List Stmt
waiting_program =
    wait_barrier (b_ident 2) ∷ mask (record { start = 1; end = 3 }) 0 2 false ∷ loop_pause ∷ []

abbrev third_program : List Stmt
third_program =
    wait_tid (tid_ident 2) ∷ mask (record { start = 3; end = 3 }) 0 0 false ∷ loop_pause ∷ []

abbrev three_first : State
three_first = record {
  main = fresh three_main;
  childs =
      (child_ident 1, fresh (wait_tid (tid_ident 1) ∷ waiting_program))
      ∷ (child_ident 2, fresh third_program)
      ∷ [];
}

three_lem : boot three_code ≡ three_first
unfolding eq_ident resource_of Collect.insert Collect.collect_set Collect.get Collect.insert_map
    Collect.collect_map Collect.find Collect.elem Collect.elem_ident Groups.input_ident
    Groups.number_inputs Groups.regroup_inputs Groups.power_from Groups.typenum_capacity
    Boot.maximum Boot.concat_values Boot.signal_of Boot.fill_queues Boot.timer_0 Boot.register_level
    Boot.register_core Boot.timer_of Boot.start_thread Boot.thread_statics Boot.tgid_name
    Boot.pre_init Boot.enable Boot.all_senders Boot.post_init Boot.child_stmts Boot.child
    Boot.childs Spawn.thread_of Spawn.instants_of Spawn.dequeue_of Spawn.spawn_body
    Spawn.instant_source Spawn.add_spawn Spawn.spawn_method Spawn.spawn_methods Spawn.spawn_from
    Spawn.spawn_items Schedule.schedule_body Schedule.add_schedule Schedule.schedule_method
    Schedule.schedule_methods Schedule.schedule_from Schedule.schedule_items Dispatch.timer_arm
    Dispatch.timer_body Dispatch.timer_items Dispatch.timer_queue_items Dispatch.arm
    Dispatch.received Dispatch.channel_arms Dispatch.timer_at Dispatch.dispatcher
    Dispatch.separate_timer Dispatch.dispatch_core Dispatch.dispatchers Tasks.buffer_capacity
    Tasks.fq_items Tasks.free_queue Tasks.buffers Tasks.task_buffers Resources.function_name
    Resources.locals_ident Resources.resources_ident Resources.resources_of Resources.init_access
    Resources.direct_value Resources.task_access Resources.access_by Resources.access
    Resources.resources_struct Statics.static_of Statics.shared_ceiling Statics.mutex_items
    Statics.resource_items Statics.resources Locals.locals Module.add_scheduled Module.add_locals
    Module.add_resources Module.add_schedule Module.add_spawn Module.add_late_resources
    Module.module_of Functions.own_resources Functions.late_field Functions.late_fields
    Functions.init_items Functions.idle_items Functions.task_items Functions.expansion
    Functions.main_stmts Analyze.range Analyze.task_priorities Analyze.priorities Analyze.zip_from
    Analyze.core_signals Analyze.assign Analyze.app_analysis flat_map
three_lem = refl

abbrev three_started : (m : ℕ) × Reach three_first m (main_at three_main [] three_first.childs)
three_started = run_main three_first.childs [] three_main refl start

-- Core 1 has its id, and waits.
abbrev waiting : Thread
waiting = record { passed = wait_tid (tid_ident 1) ∷ []; rest = waiting_program }

abbrev stuck : State
stuck = main_at three_main [] ((child_ident 1, waiting) ∷ (child_ident 2, fresh third_program) ∷ [])

stuck_first : Reach three_first (suc three_started.0) stuck
unfolding elem_ident eq_ident child_ident b_ident tid_ident decimal
stuck_first = next three_started.1 (
    child_step (main_at three_main [] three_first.childs) []
      ((child_ident 2, fresh third_program) ∷ []) (child_ident 1)
      (fresh (wait_tid (tid_ident 1) ∷ waiting_program)) (wait_tid (tid_ident 1)) waiting_program
      refl refl refl refl)

stuck_reached : Reach (boot three_code) (suc three_started.0) stuck
stuck_reached = subst (λ s. Reach s (suc three_started.0) stuck) (sym three_lem) stuck_first

waiting_lem : child_stmts three_app three 1 ≡ done (program waiting)
unfolding child_stmts enable get range
waiting_lem = refl

two_lem : Memᴰ 2 (senders_of three 1)
unfolding get
two_lem = Memᴰ.head refl

unmasked-never_example : ¬ Memᴰ (record { start = 1; end = 3 }) (collect unmasked waiting.passed)
unmasked-never_example =
    unmasked-never three_app three three_generated stuck_reached 1 (child_ident 1) waiting 2
      (record { start = 1; end = 3 }) (Memᴰ.head refl) waiting_lem two_lem (omega arith)
