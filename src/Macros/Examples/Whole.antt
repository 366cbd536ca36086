-- ===== src/Macros/Examples/Whole.antt =====
-- The whole expansion of the application (macros/src/lib.rs).
use linux_rtfm.Base.{◌<◌, ◌≡◌, ◌∙◌, ap, refl, none, some, [], arith}
use linux_rtfm.Base.Run.{Run, done, panic, ◌>>=◌}
use linux_rtfm.Macros.Collect.{
  find, get, collect_set, collect_map, insert, insert_map, elem, elem_ident,
}
use linux_rtfm.Macros.Ident.{eq_ident}
use linux_rtfm.Macros.Syntax.{software_task}
use linux_rtfm.Macros.Analyze.{app_analysis}
use linux_rtfm.Macros.Check.{nsignals}
use linux_rtfm.Macros.Codegen.Code.{loop_pause}
use linux_rtfm.Macros.Codegen.Spawn.{spawn_body}
use linux_rtfm.Macros.Codegen.Functions.{Expansion, expansion}
use linux_rtfm.Macros.Entry.{app_macro, expanded, generate, app_macro-signal-lt}
use linux_rtfm.Macros.Collect
use linux_rtfm.Macros.Codegen.Groups
use linux_rtfm.Macros.Codegen.Boot
use linux_rtfm.Macros.Codegen.Spawn
use linux_rtfm.Macros.Codegen.Schedule
use linux_rtfm.Macros.Codegen.Dispatch
use linux_rtfm.Macros.Codegen.Tasks
use linux_rtfm.Macros.Codegen.Resources
use linux_rtfm.Macros.Codegen.Statics
use linux_rtfm.Macros.Codegen.Locals
use linux_rtfm.Macros.Codegen.Module
use linux_rtfm.Macros.Codegen.Functions
use linux_rtfm.Macros.Analyze
use linux_rtfm.Macros.Examples.{resource_of, a_name, b_name, task_b, app, parent}
use linux_rtfm.Macros.Examples.Levels.{checked}
use linux_rtfm.Macros.Examples.Code.{body, analysis, analysis_lem, body_lem}

abbrev nothing : Expansion
nothing = record {
  pre_init = record { const_app = []; stmts = [] };
  childs = [];
  inits = [];
  call_init = none;
  post_init = record { const_app = []; stmts = [] };
  idles = [];
  call_idle = loop_pause;
  resources = record { const_app = []; mod_resources = [] };
  tasks = [];
  dispatchers = [];
  spawn = [];
  timer_queues = [];
  schedule = [];
}

-- The code that is generated, `nothing` where the generator panics.
abbrev pub code_of : Run Expansion → Expansion
code_of (done ts) = ts
code_of panic = nothing

abbrev pub code : Expansion
code = code_of (expansion app analysis)

pub generated : expansion app analysis ≡ done code
unfolding eq_ident resource_of Collect.insert Collect.collect_set Collect.get Collect.insert_map
    Collect.collect_map Collect.find Collect.elem Collect.elem_ident Groups.input_ident
    Groups.number_inputs Groups.regroup_inputs Groups.power_from Groups.typenum_capacity
    Boot.maximum Boot.concat_values Boot.signal_of Boot.fill_queues Boot.timer_0 Boot.register_level
    Boot.register_core Boot.timer_of Boot.start_thread Boot.thread_statics Boot.tgid_name
    Boot.pre_init Boot.enable Boot.all_senders Boot.post_init Boot.child_stmts Boot.child
    Boot.childs Spawn.thread_of Spawn.instants_of Spawn.dequeue_of Spawn.spawn_body
    Spawn.instant_source Spawn.add_spawn Spawn.spawn_method Spawn.spawn_methods Spawn.spawn_from
    Spawn.spawn_items Schedule.schedule_body Schedule.add_schedule Schedule.schedule_method
    Schedule.schedule_methods Schedule.schedule_from Schedule.schedule_items Dispatch.timer_arm
    Dispatch.timer_body Dispatch.timer_items Dispatch.timer_queue_items Dispatch.arm
    Dispatch.received Dispatch.channel_arms Dispatch.timer_at Dispatch.dispatcher
    Dispatch.separate_timer Dispatch.dispatch_core Dispatch.dispatchers Tasks.buffer_capacity
    Tasks.fq_items Tasks.free_queue Tasks.buffers Tasks.task_buffers Resources.function_name
    Resources.locals_ident Resources.resources_ident Resources.resources_of Resources.init_access
    Resources.direct_value Resources.task_access Resources.access_by Resources.access
    Resources.resources_struct Statics.static_of Statics.shared_ceiling Statics.mutex_items
    Statics.resource_items Statics.resources Locals.locals Module.add_scheduled Module.add_locals
    Module.add_resources Module.add_schedule Module.add_spawn Module.add_late_resources
    Module.module_of Functions.own_resources Functions.late_field Functions.late_fields
    Functions.init_items Functions.idle_items Functions.task_items Functions.expansion
    Functions.main_stmts Analyze.range Analyze.task_priorities Analyze.priorities Analyze.zip_from
    Analyze.core_signals Analyze.assign Analyze.app_analysis
generated = refl

answered : app_macro (some (app, parent)) ≡ done (expanded code)
unfolding app_macro generate
answered =
    ap (generate app parent) checked
    ∙ ap (λ a. expansion app a >>= λ ts. done (expanded ts)) analysis_lem
    ∙ ap (λ r. r >>= λ ts. done (expanded ts)) generated

b_known : find b_name app.software_tasks ≡ some task_b
unfolding find eq_ident
b_known = refl

app_macro-signal-lt_example : body.enqueue.signo < nsignals
app_macro-signal-lt_example =
    app_macro-signal-lt app parent code (software_task a_name) b_name task_b body answered b_known
      (omega arith) (ap (spawn_body (software_task a_name) b_name app) analysis_lem ∙ body_lem)
