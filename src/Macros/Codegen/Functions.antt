-- ===== src/Macros/Codegen/Functions.antt =====
-- macros/src/codegen/init.rs, idle.rs and tasks.rs: what is emitted around the user's functions; and
-- the whole expansion, `app` of macros/src/codegen.rs.
pub mod Late
use linux_rtfm.Base.{
  ℕ, Bool, true, false, Option, none, some, List, [], ◌∷◌, ◌++◌, ◌==◌, if◌then◌else◌,
}
use linux_rtfm.Base.Run.{Run, done, ◌>>=◌, unwrap, map_run, flat_map_run}
use linux_rtfm.Macros.Ident.{Ident, late_resources_ident}
use linux_rtfm.Macros.Collect.{get, find}
use linux_rtfm.Macros.Syntax.{
  App, Context, Context.init, Context.idle, Context.software_task, Main, SoftwareTask,
}
use linux_rtfm.Macros.Analyze.{Analysis}
use linux_rtfm.Macros.Codegen.Code.{Stmt, Output, call_init, call_idle, loop_pause}
use linux_rtfm.Macros.Codegen.Boot.{pre_init, post_init, childs}
use linux_rtfm.Macros.Codegen.Resources.{Struct, resources_struct, nonempty}
use linux_rtfm.Macros.Codegen.Statics.{ResourceItems, resources}
use linux_rtfm.Macros.Codegen.Locals.{Locals, locals}
use linux_rtfm.Macros.Codegen.Module.{Module, module_of}
use linux_rtfm.Macros.Codegen.Spawn.{SpawnItem, spawn_items}
use linux_rtfm.Macros.Codegen.Schedule.{ScheduleItem, schedule_items}
use linux_rtfm.Macros.Codegen.Dispatch.{DispatchItem, TimerItem, dispatchers, timer_queue_items}
use linux_rtfm.Macros.Codegen.Tasks.{TaskItem, buffers}

-- `fn name(name::Locals { locals, .. }: name::Locals, context: name::Context, inputs) -> ret`, where
-- the result is `name::LateResources`, `!` or none. The body is the user's.
pub data Result : Type 0 where
  nothing : Result
  late : Result
  never : Result

pub record Function : Type 0 where
  pub name : Ident
  pub locals : List Ident
  pub inputs : List Ident
  pub ret : Result

-- `pub struct ident { name: ty, … }`
pub record LateStruct : Type 0 where
  pub ident : Ident
  pub fields : List (Ident × Ident)

-- What one function adds to the lists that are emitted.
pub record Items : Type 0 where
  -- The constructor of the resources struct and the struct, where there is one.
  pub constructor_of : Option Struct
  pub late : Option LateStruct
  pub locals : Locals
  pub module_ : Module
  pub user : Function

-- `resources_struct::codegen`, where the function has resources.
unfoldable pub own_resources :
    Context → (priority : ℕ) → List Ident → App → Analysis → Run (Option Struct)
unfolding resources_struct
own_resources context priority [] app analysis = done none
own_resources context priority (name ∷ names) app analysis = do
  s ← resources_struct context priority app analysis
  done (some s)

-- `needs_lt` after it.
abbrev pub needs_lt : Option Struct → Bool
needs_lt none = false
needs_lt (some s) = s.lt

unfoldable pub late_field : App → Ident → Run (Ident × Ident)
unfolding find
late_field app name = do res ← unwrap (find name app.late_resources); done (name, res.ty)

unfoldable pub late_fields : App → Option (List Ident) → Run (List (Ident × Ident))
unfolding late_field
late_fields app none = done []
late_fields app (some names) = map_run (late_field app) names

abbrev pub late_struct : (name : Ident) → List (Ident × Ident) → Option LateStruct
late_struct name [] = none
late_struct name (f ∷ fs) = some (record { ident = late_resources_ident name; fields = f ∷ fs })

abbrev pub late_result : List (Ident × Ident) → Result
late_result [] = nothing
late_result (f ∷ fs) = late

-- One round of the loop of init.rs.
unfoldable pub init_items : App → Analysis → ℕ × Main → Run Items
unfolding own_resources get late_fields late_resources_ident locals module_of
init_items app analysis (core, main) = do
  struct ← own_resources (Context.init core) 0 main.resources app analysis
  fields ← late_fields app (get core analysis.late_resources)
  own ← locals (Context.init core) main.locals app
  mod_init ←
      module_of (Context.init core) (nonempty main.resources) (needs_lt struct)
        (nonempty main.schedule) (nonempty main.spawn) (nonempty fields) app
  done (record {
    constructor_of = struct;
    late = late_struct main.name fields;
    locals = own;
    module_ = mod_init;
    user = record { name = main.name; locals = own.names; inputs = []; ret = late_result fields };
  })

-- `call_init`, which the round of core 0 sets.
abbrev pub call_init_of : (old : Option Stmt) → List (ℕ × Main) → Option Stmt
call_init_of old [] = old
call_init_of old ((core, main) ∷ rest) =
    call_init_of (if core == 0 then some (call_init main.name) else old) rest

-- One round of the loop of idle.rs.
unfoldable pub idle_items : App → Analysis → ℕ × Main → Run Items
unfolding own_resources locals module_of
idle_items app analysis (core, main) = do
  struct ← own_resources (Context.idle core) 0 main.resources app analysis
  own ← locals (Context.idle core) main.locals app
  mod_idle ←
      module_of (Context.idle core) (nonempty main.resources) (needs_lt struct)
        (nonempty main.schedule) (nonempty main.spawn) false app
  done (record {
    constructor_of = struct;
    late = none;
    locals = own;
    module_ = mod_idle;
    user = record { name = main.name; locals = own.names; inputs = []; ret = never };
  })

-- `call_idle`, likewise.
abbrev pub call_idle_of : (old : Stmt) → List (ℕ × Main) → Stmt
call_idle_of old [] = old
call_idle_of old ((core, main) ∷ rest) =
    call_idle_of (if core == 0 then call_idle main.name else old) rest

-- One round of the loop of tasks.rs.
pub record TaskItems : Type 0 where
  pub buffers : List TaskItem
  pub items : Items

unfoldable pub task_items : App → Analysis → Ident × SoftwareTask → Run TaskItems
unfolding buffers own_resources locals module_of
task_items app analysis (name, task) = do
  const_app ← buffers app analysis (name, task)
  struct ← own_resources (Context.software_task name) task.priority task.resources app analysis
  mod_task ←
      module_of (Context.software_task name) (nonempty task.resources) (needs_lt struct)
        (nonempty task.schedule) (nonempty task.spawn) false app
  own ← locals (Context.software_task name) task.locals app
  done (record {
    buffers = const_app;
    items = record {
      constructor_of = struct;
      late = none;
      locals = own;
      module_ = mod_task;
      user = record { name = name; locals = own.names; inputs = task.inputs; ret = nothing };
    };
  })

-- The expansion, by its parts; `main` is their statements, in this order: those of `pre_init`,
-- `call_init`, those of `post_init`, `call_idle`. The assertions before them do nothing.
pub record Expansion : Type 0 where
  pub pre_init : Output
  pub childs : List (Ident × List Stmt)
  pub inits : List Items
  pub call_init : Option Stmt
  pub post_init : Output
  pub idles : List Items
  pub call_idle : Stmt
  pub resources : ResourceItems
  pub tasks : List TaskItems
  pub dispatchers : List DispatchItem
  pub spawn : List SpawnItem
  pub timer_queues : List TimerItem
  pub schedule : List ScheduleItem

unfoldable pub expansion : App → Analysis → Run Expansion
unfolding pre_init childs init_items post_init idle_items resources task_items dispatchers
    spawn_items timer_queue_items schedule_items
expansion app analysis = do
  before ← pre_init app analysis
  threads ← childs app analysis
  inits ← map_run (init_items app analysis) app.inits
  after ← post_init analysis
  idles ← map_run (idle_items app analysis) app.idles
  statics ← resources analysis
  tasks ← map_run (task_items app analysis) app.software_tasks
  handlers ← dispatchers app analysis
  spawns ← spawn_items app analysis
  queues ← timer_queue_items analysis
  schedules ← schedule_items app analysis
  done (record {
    pre_init = before;
    childs = threads;
    inits = inits;
    call_init = call_init_of none app.inits;
    post_init = after;
    idles = idles;
    call_idle = call_idle_of loop_pause app.idles;
    resources = statics;
    tasks = tasks;
    dispatchers = handlers;
    spawn = spawns;
    timer_queues = queues;
    schedule = schedules;
  })

abbrev pub statement : Option Stmt → List Stmt
statement none = []
statement (some s) = s ∷ []

-- The body of the emitted `main`.
unfoldable pub main_stmts : Expansion → List Stmt
main_stmts e =
    e.pre_init.stmts ++ (statement e.call_init ++ (e.post_init.stmts ++ e.call_idle ∷ []))
