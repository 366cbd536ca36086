-- ===== src/Macros/Codegen/Schedule.antt =====
-- macros/src/codegen/schedule_body.rs and schedule.rs: the functions that schedule a task.
pub mod Declared
pub mod Served
use linux_rtfm.Base.{Bool, not, List, [], ◌∷◌, ◌++◌, if◌then◌else◌}
use linux_rtfm.Base.Run.{Run, done, ◌>>=◌, unwrap}
use linux_rtfm.Macros.Ident.{
  Ident, inputs_ident, schedule_ident, fq_ident, tq_ident, schedule_t_ident,
}
use linux_rtfm.Macros.Collect.{get, find, elem_ident}
use linux_rtfm.Macros.Syntax.{App, Context, SoftwareTask}
use linux_rtfm.Macros.Analyze.{Analysis}
use linux_rtfm.Macros.Codegen.Code.{ScheduleBody}
use linux_rtfm.Macros.Codegen.Groups.{Regrouped, regroup_inputs}
use linux_rtfm.Macros.Codegen.Boot.{signal_of}
use linux_rtfm.Macros.Codegen.Spawn.{thread_of, instants_of, dequeue_of}

unfoldable pub schedule_body : Context → Ident → App → Analysis → Run ScheduleBody
unfolding find get signal_of
schedule_body ctxt name app analysis = do
  schedulee ← unwrap (find name app.software_tasks)
  timer_queue ← unwrap (get (app.core ctxt) analysis.timer_queues)
  signo ← signal_of analysis (app.core ctxt) timer_queue.priority
  done (record {
    dequeue = dequeue_of app ctxt (fq_ident name (app.core ctxt));
    instants_write = instants_of app schedulee.core name;
    inputs = inputs_ident name;
    t = schedule_t_ident (app.core ctxt);
    task = name;
    tq = tq_ident (app.core ctxt);
    tq_locked = not (app.is_init ctxt);
    tid = thread_of app (app.core ctxt);
    signo = signo;
  })

pub data ScheduleMethod : Type 0 where
  init_method : (name : Ident) → Regrouped → ScheduleBody → ScheduleMethod
  call_method : (name : Ident) → Regrouped → (schedule : Ident) → ScheduleMethod

pub data ScheduleItem : Type 0 where
  schedule_fn : (schedule : Ident) → Regrouped → ScheduleBody → ScheduleItem
  schedule_impl : (lt : Bool) (scheduler : Ident) → List ScheduleMethod → ScheduleItem

pub record Schedules : Type 0 where
  pub seen : List Ident
  pub items : List ScheduleItem
  pub methods : List ScheduleMethod

unfoldable pub add_schedule :
    App → Analysis → Context → Ident → SoftwareTask → Schedules → Run Schedules
unfolding elem_ident schedule_body
add_schedule app analysis scheduler name schedulee s = if elem_ident name s.seen then done s else do
  body ← schedule_body scheduler name app analysis
  done (record s {
    seen = name ∷ s.seen;
    items =
        s.items ++ schedule_fn (schedule_ident name) (regroup_inputs schedulee.inputs) body ∷ [];
  })

unfoldable pub schedule_method : App → Analysis → Context → Ident → Schedules → Run Schedules
unfolding find schedule_body add_schedule
schedule_method app analysis scheduler name s = do
  schedulee ← unwrap (find name app.software_tasks)
  if app.is_init scheduler
      then (do
        body ← schedule_body scheduler name app analysis
        done (record s {
          methods = s.methods ++ init_method name (regroup_inputs schedulee.inputs) body ∷ [];
        }))
      else (do
        s ← add_schedule app analysis scheduler name schedulee s
        done (record s {
          methods =
              s.methods
              ++ call_method name (regroup_inputs schedulee.inputs) (schedule_ident name) ∷ [];
        }))

unfoldable pub schedule_methods : App → Analysis → Context → List Ident → Schedules → Run Schedules
unfolding schedule_method
schedule_methods app analysis scheduler [] s = done s
schedule_methods app analysis scheduler (name ∷ names) s = do
  s ← schedule_method app analysis scheduler name s
  schedule_methods app analysis scheduler names s

-- A scheduler without tasks to schedule has no block.
unfoldable pub schedule_from :
    App
    → Analysis
    → List (Context × List Ident)
    → List Ident
    → List ScheduleItem
    → Run (List ScheduleItem)
unfolding schedule_methods
schedule_from app analysis [] seen items = done items
schedule_from app analysis ((scheduler, []) ∷ callers) seen items =
    schedule_from app analysis callers seen items
schedule_from app analysis ((scheduler, name ∷ names) ∷ callers) seen items = do
  s ←
      schedule_methods app analysis scheduler (name ∷ names)
        (record { seen = seen; items = items; methods = [] })
  schedule_from app analysis callers s.seen
      (s.items ++ schedule_impl (not (app.is_init scheduler)) (app.ident scheduler) s.methods ∷ [])

unfoldable pub schedule_items : App → Analysis → Run (List ScheduleItem)
unfolding schedule_from
schedule_items app analysis = schedule_from app analysis app.schedule_callers [] []
