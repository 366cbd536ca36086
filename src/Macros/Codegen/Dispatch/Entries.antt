-- ===== src/Macros/Codegen/Dispatch/Entries.antt =====
-- What macros/src/codegen/schedule_body.rs puts into a timer queue, the handler of timer_body.rs takes
-- out.
use mathlib.Core.List.{Memᴰ}
use linux_rtfm.Base.{◌≡◌, sym, ap, ◌∙◌, subst}
use linux_rtfm.Base.Rounds.{mem-of_map_run}
use linux_rtfm.Base.Run.{done, >>=-eq-done, done-inj, unwrap, map_run}
use linux_rtfm.Macros.Ident.{Ident}
use linux_rtfm.Macros.Collect.{get, find}
use linux_rtfm.Macros.Syntax.{App, Context, TimerQueue}
use linux_rtfm.Macros.Analyze.{Analysis}
use linux_rtfm.Macros.Codegen.Code.{ScheduleBody, TimerBody, TimerArm}
use linux_rtfm.Macros.Codegen.Boot.{signal_of}
use linux_rtfm.Macros.Codegen.Schedule.{schedule_body}
use linux_rtfm.Macros.Codegen.Dispatch.{timer_arm, timer_body}

module _ (app : App) (analysis : Analysis) (context : Context) (name : Ident) where
  timer_arm-task :
      {a : TimerArm} → timer_arm app analysis (app.core context) name ≡ done a → name ≡ a.task
  unfolding timer_arm
  timer_arm-task h =
      let (task, e, h1) = >>=-eq-done (unwrap (find name app.software_tasks)) _ h in
      let (signo, hs, h2) = >>=-eq-done (signal_of analysis task.core task.priority) _ h1 in
      ap (λ a. a.task) (done-inj h2)

  -- If a task is among those of a timer queue, and the timer handler of the scheduler's core for
  -- that queue and the body of the schedule are generated: the handler reads the enum and the
  -- timer queue that the schedule writes, and it has an arm for the task of the entry, which is
  -- the one that `timer_arm` gives.
  pub timer_body-schedule_body :
      (tq : TimerQueue) {handler : TimerBody} {entry : ScheduleBody}
      → Memᴰ name tq.tasks
      → timer_body (app.core context) tq app analysis ≡ done handler
      → schedule_body context name app analysis ≡ done entry
      → (handler.t ≡ entry.t)
        × (handler.tq ≡ entry.tq)
        × (a : TimerArm) × Memᴰ a handler.arms
        × (a.task ≡ entry.task)
        × (timer_arm app analysis (app.core context) name ≡ done a)
  unfolding timer_body schedule_body
  timer_body-schedule_body tq hm ht hs =
      let (arms, harms, e) =
        >>=-eq-done (map_run (timer_arm app analysis (app.core context)) tq.tasks) _ ht in
      let (a, ha, inside) =
        mem-of_map_run (timer_arm app analysis (app.core context)) tq.tasks harms hm in
      let (task, h1, s1) = >>=-eq-done (unwrap (find name app.software_tasks)) _ hs in
      let (own, h2, s2) =
        >>=-eq-done (unwrap (get (app.core context) analysis.timer_queues)) _ s1 in
      let (signo, h3, s3) = >>=-eq-done (signal_of analysis (app.core context) own.priority) _ s2 in
      let eh = done-inj e in
      let es = done-inj s3 in
      (
        sym (ap (λ h. h.t) eh) ∙ ap (λ s. s.t) es,
        sym (ap (λ h. h.tq) eh) ∙ ap (λ s. s.tq) es,
        a,
        subst (λ h. Memᴰ a h.arms) eh inside,
        sym (timer_arm-task ha) ∙ ap (λ s. s.task) es,
        ha,
      )
