-- ===== src/Macros/Examples/Threads.antt =====
-- The threads of the application, run (macros/src/codegen.rs).
use mathlib.Core.List.{Memᴰ, flat_map, append_assoc, append-nil}
use mathlib.Core.List.Memᴰ
use linux_rtfm.Base.{ℕ, suc, ◌≡◌, refl, sym, subst, false, some, List, [], ◌∷◌, ◌++◌, collect}
use linux_rtfm.Base.Run.{done}
use linux_rtfm.Macros.Ident.{
  Ident, eq_ident, decimal, b_ident, tid_ident, child_ident, rt_ident, fq_ident, timer_ident,
}
use linux_rtfm.Macros.Collect
use linux_rtfm.Macros.Codegen.Groups
use linux_rtfm.Macros.Codegen.Boot
use linux_rtfm.Macros.Codegen.Spawn
use linux_rtfm.Macros.Codegen.Schedule
use linux_rtfm.Macros.Codegen.Dispatch
use linux_rtfm.Macros.Codegen.Tasks
use linux_rtfm.Macros.Codegen.Resources
use linux_rtfm.Macros.Codegen.Statics
use linux_rtfm.Macros.Codegen.Locals
use linux_rtfm.Macros.Codegen.Module
use linux_rtfm.Macros.Codegen.Functions
use linux_rtfm.Macros.Analyze
use linux_rtfm.Macros.Collect.{get, elem_ident}
use linux_rtfm.Macros.Codegen.Code.{
  Stmt, init_runtime, reset_index, fill_queue, init_tgid, init_timer, register, init_tid, wait_tid,
  spawn_child, set_affinity, call_init, write_late, release_barrier, wait_barrier, mask, loop_pause,
  tgid_var, tid_var,
}
use linux_rtfm.Macros.Codegen.Startup.{
  Thread, State, main_step, child_step, Reach, start, next, boot, fresh, history, program,
}
use linux_rtfm.Macros.Codegen.Startup.Ready.{blocking, returns-unblocked}
use linux_rtfm.Macros.Codegen.Startup.Order.{unmasked-late}
use linux_rtfm.Macros.Examples.{init_name, a_name, b_name, y_name, app, resource_of}
use linux_rtfm.Macros.Analyze.{range}
use linux_rtfm.Macros.Codegen.Boot.{child_stmts, enable, list_of}
use linux_rtfm.Macros.Codegen.Boot.Barriers.{senders_of, lates}
use linux_rtfm.Macros.Codegen.Functions.{statement}
use linux_rtfm.Macros.Analyze.{Analysis}
use linux_rtfm.Macros.Codegen.Functions.{Expansion, expansion}
use linux_rtfm.Macros.Examples.Code.{analysis}
use linux_rtfm.Macros.Examples.Whole.{code, generated}

abbrev main_program : List Stmt
main_program =
    init_runtime (some 2)
    ∷ reset_index
    ∷ fill_queue (fq_ident a_name 1) 2
    ∷ reset_index
    ∷ fill_queue (fq_ident b_name 0) 3
    ∷ init_tgid
    ∷ register (record { start = 0; end = 1 }) 1 (rt_ident 0)
    ∷ register (record { start = 1; end = 3 }) 2 (rt_ident 1)
    ∷ register (record { start = 1; end = 3 }) 1 (rt_ident 2)
    ∷ init_tid (tid_ident 0) tgid_var
    ∷ spawn_child (child_ident 1)
    ∷ init_timer (timer_ident 1) tid_var 2
    ∷ set_affinity 1
    ∷ init_tid (tid_ident 1) tid_var
    ∷ call_init init_name
    ∷ write_late y_name
    ∷ release_barrier (b_ident 0)
    ∷ mask (record { start = 0; end = 1 }) 0 1 false
    ∷ loop_pause
    ∷ []

abbrev child_program : List Stmt
child_program =
    wait_tid (tid_ident 1)
    ∷ wait_barrier (b_ident 0)
    ∷ mask (record { start = 1; end = 3 }) 0 2 false
    ∷ loop_pause
    ∷ []

abbrev first : State
first = record { main = fresh main_program; childs = (child_ident 1, fresh child_program) ∷ [] }

first_lem : boot code ≡ first
unfolding eq_ident resource_of Collect.insert Collect.collect_set Collect.get Collect.insert_map
    Collect.collect_map Collect.find Collect.elem Collect.elem_ident Groups.input_ident
    Groups.number_inputs Groups.regroup_inputs Groups.power_from Groups.typenum_capacity
    Boot.maximum Boot.concat_values Boot.signal_of Boot.fill_queues Boot.timer_0 Boot.register_level
    Boot.register_core Boot.timer_of Boot.start_thread Boot.thread_statics Boot.tgid_name
    Boot.pre_init Boot.enable Boot.all_senders Boot.post_init Boot.child_stmts Boot.child
    Boot.childs Spawn.thread_of Spawn.instants_of Spawn.dequeue_of Spawn.spawn_body
    Spawn.instant_source Spawn.add_spawn Spawn.spawn_method Spawn.spawn_methods Spawn.spawn_from
    Spawn.spawn_items Schedule.schedule_body Schedule.add_schedule Schedule.schedule_method
    Schedule.schedule_methods Schedule.schedule_from Schedule.schedule_items Dispatch.timer_arm
    Dispatch.timer_body Dispatch.timer_items Dispatch.timer_queue_items Dispatch.arm
    Dispatch.received Dispatch.channel_arms Dispatch.timer_at Dispatch.dispatcher
    Dispatch.separate_timer Dispatch.dispatch_core Dispatch.dispatchers Tasks.buffer_capacity
    Tasks.fq_items Tasks.free_queue Tasks.buffers Tasks.task_buffers Resources.function_name
    Resources.locals_ident Resources.resources_ident Resources.resources_of Resources.init_access
    Resources.direct_value Resources.task_access Resources.access_by Resources.access
    Resources.resources_struct Statics.static_of Statics.shared_ceiling Statics.mutex_items
    Statics.resource_items Statics.resources Locals.locals Module.add_scheduled Module.add_locals
    Module.add_resources Module.add_schedule Module.add_spawn Module.add_late_resources
    Module.module_of Functions.own_resources Functions.late_field Functions.late_fields
    Functions.init_items Functions.idle_items Functions.task_items Functions.expansion
    Functions.main_stmts Analyze.range Analyze.task_priorities Analyze.priorities Analyze.zip_from
    Analyze.core_signals Analyze.assign Analyze.app_analysis flat_map
first_lem = refl

abbrev at : List Stmt → List Stmt → List Stmt → List Stmt → State
at passed rest child_passed child_rest = record {
  main = record { passed = passed; rest = rest };
  childs = (child_ident 1, record { passed = child_passed; rest = child_rest }) ∷ [];
}

-- Core 0 runs all its statements, none of which blocks.
abbrev pub main_at : List Stmt → List Stmt → List (Ident × Thread) → State
main_at passed rest childs = record {
  main = record { passed = passed; rest = rest };
  childs = childs;
}

append-nil_right : (xs ys : List Ident) → xs ++ ys ≡ [] → ys ≡ []
append-nil_right [] ys e = e
append-nil_right (x ∷ xs) ys e = cc

pub run_main :
    {s₀ : State} {n : ℕ} (childs : List (Ident × Thread)) (passed rest : List Stmt)
    → collect blocking rest ≡ []
    → Reach s₀ n (main_at passed rest childs)
    → (m : ℕ) × Reach s₀ m (main_at (passed ++ rest) [] childs)
run_main {s₀} {n} childs passed [] free r =
    (n, subst (λ l. Reach s₀ n (main_at l [] childs)) (sym (append-nil passed)) r)
run_main {s₀} childs passed (stmt ∷ rest) free r =
    let now =
      returns-unblocked (history (main_at passed (stmt ∷ rest) childs)) stmt (stmt ∷ rest) free
        (Memᴰ.head refl) in
    let (m, last) =
      run_main childs (passed ++ stmt ∷ []) rest
        (append-nil_right (blocking stmt) (collect blocking rest) free)
        (next r (main_step (main_at passed (stmt ∷ rest) childs) stmt rest refl now)) in
    (m, subst (λ l. Reach s₀ m (main_at l [] childs)) (append_assoc passed (stmt ∷ []) rest) last)

abbrev started : (m : ℕ) × Reach first m (at main_program [] [] child_program)
started = run_main ((child_ident 1, fresh child_program) ∷ []) [] main_program refl start

-- The child has let its signals through.
abbrev unmasked_state : State
unmasked_state =
    at main_program []
      (wait_tid (tid_ident 1)
        ∷ wait_barrier (b_ident 0)
        ∷ mask (record { start = 1; end = 3 }) 0 2 false
        ∷ [])
      (loop_pause ∷ [])

reached_first : Reach first (suc (suc (suc started.0))) unmasked_state
unfolding elem_ident eq_ident child_ident b_ident tid_ident decimal
reached_first =
    next
      (next
        (next started.1 (
          child_step (at main_program [] [] child_program) [] [] (child_ident 1)
            (fresh child_program) (wait_tid (tid_ident 1)) _ refl refl refl refl))
        (child_step _ [] [] (child_ident 1) _ (wait_barrier (b_ident 0)) _ refl refl refl refl))
      (child_step _ [] [] (child_ident 1) _ (mask (record { start = 1; end = 3 }) 0 2 false) _ refl
        refl refl refl)

reached : Reach (boot code) (suc (suc (suc started.0))) unmasked_state
reached =
    subst (λ s. Reach s (suc (suc (suc started.0))) unmasked_state) (sym first_lem) reached_first

abbrev child_thread : Thread
child_thread = record {
  passed =
      wait_tid (tid_ident 1)
      ∷ wait_barrier (b_ident 0)
      ∷ mask (record { start = 1; end = 3 }) 0 2 false
      ∷ [];
  rest = loop_pause ∷ [];
}

child_lem : child_stmts app analysis 1 ≡ done (program child_thread)
unfolding child_stmts enable get range
child_lem = refl

late_lem : Memᴰ (write_late y_name) (statement code.call_init ++ lates analysis 0)
unfolding get Functions.expansion
late_lem = Memᴰ.append_right (statement code.call_init) (Memᴰ.head refl)

sender_lem : Memᴰ 0 (senders_of analysis 1)
unfolding get
sender_lem = Memᴰ.head refl

unmasked-late_example : Memᴰ (write_late y_name) main_program
unmasked-late_example =
    unmasked-late app analysis generated reached 1 (child_ident 1) child_thread
      (record { start = 1; end = 3 }) (Memᴰ.head refl) child_lem sender_lem (Memᴰ.head refl)
      (write_late y_name) late_lem
