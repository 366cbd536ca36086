-- ===== src/Macros/Codegen/Boot.antt =====
-- macros/src/codegen/pre_init.rs, post_init.rs and childs.rs: the statements around `init`, on
-- core 0 and on the others.
pub mod Barriers
pub mod Marks
use linux_rtfm.Base.{
  ℕ, zero, suc, ◌<◌, ◌%◌, ◌^◌, Bool, true, false, Option, none, some, List, [], ◌∷◌, ◌++◌, map,
  flat_map, length, ltb, ◌==◌, if◌then◌else◌,
}
use linux_rtfm.Base.Run.{Run, done, panic, ◌>>=◌, unwrap, map_run, flat_map_run}
use linux_rtfm.Runtime.Signals.{Range}
use linux_rtfm.Macros.Ident.{
  Ident, fq_ident, timer_ident, rt_ident, tid_ident, child_ident, b_ident,
}
use linux_rtfm.Macros.Collect.{Map, get, find, elem, collect_set}
use linux_rtfm.Macros.Syntax.{Main, App, TimerQueue, SoftwareTask}
use linux_rtfm.Macros.Analyze.{Analysis, Signals, range}
use linux_rtfm.Macros.Codegen.Code.{
  Stmt, Static, Output, ThreadArg, no_thread, tgid_var, tid_var, static_pid, static_barrier,
  init_runtime, reset_index, fill_queue, init_tgid, init_timer, register, init_tid, wait_tid,
  spawn_child, set_affinity, call_init, write_late, release_barrier, wait_barrier, mask, call_idle,
  loop_pause,
}

abbrev pub keys {ℓ} : {V : Type ℓ} → Map V → List ℕ
keys [] = []
keys ((k, v) ∷ m) = k ∷ keys m

abbrev pub values {ℓ} : {K : Type 0} {V : Type ℓ} → List (K × V) → List V
values [] = []
values ((k, v) ∷ m) = v ∷ values m

-- `Iterator::max`
unfoldable pub maximum : List ℕ → Option ℕ
maximum [] = none
maximum (x ∷ xs) = elim (maximum xs) [ none ↦ some x | some y ↦ some (if ltb y x then x else y) ]

unfoldable pub concat_values : Map Signals → List ℕ
concat_values [] = []
concat_values ((core, s) ∷ m) = values s.map ++ concat_values m

-- `analysis.signals[&core].map[&priority]`
unfoldable pub signal_of : Analysis → (core priority : ℕ) → Run ℕ
unfolding get
signal_of analysis core priority = do
  signals ← unwrap (get core analysis.signals)
  unwrap (get priority signals.map)

unfoldable pub fill_queues : App → Ident × Map (Option ℕ) → Run (List Stmt)
unfolding find fq_ident
fill_queues app (name, senders) = do
  task ← unwrap (find name app.software_tasks)
  done
      (reset_index ∷ map (λ sender. fill_queue (fq_ident name sender) task.capacity) (keys senders))

-- The timer of core 0.
unfoldable pub timer_0 : App → Analysis → Run (List Stmt)
unfolding get signal_of timer_ident
timer_0 app analysis = elim (get 0 analysis.timer_queues) [
  | none ↦ done []
  | some tq ↦ do
    signo ← signal_of analysis 0 tq.priority
    done (init_timer (timer_ident 0) (if app.cores == 1 then no_thread else tgid_var) signo ∷ [])
]

unfoldable pub register_level : Analysis → (core : ℕ) → Signals → (priority : ℕ) → Run Stmt
unfolding get range rt_ident
register_level analysis core signals priority = do
  rt ← unwrap (get priority signals.map)
  done (register (range signals) priority (rt_ident rt))

-- The handlers of one receiver; that of the timer too where no dispatcher has its level.
unfoldable pub register_core : Analysis → ℕ × Map (Map (List Ident)) → Run (List Stmt)
unfolding get register_level elem
register_core analysis (core, dispatchers) = do
  signals ← unwrap (get core analysis.signals)
  stmts ← map_run (register_level analysis core signals) (keys dispatchers)
  own ← elim (get core analysis.timer_queues) [
    | none ↦ done []
    | some tq ↦
        if elem tq.priority (keys dispatchers)
        then done []
        else map_run (register_level analysis core signals) (tq.priority ∷ [])
  ]
  done (stmts ++ own)

-- The timer of another core.
unfoldable pub timer_of : Analysis → ℕ → Run (List Stmt)
unfolding get signal_of timer_ident
timer_of analysis core = elim (get core analysis.timer_queues) [
  | none ↦ done []
  | some tq ↦ do
    signo ← signal_of analysis core tq.priority
    done (init_timer (timer_ident core) tid_var signo ∷ [])
]

unfoldable pub start_thread : Analysis → ℕ → Run (List Stmt)
unfolding timer_of child_ident tid_ident
start_thread analysis core = if core == 0 then done [] else do
  timer ← timer_of analysis core
  done (
      spawn_child (child_ident core) ∷ timer
      ++ set_affinity core ∷ init_tid (tid_ident core) tid_var ∷ [])

unfoldable pub thread_statics : List ℕ → List Static
unfolding tid_ident
thread_statics [] = []
thread_statics (core ∷ cores) =
    let rest = thread_statics cores in
    if core == 0 then rest else static_pid (tid_ident core) ∷ rest

unfoldable pub tgid_name : Ident
tgid_name = 84 ∷ 71 ∷ 73 ∷ 68 ∷ []

unfoldable pub pre_init : App → Analysis → Run Output
unfolding maximum concat_values fill_queues timer_0 register_core start_thread thread_statics
    tgid_name
pre_init app analysis = do
  queues ← flat_map_run (fill_queues app) analysis.free_queues
  timer ← timer_0 app analysis
  handlers ← flat_map_run (register_core analysis) analysis.channels
  let many = ltb 1 app.cores
  threads ← flat_map_run (start_thread analysis) analysis.used_cores
  done (record {
    const_app =
        static_pid tgid_name ∷ (if many then static_pid (tid_ident 0) ∷ [] else [])
        ++ thread_statics analysis.used_cores;
    stmts =
        init_runtime (maximum (concat_values analysis.signals)) ∷ queues
        ++ init_tgid ∷ timer
        ++ handlers
        ++ (if many then init_tid (tid_ident 0) tgid_var ∷ [] else [])
        ++ threads;
  })

-- Late resources that a core initializes, and the barriers that it waits for.
abbrev pub list_of {ℓ} : {A : Type ℓ} → Option (List A) → List A
list_of none = []
list_of (some xs) = xs

unfoldable pub enable : Analysis → ℕ → Run Stmt
unfolding get range
enable analysis core = do
  signals ← unwrap (get core analysis.signals)
  done (mask (range signals) 0 (length signals.map % 2 ^ 8) false)

unfoldable pub all_senders : Analysis → List ℕ
unfolding collect_set
all_senders analysis =
    collect_set ltb (flat_map (λ senders. senders) (values analysis.initialization_barriers))

unfoldable pub post_init : Analysis → Run Output
unfolding get elem all_senders enable b_ident
post_init analysis = do
  unmask ← enable analysis 0
  done (record {
    const_app = map (λ sender. static_barrier (b_ident sender)) (all_senders analysis);
    stmts =
        map write_late (list_of (get 0 analysis.late_resources))
        ++ (if elem 0 (all_senders analysis) then release_barrier (b_ident 0) ∷ [] else [])
        ++ map (λ sender. wait_barrier (b_ident sender))
            (list_of (get 0 analysis.initialization_barriers))
        ++ unmask ∷ [];
  })

abbrev pub init_stmts : Option Main → List Stmt
init_stmts none = []
init_stmts (some init) = call_init init.name ∷ []

abbrev pub idle_stmt : Option Main → Stmt
idle_stmt none = loop_pause
idle_stmt (some idle) = call_idle idle.name

-- The body of a child's function.
unfoldable pub child_stmts : App → Analysis → ℕ → Run (List Stmt)
unfolding get enable tid_ident b_ident
child_stmts app analysis core = do
  unmask ← enable analysis core
  done (
      wait_tid (tid_ident core) ∷ init_stmts (get core app.inits)
      ++ map write_late (list_of (get core analysis.late_resources))
      ++ map (λ sender. wait_barrier (b_ident sender))
          (list_of (get core analysis.initialization_barriers))
      ++ unmask ∷ idle_stmt (get core app.idles) ∷ [])

unfoldable pub child : App → Analysis → ℕ → Run (List (Ident × List Stmt))
unfolding child_stmts child_ident
child app analysis core =
    if core == 0
    then done []
    else do stmts ← child_stmts app analysis core; done ((child_ident core, stmts) ∷ [])

unfoldable pub childs : App → Analysis → Run (List (Ident × List Stmt))
unfolding child
childs app analysis = flat_map_run (child app analysis) analysis.used_cores
