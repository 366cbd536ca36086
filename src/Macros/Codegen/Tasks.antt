-- ===== src/Macros/Codegen/Tasks.antt =====
-- macros/src/codegen/tasks.rs: the buffers and the free queues of the software tasks.
pub mod Slots
use linux_rtfm.Base.{
  ℕ, ◌*◌, ◌%◌, ◌^◌, Bool, true, false, Option, none, some, List, [], ◌∷◌, ◌++◌, flat_map, length,
  if◌then◌else◌,
}
use linux_rtfm.Base.Run.{Run, done, ◌>>=◌, unwrap, flat_map_run}
use linux_rtfm.Macros.Ident.{Ident, inputs_ident, instants_ident, fq_ident}
use linux_rtfm.Macros.Collect.{Map, get, find}
use linux_rtfm.Macros.Syntax.{App, SoftwareTask}
use linux_rtfm.Macros.Analyze.{Analysis, range}
use linux_rtfm.Macros.Codegen.Code.{Mutex}
use linux_rtfm.Macros.Codegen.Groups.{Tuple, Regrouped, regroup_inputs, typenum_capacity}
use linux_rtfm.Macros.Codegen.Boot.{values}

pub data TaskItem : Type 0 where
  static_instants : (name : Ident) (cap : ℕ) → TaskItem
  static_inputs : (name : Ident) (ty : Tuple) (cap : ℕ) → TaskItem
  static_fq : (fq cap : Ident) → TaskItem
  fq_proxy : (fq : Ident) → TaskItem
  fq_mutex : Mutex → TaskItem

-- `task.args.capacity * free_queues.len() as u8`, without the overflow check of a debug build.
unfoldable pub buffer_capacity : SoftwareTask → Map (Option ℕ) → ℕ
buffer_capacity task free_queues = task.capacity * (length free_queues % 2 ^ 8) % 2 ^ 8

-- The proxy of a queue that is locked.
unfoldable pub fq_items : Analysis → SoftwareTask → (fq : Ident) → Option ℕ → Run (List TaskItem)
unfolding get range
fq_items analysis task fq none = done []
fq_items analysis task fq (some ceiling) = do
  signals ← unwrap (get task.core analysis.signals)
  done
      (fq_proxy fq ∷ fq_mutex (record { name = fq; ceiling = ceiling; range = range signals }) ∷ [])

unfoldable pub free_queue :
    Analysis → Ident → SoftwareTask → (cap_ty : Ident) → ℕ × Option ℕ → Run (List TaskItem)
unfolding fq_items fq_ident
free_queue analysis name task cap_ty (sender, ceiling) = do
  items ← fq_items analysis task (fq_ident name sender) ceiling
  done (static_fq (fq_ident name sender) cap_ty ∷ items)

-- The buffers of a task that is spawned or scheduled.
unfoldable pub buffers : App → Analysis → Ident × SoftwareTask → Run (List TaskItem)
unfolding find buffer_capacity free_queue typenum_capacity
buffers app analysis (name, task) = elim (find name analysis.free_queues) [
  | none ↦ done []
  | some free_queues ↦ do
    let cap = buffer_capacity task free_queues
    cap_ty ← typenum_capacity task.capacity true
    queues ← flat_map_run (free_queue analysis name task cap_ty) free_queues
    done (
        (if app.uses_schedule task.core then static_instants (instants_ident name) cap ∷ [] else [])
        ++ static_inputs (inputs_ident name) (regroup_inputs task.inputs).ty cap ∷ queues)
]

unfoldable pub task_buffers : App → Analysis → Run (List TaskItem)
unfolding buffers
task_buffers app analysis = flat_map_run (buffers app analysis) app.software_tasks
