-- ===== src/Macros/Codegen/Spawn.antt =====
-- macros/src/codegen/spawn_body.rs and spawn.rs: the functions that spawn a task.
pub mod Declared
pub mod Served
use linux_rtfm.Base.{ℕ, Bool, not, Option, none, some, List, [], ◌∷◌, ◌++◌, ◌==◌, if◌then◌else◌}
use linux_rtfm.Base.Run.{Run, done, ◌>>=◌, unwrap}
use linux_rtfm.Macros.Ident.{
  Ident, inputs_ident, instants_ident, spawn_ident, fq_ident, tid_ident, spawn_t_ident, task_ident,
}
use linux_rtfm.Macros.Collect.{find, elem_ident}
use linux_rtfm.Macros.Syntax.{App, Context, SoftwareTask}
use linux_rtfm.Macros.Analyze.{Analysis}
use linux_rtfm.Macros.Codegen.Code.{SpawnBody, Dequeue, direct, locked}
use linux_rtfm.Macros.Codegen.Groups.{Regrouped, regroup_inputs}
use linux_rtfm.Macros.Codegen.Boot.{signal_of}

-- `Some(tid.get())` of the receiver's thread where there are several cores.
unfoldable pub thread_of : App → ℕ → Option Ident
unfolding tid_ident
thread_of app receiver = if app.cores == 1 then none else some (tid_ident receiver)

-- The buffer of the instants, where the receiver keeps them.
unfoldable pub instants_of : App → ℕ → Ident → Option Ident
unfolding instants_ident
instants_of app receiver name =
    if app.uses_schedule receiver then some (instants_ident name) else none

unfoldable pub dequeue_of : App → Context → Ident → Dequeue
dequeue_of app context fq = if app.is_init context then direct fq else locked fq

unfoldable pub spawn_body : Context → Ident → App → Analysis → Run SpawnBody
unfolding find signal_of
spawn_body context name app analysis = do
  spawnee ← unwrap (find name app.software_tasks)
  signo ← signal_of analysis spawnee.core spawnee.priority
  done (record {
    dequeue = dequeue_of app context (fq_ident name (app.core context));
    inputs = inputs_ident name;
    write_instant = instants_of app spawnee.core name;
    enqueue = record {
      tid = thread_of app spawnee.core;
      signo = signo;
      t = spawn_t_ident spawnee.core spawnee.priority;
      variant = task_ident name (app.core context);
    };
  })

-- Where the instant that is passed on comes from: `Instant::now()` or `self.instant()`.
pub data InstantSource : Type 0 where
  from_now : InstantSource
  from_self : InstantSource

pub data SpawnMethod : Type 0 where
  -- A method of `init`: its own body, under `let instant = Instant::now();` or not.
  init_method : (name : Ident) → Regrouped → (let_instant : Bool) → SpawnBody → SpawnMethod
  -- A method that calls the shared function.
  call_method : (name : Ident) → Regrouped → Option InstantSource → (spawn : Ident) → SpawnMethod

pub data SpawnItem : Type 0 where
  spawn_fn : (spawn : Ident) (instant : Bool) → Regrouped → SpawnBody → SpawnItem
  -- With a lifetime or without.
  spawn_impl : (lt : Bool) (spawner : Ident) → List SpawnMethod → SpawnItem

-- What the loops carry: the names whose function exists, the items, and the methods of one spawner.
pub record Spawns : Type 0 where
  pub seen : List Ident
  pub items : List SpawnItem
  pub methods : List SpawnMethod

unfoldable pub instant_source : App → Context → ℕ → Option InstantSource
instant_source app spawner receiver =
    if app.uses_schedule receiver
    then some (if app.is_idle spawner then from_now else from_self)
    else none

-- The shared function, unless it exists.
unfoldable pub add_spawn : App → Analysis → Context → Ident → SoftwareTask → Spawns → Run Spawns
unfolding elem_ident spawn_body
add_spawn app analysis spawner name spawnee s = if elem_ident name s.seen then done s else do
  body ← spawn_body spawner name app analysis
  done (record s {
    seen = name ∷ s.seen;
    items =
        s.items
        ++ spawn_fn (spawn_ident name) (app.uses_schedule spawnee.core)
            (regroup_inputs spawnee.inputs) body
          ∷ [];
  })

unfoldable pub spawn_method : App → Analysis → Context → Ident → Spawns → Run Spawns
unfolding find spawn_body add_spawn
spawn_method app analysis spawner name s = do
  spawnee ← unwrap (find name app.software_tasks)
  if app.is_init spawner
      then (do
        body ← spawn_body spawner name app analysis
        done (record s {
          methods =
              s.methods
              ++ init_method name (regroup_inputs spawnee.inputs)
                  (app.uses_schedule (app.core spawner)) body
                ∷ [];
        }))
      else (do
        s ← add_spawn app analysis spawner name spawnee s
        done (record s {
          methods =
              s.methods
              ++ call_method name (regroup_inputs spawnee.inputs)
                  (instant_source app spawner spawnee.core) (spawn_ident name)
                ∷ [];
        }))

unfoldable pub spawn_methods : App → Analysis → Context → List Ident → Spawns → Run Spawns
unfolding spawn_method
spawn_methods app analysis spawner [] s = done s
spawn_methods app analysis spawner (name ∷ names) s = do
  s ← spawn_method app analysis spawner name s
  spawn_methods app analysis spawner names s

unfoldable pub spawn_from :
    App
    → Analysis
    → List (Context × List Ident)
    → List Ident
    → List SpawnItem
    → Run (List SpawnItem)
unfolding spawn_methods
spawn_from app analysis [] seen items = done items
spawn_from app analysis ((spawner, spawnees) ∷ callers) seen items = do
  s ←
      spawn_methods app analysis spawner spawnees
        (record { seen = seen; items = items; methods = [] })
  spawn_from app analysis callers s.seen
      (s.items ++ spawn_impl (not (app.is_init spawner)) (app.ident spawner) s.methods ∷ [])

unfoldable pub spawn_items : App → Analysis → Run (List SpawnItem)
unfolding spawn_from
spawn_items app analysis = spawn_from app analysis app.spawn_callers [] []
