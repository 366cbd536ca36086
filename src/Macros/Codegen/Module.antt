-- ===== src/Macros/Codegen/Module.antt =====
-- macros/src/codegen/module.rs: the module of a function, with its execution context.
pub mod Shape
pub mod Contexts
pub mod Calls
use linux_rtfm.Base.{
  ℕ, Bool, true, false, not, ◌&&◌, ◌||◌, Option, none, some, List, [], ◌∷◌, ◌++◌, if◌then◌else◌,
}
use linux_rtfm.Base.Run.{Run, done, panic, ◌>>=◌}
use linux_rtfm.Macros.Ident.{Ident, codes}
use linux_rtfm.Macros.Syntax.{
  App, Context, Context.init, Context.idle, Context.hardware_task, Context.software_task,
}
use linux_rtfm.Macros.Codegen.Resources.{locals_ident, resources_ident}

pub data ContextField : Type 0 where
  -- `scheduled: Instant`
  scheduled : ContextField
  -- `resources: Resources<lt>`, `schedule: Schedule<lt>`, `spawn: Spawn<lt>`
  resources : (lt : Bool) → ContextField
  schedule : (lt : Bool) → ContextField
  spawn : (lt : Bool) → ContextField

pub data ContextValue : Type 0 where
  -- `scheduled: instant`
  scheduled_instant : ContextValue
  -- `resources: Resources::new()`, with `priority` or without
  new_resources : (priority : Bool) → ContextValue
  -- `Schedule { _not_send: … }` or `Schedule { priority }`
  new_schedule : (priority : Bool) → ContextValue
  -- `Spawn { _not_send: … }`, or `Spawn { priority }`, with `instant` or without
  new_spawn : (priority instant : Bool) → ContextValue

pub data ModuleItem : Type 0 where
  -- `pub use super::ident as Locals;`, and the like
  use_locals : (ident : Ident) → ModuleItem
  use_resources : (ident : Ident) → ModuleItem
  use_late_resources : (ident : Ident) → ModuleItem
  -- The structs, with the fields `priority` and `instant` or without; with a lifetime, they have a
  -- method `priority`, and `instant` where the last argument says so.
  schedule_struct : (priority : Bool) → ModuleItem
  spawn_struct : (priority instant : Bool) → (instant_method : Bool) → ModuleItem

-- `pub mod name { items; struct Context<lt> { fields }
--   fn new(priority: …, instant: Instant) -> Self { Context { values } } }`
pub record Module : Type 0 where
  pub name : Ident
  pub items : List ModuleItem
  pub lt : Bool
  pub fields : List ContextField
  pub values : List ContextValue
  pub priority : Bool
  pub instant : Bool

-- What the function carries: its variables, `needs_instant` and `lt`.
pub record Parts : Type 0 where
  pub items : List ModuleItem
  pub fields : List ContextField
  pub values : List ContextValue
  pub needs_instant : Bool
  pub lt : Bool

abbrev pub no_parts : Parts
no_parts = record { items = []; fields = []; values = []; needs_instant = false; lt = false }

-- The first match: a software task's `scheduled`.
unfoldable pub add_scheduled : Context → App → Run Parts
add_scheduled (Context.init core) app = done no_parts
add_scheduled (Context.idle core) app = done no_parts
add_scheduled (Context.hardware_task name) app = panic
add_scheduled (Context.software_task name) app = done (
    if app.uses_schedule (app.core (Context.software_task name))
    then record no_parts {
      fields = scheduled ∷ [];
      values = scheduled_instant ∷ [];
      needs_instant = true;
    }
    else no_parts)

-- `use super::… as Locals`
unfoldable pub add_locals : (ident : Ident) → Parts → Parts
add_locals ident p = record p { items = p.items ++ use_locals ident ∷ [] }

unfoldable pub add_resources :
    (has needs_lt : Bool) (ident : Run Ident) (is_init : Bool) → Parts → Run Parts
add_resources false needs_lt ident is_init p = done p
add_resources true needs_lt ident is_init p = do
  ident ← ident
  done (record p {
    items = p.items ++ use_resources ident ∷ [];
    fields = p.fields ++ resources needs_lt ∷ [];
    values = p.values ++ new_resources (not is_init) ∷ [];
    lt = p.lt || needs_lt;
  })

unfoldable pub add_schedule : (has is_init : Bool) → Parts → Parts
add_schedule false is_init p = p
add_schedule true is_init p = record p {
  items = p.items ++ schedule_struct (not is_init) ∷ [];
  fields = p.fields ++ schedule (not is_init) ∷ [];
  values = p.values ++ new_schedule (not is_init) ∷ [];
  lt = p.lt || not is_init;
}

-- Neither `init` nor `idle` has an instant to give to what it spawns.
unfoldable pub add_spawn : (has is_init is_idle uses_schedule : Bool) → Parts → Parts
add_spawn false is_init is_idle uses_schedule p = p
add_spawn true true is_idle uses_schedule p = record p {
  items = p.items ++ spawn_struct false false false ∷ [];
  fields = p.fields ++ spawn false ∷ [];
  values = p.values ++ new_spawn false false ∷ [];
}
add_spawn true false true uses_schedule p = record p {
  items = p.items ++ spawn_struct true false false ∷ [];
  fields = p.fields ++ spawn true ∷ [];
  values = p.values ++ new_spawn true false ∷ [];
  lt = true;
}
add_spawn true false false uses_schedule p = record p {
  items = p.items ++ spawn_struct true uses_schedule uses_schedule ∷ [];
  fields = p.fields ++ spawn true ∷ [];
  values = p.values ++ new_spawn true (p.needs_instant || uses_schedule) ∷ [];
  needs_instant = p.needs_instant || uses_schedule;
  lt = true;
}

unfoldable pub add_late_resources : (has : Bool) → Parts → Parts
add_late_resources false p = p
add_late_resources true p = record p {
  items = p.items ++ use_late_resources (codes "initLateResources") ∷ [];
}

abbrev pub close : (name : Ident) (is_init : Bool) → Parts → Module
close name is_init p = record {
  name = name;
  items = p.items;
  lt = p.lt;
  fields = p.fields;
  values = p.values;
  priority = not is_init;
  instant = p.needs_instant;
}

unfoldable pub module_of :
    Context
    → (has_resources needs_lt has_schedule has_spawn late_resources : Bool) → App
    → Run Module
unfolding add_scheduled add_locals add_resources add_schedule add_spawn add_late_resources
    locals_ident resources_ident
module_of ctxt has_resources needs_lt has_schedule has_spawn late_resources app = do
  p ← add_scheduled ctxt app
  ident ← locals_ident ctxt app
  p ←
      add_resources has_resources needs_lt (resources_ident ctxt app) (app.is_init ctxt)
        (add_locals ident p)
  done (
      close (app.ident ctxt) (app.is_init ctxt) (
        add_late_resources late_resources (
          add_spawn has_spawn (app.is_init ctxt) (app.is_idle ctxt)
            (app.uses_schedule (app.core ctxt)) (add_schedule has_schedule (app.is_init ctxt) p))))
