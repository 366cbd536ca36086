-- ===== src/Macros/Examples/Contexts.antt =====
-- The structs, the modules and the functions of the application's tasks (macros/src/codegen/).
use linux_rtfm.Macros.Collect.Names.{eq_ident-eq}
use mathlib.Core.List.{Memᴰ}
use linux_rtfm.Base.{
  ◌≡◌, ◌↔◌, refl, sym, ap, subst, Bool, true, false, Option, none, some, [], ◌∷◌, ◌++◌, All, ltb,
  if◌then◌else◌,
}
use linux_rtfm.Base.Run.{done}
use linux_rtfm.Macros.Ident.{Ident, codes, eq_ident, late_resources_ident}
use linux_rtfm.Macros.Collect.{get, find}
use linux_rtfm.Macros.Syntax.{Ownership, Placed, Resource, software_task}
use linux_rtfm.Macros.Analyze.{range}
use linux_rtfm.Macros.Codegen.Resources.{
  Struct, proxy, new_proxy, reference, static, tick_a, borrow, resources_struct, resources_of,
  access, access_by, init_access, task_access, resources_ident, locals_ident, function_name,
}
use linux_rtfm.Macros.Codegen.Statics.{
  ResourceItems, static_mut, static_late, impl_mutex, resources, resource_items, static_of,
  shared_ceiling, mutex_items,
}
use linux_rtfm.Macros.Codegen.Locals.{Locals, locals}
use linux_rtfm.Macros.Codegen.Resources.WellFormed.{IsComplete, resources_struct-IsComplete}
use linux_rtfm.Macros.Codegen.Resources.Proxies.{
  resources_struct-Backed, resources_struct-Generated,
}
use linux_rtfm.Macros.Codegen.Resources.Backing.{IsOwnership, Backed, Generated}
use linux_rtfm.Macros.Codegen.Module.{
  Module, resources as resources_field, new_resources, use_resources, use_late_resources, scheduled,
  spawn, schedule, scheduled_instant, new_spawn, new_schedule, use_locals, schedule_struct,
  spawn_struct, module_of, add_scheduled, add_locals, add_resources, add_schedule, add_spawn,
  add_late_resources,
}
use linux_rtfm.Macros.Codegen.Module.Contexts.{module_of-IsWellFormed}
use linux_rtfm.Macros.Codegen.Module.Shape.{IsWellFormed}
use linux_rtfm.Macros.Codegen.Module.Calls.{handed, IsContexts, module_of-handed}
use linux_rtfm.Macros.Codegen.Dispatch.{arm}
use linux_rtfm.Macros.Codegen.Spawn.{instants_of}
use linux_rtfm.Macros.Codegen.Functions.{
  Items, LateStruct, init_items, own_resources, late_fields, late_field, late,
}
use linux_rtfm.Macros.Codegen.Functions.Late.{aliases, init_items-late}
use linux_rtfm.Macros.Examples.{
  init_name, a_name, b_name, x_name, y_name, x, y, setup, app, owner, placed_x, placed_y,
  resource_of,
}
use linux_rtfm.Macros.Examples.Code.{analysis}

-- `a` reaches `x` by a proxy.
abbrev struct_a : Struct
struct_a = record {
  ident = a_name ++ codes "Resources";
  lt = true;
  fields = record { cfgs = []; name = x_name; ty = proxy x_name } ∷ [];
  values = record { cfgs = []; name = x_name; expr = new_proxy x_name } ∷ [];
  priority = true;
}

struct_a_lem : resources_struct (software_task a_name) 1 app analysis ≡ done struct_a
unfolding resources_struct resources_of access access_by task_access resources_ident function_name
    find eq_ident resource_of
struct_a_lem = refl

resources_struct-IsComplete_example : IsComplete struct_a
resources_struct-IsComplete_example =
    resources_struct-IsComplete (software_task a_name) 1 app analysis struct_a struct_a_lem

abbrev statics : ResourceItems
statics = record {
  const_app =
      static_mut [] x_name (117 ∷ []) (48 ∷ [])
      ∷ impl_mutex [] false
          (record { name = x_name; ceiling = 2; range = record { start = 0; end = 1 } })
      ∷ static_late [] y_name (117 ∷ [])
      ∷ [];
  mod_resources = x_name ∷ [];
}

statics_lem : resources analysis ≡ done statics
unfolding resources resource_items static_of shared_ceiling mutex_items get range find eq_ident
statics_lem = refl

owner-IsOwnership : IsOwnership owner
owner-IsOwnership = record {
  unshared = λ e p. cc;
  shared = λ c e p. let same : 2 ≡ c = cc in ap (ltb p) same;
}

lawful : (name : Ident) (o : Ownership) → find name analysis.ownerships ≡ some o → IsOwnership o
unfolding find
lawful name o h = go (eq_ident x_name name) h
  where
    go : (b : Bool) → (if b then some owner else none) ≡ some o → IsOwnership o
    go true e = let same : owner ≡ o = cc in subst IsOwnership same owner-IsOwnership
    go false e = cc

listed :
    (name : Ident) (r : Resource × Option Ident)
    → app.resource name ≡ some r
    → (p : Placed) × Memᴰ p analysis.resources × (p.name ≡ name) × (p.res ≡ r.0)
unfolding resource_of
listed name r h =
    go (eq_ident name x_name) (eq_ident name y_name) (eq_ident-eq name x_name)
      (eq_ident-eq name y_name) h
  where
    go :
        (b c : Bool)
        → (b ≡ true → name ≡ x_name)
        → (c ≡ true → name ≡ y_name)
        → (if b then some (x, some (48 ∷ [])) else if c then some (y, none) else none) ≡ some r
        → (p : Placed) × Memᴰ p analysis.resources × (p.name ≡ name) × (p.res ≡ r.0)
    go true c at_x at_y e = (
      placed_x,
      Memᴰ.head refl,
      sym (at_x refl),
      let same : (x, some (48 ∷ [])) ≡ r = cc in ap (λ (p : Resource × Option Ident). p.0) same,
    )
    go false true at_x at_y e = (
      placed_y,
      Memᴰ.tail (Memᴰ.head refl),
      sym (at_y refl),
      let same : (y, none) ≡ r = cc in ap (λ (p : Resource × Option Ident). p.0) same,
    )
    go false false at_x at_y e = cc

resources_struct-Backed_example : All (λ f. Backed analysis 1 f.name f.ty) struct_a.fields
resources_struct-Backed_example =
    resources_struct-Backed analysis lawful (software_task a_name) 1 app refl struct_a struct_a_lem

resources_struct-Generated_example :
    All (λ f. Generated analysis statics f.name f.ty) struct_a.fields
resources_struct-Generated_example =
    resources_struct-Generated analysis lawful (software_task a_name) 1 app refl listed statics
      statics_lem struct_a struct_a_lem

-- The module of `b`, which is scheduled, spawns and schedules.
abbrev module_b : Module
module_b = record {
  name = b_name;
  items =
      use_locals (b_name ++ codes "Locals")
      ∷ schedule_struct true
      ∷ spawn_struct true true true
      ∷ [];
  lt = true;
  fields = scheduled ∷ schedule true ∷ spawn true ∷ [];
  values = scheduled_instant ∷ new_schedule true ∷ new_spawn true true ∷ [];
  priority = true;
  instant = true;
}

module_b_lem : module_of (software_task b_name) false false true true false app ≡ done module_b
unfolding module_of add_scheduled add_locals add_resources add_schedule add_spawn add_late_resources
    locals_ident resources_ident function_name
module_b_lem = refl

module_of-IsWellFormed_example : IsWellFormed module_b
module_of-IsWellFormed_example =
    module_of-IsWellFormed (software_task b_name) false false true true false app module_b
      module_b_lem

app-IsContexts : IsContexts app
app-IsContexts = record {
  init_init = λ core. refl;
  init_idle = λ core. refl;
  init_task = λ name. refl;
  idle_idle = λ core. refl;
  idle_task = λ name. refl;
}

handed_lem : handed app 0 (software_task b_name) ≡ done (true, true)
unfolding handed arm find eq_ident instants_of
handed_lem = refl

module_of-handed_example : ◌≡◌ {A = Bool × Bool} (module_b.priority, module_b.instant) (true, true)
module_of-handed_example =
    module_of-handed (software_task b_name) false false true true false app 0 module_b (true, true)
      app-IsContexts module_b_lem handed_lem

-- What `init`, which is called otherwise here, adds.
abbrev struct_init : Struct
struct_init = record {
  ident = init_name ++ codes "Resources";
  lt = true;
  fields = record { cfgs = []; name = x_name; ty = reference tick_a true (117 ∷ []) } ∷ [];
  values = record { cfgs = []; name = x_name; expr = borrow true x_name } ∷ [];
  priority = false;
}

abbrev locals_init : Locals
locals_init = record {
  struct = record {
    ident = init_name ++ codes "Locals";
    lt = false;
    fields = record { cfgs = []; name = 122 ∷ []; ty = reference static true (117 ∷ []) } ∷ [];
    values = record { cfgs = []; name = 122 ∷ []; expr = borrow true (122 ∷ []) } ∷ [];
    priority = false;
  };
  items = setup.locals;
  names = (122 ∷ []) ∷ [];
}

abbrev late_struct_0 : LateStruct
late_struct_0 = record { ident = late_resources_ident init_name; fields = (y_name, 117 ∷ []) ∷ [] }

abbrev module_init : Module
module_init = record {
  name = init_name;
  items =
      use_locals (init_name ++ codes "Locals")
      ∷ use_resources (init_name ++ codes "Resources")
      ∷ spawn_struct false false false
      ∷ use_late_resources (codes "initLateResources")
      ∷ [];
  lt = true;
  fields = resources_field true ∷ spawn false ∷ [];
  values = new_resources false ∷ new_spawn false false ∷ [];
  priority = false;
  instant = false;
}

abbrev items_0 : Items
items_0 = record {
  constructor_of = some struct_init;
  late = some late_struct_0;
  locals = locals_init;
  module_ = module_init;
  user = record { name = init_name; locals = (122 ∷ []) ∷ []; inputs = []; ret = late };
}

items_0_lem : init_items app analysis (0, setup) ≡ done items_0
unfolding init_items own_resources resources_struct resources_of access access_by init_access
    resources_ident locals_ident function_name late_fields late_field late_resources_ident locals
    module_of add_scheduled add_locals add_resources add_schedule add_spawn add_late_resources find
    eq_ident get resource_of
items_0_lem = refl

init_items-late_example :
    (aliases module_init.items ≡ late_resources_ident init_name ∷ []) ↔ (init_name ≡ codes "init")
init_items-late_example =
    init_items-late app analysis 0 setup items_0 late_struct_0 items_0_lem refl
