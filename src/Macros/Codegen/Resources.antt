-- ===== src/Macros/Codegen/Resources.antt =====
-- macros/src/codegen/resources_struct.rs: the struct by which a task gets at its resources; and
-- `resources_ident` and `locals_ident` of util.rs.
pub mod WellFormed
pub mod Backing
pub mod Proxies
use linux_rtfm.Base.{
  ℕ, Bool, true, false, not, ◌&&◌, ◌||◌, Option, none, some, List, [], ◌∷◌, ◌++◌, if◌then◌else◌,
}
use linux_rtfm.Base.Run.{Run, done, panic, ◌>>=◌, unwrap, map_run, flat_map_run}
use linux_rtfm.Macros.Ident.{Ident, codes}
use linux_rtfm.Macros.Collect.{get, find}
use linux_rtfm.Macros.Syntax.{
  App, Context, Context.init, Context.idle, Context.hardware_task, Context.software_task, Resource,
  Ownership, Placed, Local,
}
use linux_rtfm.Macros.Analyze.{Analysis, range}
use linux_rtfm.Macros.Codegen.Code.{Mutex}

-- The name of the function that a context stands for.
unfoldable pub function_name : Context → App → Run Ident
unfolding get
function_name (Context.init core) app = do main ← unwrap (get core app.inits); done main.name
function_name (Context.idle core) app = do main ← unwrap (get core app.idles); done main.name
function_name (Context.hardware_task name) app = done name
function_name (Context.software_task name) app = done name

unfoldable pub locals_ident : Context → App → Run Ident
unfolding function_name
locals_ident ctxt app = do s ← function_name ctxt app; done (s ++ codes "Locals")

unfoldable pub resources_ident : Context → App → Run Ident
unfolding function_name
resources_ident ctxt app = do s ← function_name ctxt app; done (s ++ codes "Resources")

-- `'static` or `'a`
pub data Lifetime : Type 0 where
  static : Lifetime
  tick_a : Lifetime

-- `&lt mut ty`, the proxy `resources::name<'a>`, or `PhantomData<&'a ()>`.
pub data FieldType : Type 0 where
  reference : (lt : Lifetime) (is_mut : Bool) (ty : Ident) → FieldType
  proxy : (name : Ident) → FieldType
  phantom : FieldType

pub record Field : Type 0 where
  pub cfgs : List Ident
  pub name : Ident
  pub ty : FieldType

pub data Expr : Type 0 where
  -- `&name` or `&mut name`
  borrow : (is_mut : Bool) (name : Ident) → Expr
  -- `&mut *name.as_mut_ptr()` or `&*name.as_ptr()`
  deref : (is_mut : Bool) (name : Ident) → Expr
  -- `resources::name::new(priority)`
  new_proxy : (name : Ident) → Expr
  phantom_data : Expr

pub record Value : Type 0 where
  pub cfgs : List Ident
  pub name : Ident
  pub expr : Expr

abbrev pub marker : Ident
marker = codes "__marker__"

-- `struct ident<lt> { fields }` and `fn new(priority: …) -> Self { ident { values } }`, where the
-- lifetime and the argument are there or not.
pub record Struct : Type 0 where
  pub ident : Ident
  pub lt : Bool
  pub fields : List Field
  pub values : List Value
  pub priority : Bool

-- `__marker__`: the struct could end up empty due to `cfg`.
abbrev pub marker_fields : Bool → List Field
marker_fields true = record { cfgs = []; name = marker; ty = phantom } ∷ []
marker_fields false = []

abbrev pub marker_values : Bool → List Value
marker_values true = record { cfgs = []; name = marker; expr = phantom_data } ∷ []
marker_values false = []

abbrev pub is_some {ℓ} : {A : Type ℓ} → Option A → Bool
is_some none = false
is_some (some x) = true

abbrev pub nonempty {ℓ} : {A : Type ℓ} → List A → Bool
nonempty [] = false
nonempty (x ∷ xs) = true

-- The names of the resources in a context's arguments.
unfoldable pub resources_of : Context → App → Run (List Ident)
unfolding get find
resources_of (Context.init core) app = do main ← unwrap (get core app.inits); done main.resources
resources_of (Context.idle core) app = do main ← unwrap (get core app.idles); done main.resources
resources_of (Context.hardware_task name) app = unwrap (find name app.hardware_tasks)
resources_of (Context.software_task name) app = do
  task ← unwrap (find name app.software_tasks)
  done task.resources

-- What one round of the loop over the resources adds: the field, the value, and whether `lt` is set.
pub record Access : Type 0 where
  pub field : Field
  pub value : Value
  pub lt : Bool

-- `init` reaches a resource directly: for good if nobody else owns it.
unfoldable pub init_access : Ident → Resource → (owned : Bool) → Access
init_access name res false = record {
  field = record { cfgs = res.cfgs; name = name; ty = reference static res.is_mut res.ty };
  value = record { cfgs = res.cfgs; name = name; expr = borrow res.is_mut name };
  lt = false;
}
init_access name res true = record {
  field = record { cfgs = res.cfgs; name = name; ty = reference tick_a true res.ty };
  value = record { cfgs = res.cfgs; name = name; expr = borrow true name };
  lt = true;
}

-- The value of a field that is no proxy: a late resource is reached by its pointer.
unfoldable pub direct_value : Ident → Resource → Option Ident → Value
direct_value name res none = record { cfgs = res.cfgs; name = name; expr = deref res.is_mut name }
direct_value name res (some expr) = record {
  cfgs = res.cfgs;
  name = name;
  expr = borrow res.is_mut name;
}

abbrev pub lifetime : (runs_once : Bool) → Lifetime
lifetime true = static
lifetime false = tick_a

-- The other contexts: a proxy for what is mutable and needs a lock, a reference else.
unfoldable pub task_access :
    (name : Ident) → Resource → Option Ident → (needs_lock is_owned runs_once : Bool) → Access
unfolding direct_value
task_access name res expr true is_owned runs_once =
    if res.is_mut
    then record {
      field = record { cfgs = res.cfgs; name = name; ty = proxy name };
      value = record { cfgs = res.cfgs; name = name; expr = new_proxy name };
      lt = true;
    }
    else record {
      field = record { cfgs = res.cfgs; name = name; ty = reference tick_a false res.ty };
      value = direct_value name res expr;
      lt = true;
    }
task_access name res expr false is_owned runs_once = record {
  field = record {
    cfgs = res.cfgs;
    name = name;
    ty =
        if is_owned || not res.is_mut
        then reference (lifetime runs_once) res.is_mut res.ty
        else reference (lifetime runs_once) true res.ty;
  };
  value = direct_value name res expr;
  lt = not runs_once;
}

-- One round of the loop, for a resource and its owners.
unfoldable pub access_by :
    (is_init : Bool)
    → Ident
    → Resource × Option Ident
    → Option Ownership
    → (priority : ℕ) → (runs_once : Bool) → Run Access
unfolding init_access task_access
access_by true name (res, expr) owners priority runs_once =
    done (init_access name res (is_some owners))
access_by false name (res, expr) none priority runs_once = panic
access_by false name (res, expr) (some ownership) priority runs_once =
    done (task_access name res expr (ownership.needs_lock priority) ownership.is_owned runs_once)

unfoldable pub access : Context → (priority : ℕ) → App → Analysis → Ident → Run Access
unfolding find access_by
access context priority app analysis name = do
  resource ← unwrap (app.resource name)
  access_by (app.is_init context) name resource (find name analysis.ownerships) priority
      (app.runs_once context)

abbrev pub fields_of : List Access → List Field
fields_of [] = []
fields_of (x ∷ xs) = x.field ∷ fields_of xs

abbrev pub values_of : List Access → List Value
values_of [] = []
values_of (x ∷ xs) = x.value ∷ values_of xs

-- `lt.is_some()` and `has_cfgs` after the loop.
abbrev pub any_lt : List Access → Bool
any_lt [] = false
any_lt (x ∷ xs) = x.lt || any_lt xs

abbrev pub any_cfgs : List Access → Bool
any_cfgs [] = false
any_cfgs (x ∷ xs) = nonempty x.field.cfgs || any_cfgs xs

-- The struct with its constructor; its `lt` is also what `needs_lt` becomes.
unfoldable pub resources_struct : Context → (priority : ℕ) → App → Analysis → Run Struct
unfolding resources_of access resources_ident
resources_struct context priority app analysis = do
  resources ← resources_of context app
  accesses ← map_run (access context priority app analysis) resources
  ident ← resources_ident context app
  let marked = any_lt accesses && any_cfgs accesses
  done (record {
    ident = ident;
    lt = any_lt accesses;
    fields = fields_of accesses ++ marker_fields marked;
    values = values_of accesses ++ marker_values marked;
    priority = not (app.is_init context);
  })
