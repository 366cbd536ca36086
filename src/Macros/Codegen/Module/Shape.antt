-- ===== src/Macros/Codegen/Module/Shape.antt =====
-- What the items, the fields and the values of macros/src/codegen/module.rs name, and when they fit.
use linux_rtfm.Base.{map, collect, ◌≡◌, Bool, true, false, ◌||◌, List, [], ◌∷◌, ◌++◌, arith}
use linux_rtfm.Macros.Codegen.Module.{
  ContextField, scheduled, resources, schedule, spawn, ContextValue, scheduled_instant,
  new_resources, new_schedule, new_spawn, ModuleItem, schedule_struct, spawn_struct, Module,
}

abbrev pub any {ℓ} : {A : Type ℓ} → (A → Bool) → List A → Bool
any test [] = false
any test (x ∷ xs) = test x || any test xs

pub any-snoc {ℓ} :
    {A : Type ℓ} (test : A → Bool) (xs : List A) (x : A)
    → any test (xs ++ x ∷ []) ≡ (any test xs || test x)
any-snoc test [] x = ground arith
any-snoc test (y ∷ ys) x = ground (arith, any-snoc test ys x)

-- Whether a field names the lifetime.
abbrev pub names_lt : ContextField → Bool
names_lt scheduled = false
names_lt (resources lt) = lt
names_lt (schedule lt) = lt
names_lt (spawn lt) = lt

-- The arguments that a value names.
abbrev pub names_priority : ContextValue → Bool
names_priority scheduled_instant = false
names_priority (new_resources p) = p
names_priority (new_schedule p) = p
names_priority (new_spawn p i) = p

abbrev pub names_instant : ContextValue → Bool
names_instant scheduled_instant = true
names_instant (new_resources p) = false
names_instant (new_schedule p) = false
names_instant (new_spawn p i) = i

-- The names of the fields, and of those that have values.
pub data FieldName : Type 0 where
  the_scheduled the_resources the_schedule the_spawn : FieldName

abbrev pub field_name : ContextField → FieldName
field_name scheduled = the_scheduled
field_name (resources lt) = the_resources
field_name (schedule lt) = the_schedule
field_name (spawn lt) = the_spawn

abbrev pub value_name : ContextValue → FieldName
value_name scheduled_instant = the_scheduled
value_name (new_resources p) = the_resources
value_name (new_schedule p) = the_schedule
value_name (new_spawn p i) = the_spawn

-- The structs of a module, and the literals for them, by the fields that they have: the first says
-- whether it is `Spawn`, the others whether there is `priority` and `instant`.
abbrev pub struct_of : ModuleItem → List (Bool × Bool × Bool)
struct_of (schedule_struct p) = (false, p, false) ∷ []
struct_of (spawn_struct p i method) = (true, p, i) ∷ []
struct_of item = []

abbrev pub literal_of : ContextValue → List (Bool × Bool × Bool)
literal_of (new_schedule p) = (false, p, false) ∷ []
literal_of (new_spawn p i) = (true, p, i) ∷ []
literal_of value = []

-- `struct Context` and `Context::new` go together: each field has its value, the lifetime is declared
-- exactly if a field names it, each argument that a value names is one of the constructor's, and each
-- literal of `Schedule` and `Spawn` has the fields of its struct.
pub record IsWellFormed (m : Module) : Type 0 where
  pub names : map field_name m.fields ≡ map value_name m.values
  pub lifetimes : any names_lt m.fields ≡ m.lt
  pub priority : any names_priority m.values ≡ true → m.priority ≡ true
  pub instant : any names_instant m.values ≡ true → m.instant ≡ true
  pub literals : collect struct_of m.items ≡ collect literal_of m.values
