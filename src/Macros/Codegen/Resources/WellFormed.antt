-- ===== src/Macros/Codegen/Resources/WellFormed.antt =====
-- The structs of macros/src/codegen/resources_struct.rs and locals.rs are complete: the constructor
-- gives each field its value, and the lifetime is declared exactly where a field uses it.
use linux_rtfm.Base.{
  ℕ, ◌≡◌, refl, sym, ap, ◌∙◌, subst, Bool, true, false, not, ◌&&◌, ◌||◌, Option, none, some, List,
  [], ◌∷◌, ◌++◌, All, arith,
}
use linux_rtfm.Base.Rounds.{All-map_run}
use linux_rtfm.Base.Run.{done, >>=-eq-done, done-inj, unwrap, map_run}
use linux_rtfm.Macros.Ident.{Ident}
use linux_rtfm.Macros.Syntax.{App, Context, Resource, Ownership, Local}
use linux_rtfm.Macros.Analyze.{Analysis}
use linux_rtfm.Macros.Codegen.Resources.{
  Lifetime, static, tick_a, FieldType, reference, proxy, phantom, Field, Expr, new_proxy, Value,
  Struct, Access, access, access_by, init_access, task_access, direct_value, fields_of, values_of,
  any_lt, any_cfgs, marker_fields, marker_values, resources_struct, resources_of, resources_ident,
  lifetime, nonempty, locals_ident,
}
use linux_rtfm.Macros.Codegen.Locals.{locals, Locals, local_fields, local_values, local_cfgs}

-- Whether a field's type names the lifetime `'a`.
abbrev pub mentions_a : FieldType → Bool
mentions_a (reference static is_mut ty) = false
mentions_a (reference tick_a is_mut ty) = true
mentions_a (proxy name) = true
mentions_a phantom = true

abbrev pub uses_a : List Field → Bool
uses_a [] = false
uses_a (f ∷ fs) = mentions_a f.ty || uses_a fs

-- Whether a value names the argument `priority`.
abbrev pub mentions_priority : Expr → Bool
mentions_priority (new_proxy name) = true
mentions_priority e = false

abbrev pub uses_priority : List Value → Bool
uses_priority [] = false
uses_priority (v ∷ vs) = mentions_priority v.expr || uses_priority vs

abbrev pub field_keys : List Field → List (List Ident × Ident)
field_keys [] = []
field_keys (f ∷ fs) = (f.cfgs, f.name) ∷ field_keys fs

abbrev pub value_keys : List Value → List (List Ident × Ident)
value_keys [] = []
value_keys (v ∷ vs) = (v.cfgs, v.name) ∷ value_keys vs

-- The constructor gives each field its value, under the same attributes; the lifetime is a parameter
-- exactly if a field names it; and no value names an argument that there is not.
pub record IsComplete (s : Struct) : Type 0 where
  pub keys : field_keys s.fields ≡ value_keys s.values
  pub lifetimes : uses_a s.fields ≡ s.lt
  pub arguments : uses_priority s.values ≡ true → s.priority ≡ true

-- The same of one field.
pub record IsMatched (is_init : Bool) (x : Access) : Type 0 where
  pub cfgs : x.field.cfgs ≡ x.value.cfgs
  pub name : x.field.name ≡ x.value.name
  pub lifetime : mentions_a x.field.ty ≡ x.lt
  pub argument : mentions_priority x.value.expr ≡ true → not is_init ≡ true

init_access-IsMatched :
    (name : Ident) (res : Resource) (owned : Bool) → IsMatched true (init_access name res owned)
unfolding init_access
init_access-IsMatched name res true = ground arith
init_access-IsMatched name res false = ground arith

task_access-IsMatched :
    (name : Ident) (res : Resource) (expr : Option Ident) (needs_lock is_owned runs_once : Bool)
    → IsMatched false (task_access name res expr needs_lock is_owned runs_once)
unfolding task_access direct_value
task_access-IsMatched name res expr true is_owned runs_once = ground arith
task_access-IsMatched name res expr false is_owned runs_once = ground arith

access_by-IsMatched :
    (is_init : Bool) (name : Ident) (r : Resource × Option Ident) (owners : Option Ownership)
    (priority : ℕ) (runs_once : Bool) (x : Access)
    → access_by is_init name r owners priority runs_once ≡ done x
    → IsMatched is_init x
unfolding access_by
access_by-IsMatched true name (res, expr) owners priority runs_once x h =
    subst (IsMatched true) (done-inj h) (init_access-IsMatched name res _)
access_by-IsMatched false name (res, expr) none priority runs_once x h = cc
access_by-IsMatched false name (res, expr) (some o) priority runs_once x h =
    subst (IsMatched false) (done-inj h) (task_access-IsMatched name res expr _ _ _)

access-IsMatched :
    (context : Context) (priority : ℕ) (app : App) (analysis : Analysis) (name : Ident) (x : Access)
    → access context priority app analysis name ≡ done x
    → IsMatched (app.is_init context) x
unfolding access
access-IsMatched context priority app analysis name x h =
    let (r, hr, h1) = >>=-eq-done (unwrap (app.resource name)) _ h in
    access_by-IsMatched (app.is_init context) name r _ _ _ x h1

module _ (is_init : Bool) where
  keys_lem :
      (xs : List Access)
      → All (IsMatched is_init) xs
      → field_keys (fields_of xs) ≡ value_keys (values_of xs)
  keys_lem [] h = refl
  keys_lem (x ∷ xs) h = ground (arith, keys_lem xs h.1)

  lifetimes_lem :
      (xs : List Access) → All (IsMatched is_init) xs → uses_a (fields_of xs) ≡ any_lt xs
  lifetimes_lem [] h = refl
  lifetimes_lem (x ∷ xs) h = ground (arith, lifetimes_lem xs h.1)

  arguments_lem :
      (xs : List Access)
      → All (IsMatched is_init) xs
      → uses_priority (values_of xs) ≡ true
      → not is_init ≡ true
  arguments_lem [] h e = cc
  arguments_lem (x ∷ xs) h e = ground (arith, arguments_lem xs h.1)

field_keys-append : (fs gs : List Field) → field_keys (fs ++ gs) ≡ field_keys fs ++ field_keys gs
field_keys-append [] gs = refl
field_keys-append (f ∷ fs) gs = ap (λ l. (f.cfgs, f.name) ∷ l) (field_keys-append fs gs)

value_keys-append : (vs ws : List Value) → value_keys (vs ++ ws) ≡ value_keys vs ++ value_keys ws
value_keys-append [] ws = refl
value_keys-append (v ∷ vs) ws = ap (λ l. (v.cfgs, v.name) ∷ l) (value_keys-append vs ws)

-- The marker keeps the two lists alike.
marked_keys :
    (fs : List Field) (vs : List Value) (m : Bool)
    → field_keys fs ≡ value_keys vs
    → field_keys (fs ++ marker_fields m) ≡ value_keys (vs ++ marker_values m)
marked_keys fs vs true e =
    rw (field_keys-append, value_keys-append) (ap (λ l. l ++ field_keys (marker_fields true)) e)
marked_keys fs vs false e = rw (field_keys-append, value_keys-append) (ap (λ l. l ++ []) e)

uses_a-marker : (fs : List Field) (m : Bool) → uses_a (fs ++ marker_fields m) ≡ (uses_a fs || m)
uses_a-marker [] true = refl
uses_a-marker [] false = refl
uses_a-marker (f ∷ fs) m = ground (arith, uses_a-marker fs m)

uses_priority-marker :
    (vs : List Value) (m : Bool) → uses_priority (vs ++ marker_values m) ≡ uses_priority vs
uses_priority-marker [] true = refl
uses_priority-marker [] false = refl
uses_priority-marker (v ∷ vs) m = ground (arith, uses_priority-marker vs m)

-- A marker under a condition that implies the lifetime changes nothing.
absorb : (b c : Bool) → (b || (b && c)) ≡ b
absorb true c = refl
absorb false c = refl

-- Where the struct of a context's resources is generated: its fields are, in order and with their
-- conditions, those that the constructor gives values to; the lifetime is declared exactly if a
-- field uses it; and the constructor has the argument `priority` if a value uses it.
pub resources_struct-IsComplete :
    (context : Context) (priority : ℕ) (app : App) (analysis : Analysis) (s : Struct)
    → resources_struct context priority app analysis ≡ done s
    → IsComplete s
unfolding resources_struct
resources_struct-IsComplete context priority app analysis s h =
    let (names, hn, h1) = >>=-eq-done (resources_of context app) _ h in
    let (xs, hx, h2) = >>=-eq-done (map_run (access context priority app analysis) names) _ h1 in
    let (ident, hi, h3) = >>=-eq-done (resources_ident context app) _ h2 in
    let all =
      All-map_run (access context priority app analysis) (IsMatched (app.is_init context)) names hx
        (access-IsMatched context priority app analysis) in
    subst IsComplete (done-inj h3) (record {
      keys = marked_keys (fields_of xs) (values_of xs) _ (keys_lem (app.is_init context) xs all);
      lifetimes =
          uses_a-marker (fields_of xs) _
          ∙ ap (λ b. b || (any_lt xs && any_cfgs xs)) (lifetimes_lem (app.is_init context) xs all)
          ∙ absorb (any_lt xs) (any_cfgs xs);
      arguments = λ e.
          arguments_lem (app.is_init context) xs all
            (sym (uses_priority-marker (values_of xs) _) ∙ e);
    })

local_keys :
    (lt : Lifetime) (ls : List (Ident × Local))
    → field_keys (local_fields lt ls) ≡ value_keys (local_values ls)
local_keys lt [] = refl
local_keys lt ((name, local) ∷ ls) = ap (λ l. (local.cfgs, name) ∷ l) (local_keys lt ls)

local_lifetimes :
    (runs_once : Bool) (ls : List (Ident × Local))
    → uses_a (local_fields (lifetime runs_once) ls) ≡ (not runs_once && nonempty ls)
local_lifetimes true [] = refl
local_lifetimes false [] = refl
local_lifetimes true (l ∷ ls) = local_lifetimes true ls
local_lifetimes false (l ∷ ls) = refl

local_arguments : (ls : List (Ident × Local)) → uses_priority (local_values ls) ≡ false
local_arguments [] = refl
local_arguments (l ∷ ls) = local_arguments ls

absurd_arguments :
    (ls : List (Ident × Local)) (m : Bool)
    → uses_priority (local_values ls ++ marker_values m) ≡ true
    → false ≡ true
absurd_arguments ls m e = sym (uses_priority-marker (local_values ls) m ∙ local_arguments ls) ∙ e

-- The struct of a function's own statics, where it is generated, is complete.
locals-IsComplete :
    (ctxt : Context) (statics : List (Ident × Local)) (app : App) (l : Locals)
    → locals ctxt statics app ≡ done l
    → IsComplete l.struct
unfolding locals
locals-IsComplete ctxt statics app l h =
    let (ident, hi, h1) = >>=-eq-done (locals_ident ctxt app) _ h in
    let once = app.runs_once ctxt in
    subst (λ l. IsComplete l.struct) (done-inj h1)
      (record {
        keys =
            marked_keys (local_fields (lifetime once) statics) (local_values statics) _
              (local_keys (lifetime once) statics);
        lifetimes =
            uses_a-marker (local_fields (lifetime once) statics) _
            ∙ ap (λ b. b || (not once && nonempty statics && local_cfgs statics))
                (local_lifetimes once statics)
            ∙ absorb (not once && nonempty statics) (local_cfgs statics);
        arguments = λ e. absurd_arguments statics _ e;
      })
