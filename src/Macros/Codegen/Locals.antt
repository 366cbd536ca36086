-- ===== src/Macros/Codegen/Locals.antt =====
-- macros/src/codegen/locals.rs: a task's own statics, and the struct by which it gets at them.
use linux_rtfm.Base.{Bool, true, false, not, ◌&&◌, ◌||◌, List, [], ◌∷◌, ◌++◌}
use linux_rtfm.Base.Run.{Run, done, ◌>>=◌}
use linux_rtfm.Macros.Ident.{Ident}
use linux_rtfm.Macros.Syntax.{App, Context, Local}
use linux_rtfm.Macros.Codegen.Resources.{
  locals_ident, Lifetime, Field, Value, Struct, marker_fields, marker_values, nonempty, lifetime,
  reference, borrow,
}

-- A task's own statics: each is a `static mut` inside `new`.
pub record Locals : Type 0 where
  pub struct : Struct
  pub items : List (Ident × Local)
  -- The names in the pattern `name::Locals { names, .. }: name::Locals`.
  pub names : List Ident

abbrev pub local_fields : Lifetime → List (Ident × Local) → List Field
local_fields lt [] = []
local_fields lt ((name, local) ∷ locals) =
    record { cfgs = local.cfgs; name = name; ty = reference lt true local.ty }
    ∷ local_fields lt locals

abbrev pub local_values : List (Ident × Local) → List Value
local_values [] = []
local_values ((name, local) ∷ locals) =
    record { cfgs = local.cfgs; name = name; expr = borrow true name } ∷ local_values locals

abbrev pub local_names : List (Ident × Local) → List Ident
local_names [] = []
local_names ((name, local) ∷ locals) = name ∷ local_names locals

abbrev pub local_cfgs : List (Ident × Local) → Bool
local_cfgs [] = false
local_cfgs ((name, local) ∷ locals) = nonempty local.cfgs || local_cfgs locals

unfoldable pub locals : Context → List (Ident × Local) → App → Run Locals
unfolding locals_ident
locals ctxt statics app = do
  ident ← locals_ident ctxt app
  let lt = not (app.runs_once ctxt) && nonempty statics
  let marked = lt && local_cfgs statics
  done (record {
    struct = record {
      ident = ident;
      lt = lt;
      fields = local_fields (lifetime (app.runs_once ctxt)) statics ++ marker_fields marked;
      values = local_values statics ++ marker_values marked;
      priority = false;
    };
    items = statics;
    names = local_names statics;
  })
