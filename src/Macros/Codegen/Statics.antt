-- ===== src/Macros/Codegen/Statics.antt =====
-- macros/src/codegen/resources.rs: the statics of the resources, and the proxies that lock them.
use linux_rtfm.Base.{ℕ, Bool, not, Option, none, some, List, [], ◌∷◌, ◌++◌, if◌then◌else◌}
use linux_rtfm.Base.Run.{Run, done, ◌>>=◌, unwrap, map_run}
use linux_rtfm.Macros.Ident.{Ident}
use linux_rtfm.Macros.Collect.{get, find}
use linux_rtfm.Macros.Syntax.{Placed}
use linux_rtfm.Macros.Analyze.{Analysis, range}
use linux_rtfm.Macros.Codegen.Code.{Mutex}
use linux_rtfm.Macros.Codegen.Resources.{is_some}

pub data ResourceItem : Type 0 where
  -- `static mut name: ty = expr;`
  static_mut : (cfgs : List Ident) (name ty expr : Ident) → ResourceItem
  -- `static mut name: MaybeUninit<ty> = MaybeUninit::uninit();`
  static_late : (cfgs : List Ident) (name ty : Ident) → ResourceItem
  -- `impl Mutex for resources::name`, for `&mut name` or `name.as_mut_ptr()`
  impl_mutex : (cfgs : List Ident) (late : Bool) → Mutex → ResourceItem

-- The items of one resource, and the proxy in `mod resources`.
unfoldable pub static_of : Placed → ResourceItem
static_of p = elim p.expr [
  | none ↦ static_late p.res.cfgs p.name p.res.ty
  | some expr ↦ static_mut p.res.cfgs p.name p.res.ty expr
]

unfoldable pub shared_ceiling : Analysis → Ident → Option ℕ
unfolding find
shared_ceiling analysis name = elim (find name analysis.ownerships) [
  | none ↦ none
  | some ownership ↦ ownership.ceiling
]

pub record ResourceItems : Type 0 where
  pub const_app : List ResourceItem
  pub mod_resources : List Ident

unfoldable pub mutex_items : Analysis → Placed → (ceiling : ℕ) → Run ResourceItems
unfolding get range static_of
mutex_items analysis p ceiling = do
  core ← unwrap p.core
  signals ← unwrap (get core analysis.signals)
  done (record {
    const_app =
        static_of p
        ∷ impl_mutex p.res.cfgs (not (is_some p.expr))
            (record { name = p.name; ceiling = ceiling; range = range signals })
        ∷ [];
    mod_resources = p.name ∷ [];
  })

-- A proxy is generated for what is mutable and shared.
unfoldable pub resource_items : Analysis → Placed → Run ResourceItems
unfolding static_of shared_ceiling mutex_items
resource_items analysis p = elim (shared_ceiling analysis p.name) [
  | none ↦ done (record { const_app = static_of p ∷ []; mod_resources = [] })
  | some ceiling ↦
      if p.res.is_mut
      then mutex_items analysis p ceiling
      else done (record { const_app = static_of p ∷ []; mod_resources = [] })
]

abbrev pub join : List ResourceItems → ResourceItems
join [] = record { const_app = []; mod_resources = [] }
join (x ∷ xs) = record {
  const_app = x.const_app ++ (join xs).const_app;
  mod_resources = x.mod_resources ++ (join xs).mod_resources;
}

unfoldable pub resources : Analysis → Run ResourceItems
unfolding resource_items
resources analysis = do
  items ← map_run (resource_items analysis) analysis.resources
  done (join items)
