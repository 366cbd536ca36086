-- ===== src/Macros/Codegen/Functions/Late.antt =====
-- The struct of the late resources, of macros/src/codegen/init.rs, and the alias of it that
-- macros/src/codegen/module.rs declares.
use mathlib.Core.List.{append-nil, append_cancel_right}
use linux_rtfm.Base.{
  ℕ, ◌≡◌, ◌↔◌, refl, sym, ap, ◌∙◌, Bool, true, false, some, List, [], ◌∷◌, ◌++◌, if◌then◌else◌,
}
use linux_rtfm.Base.Run.{Run, done, >>=-eq-done, done-inj}
use linux_rtfm.Macros.Ident.{Ident, codes, late_resources_ident}
use linux_rtfm.Macros.Collect.{get}
use linux_rtfm.Macros.Syntax.{App, Context, Main}
use linux_rtfm.Macros.Analyze.{Analysis}
use linux_rtfm.Macros.Codegen.Resources.{locals_ident, resources_ident, nonempty}
use linux_rtfm.Macros.Codegen.Locals.{locals}
use linux_rtfm.Macros.Codegen.Module.{
  scheduled, scheduled_instant, no_parts, ModuleItem, use_late_resources, Module, Parts,
  add_scheduled, add_locals, add_resources, add_schedule, add_spawn, add_late_resources, module_of,
}
use linux_rtfm.Base.{collect, collect-snoc}
use linux_rtfm.Macros.Codegen.Functions.{
  LateStruct, Items, late_fields, late_struct, needs_lt, own_resources, init_items,
}

-- The names that `LateResources` is an alias of.
abbrev pub alias_of : ModuleItem → List Ident
alias_of (use_late_resources ident) = ident ∷ []
alias_of item = []

abbrev pub aliases : List ModuleItem → List Ident
aliases items = collect alias_of items

aliases_if :
    (u : Bool)
    → aliases
        (if u
          then record no_parts {
            fields = scheduled ∷ [];
            values = scheduled_instant ∷ [];
            needs_instant = true;
          }
          else no_parts).items
      ≡ []
aliases_if true = refl
aliases_if false = refl

add_scheduled-aliases :
    (ctxt : Context) (app : App) (p : Parts)
    → add_scheduled ctxt app ≡ done p
    → aliases p.items ≡ []
unfolding add_scheduled
add_scheduled-aliases (Context.init core) app p h =
    ap (λ (p : Parts). aliases p.items) (sym (done-inj h))
add_scheduled-aliases (Context.idle core) app p h =
    ap (λ (p : Parts). aliases p.items) (sym (done-inj h))
add_scheduled-aliases (Context.hardware_task name) app p h = cc
add_scheduled-aliases (Context.software_task name) app p h =
    ap (λ (p : Parts). aliases p.items) (sym (done-inj h))
    ∙ aliases_if (app.uses_schedule (app.core (Context.software_task name)))

add_locals-aliases :
    (ident : Ident) (p : Parts) → aliases (add_locals ident p).items ≡ aliases p.items
unfolding add_locals
add_locals-aliases ident p = collect-snoc alias_of p.items _ ∙ append-nil (aliases p.items)

add_resources-aliases :
    (has lt : Bool) (ident : Run Ident) (i : Bool) (p q : Parts)
    → add_resources has lt ident i p ≡ done q
    → aliases q.items ≡ aliases p.items
unfolding add_resources
add_resources-aliases false lt ident i p q h =
    ap (λ (p : Parts). aliases p.items) (sym (done-inj h))
add_resources-aliases true lt ident i p q h =
    let (name, hn, h1) = >>=-eq-done ident _ h in
    ap (λ (p : Parts). aliases p.items) (sym (done-inj h1))
    ∙ collect-snoc alias_of p.items _
    ∙ append-nil (aliases p.items)

add_schedule-aliases :
    (has i : Bool) (p : Parts) → aliases (add_schedule has i p).items ≡ aliases p.items
unfolding add_schedule
add_schedule-aliases false i p = refl
add_schedule-aliases true i p = collect-snoc alias_of p.items _ ∙ append-nil (aliases p.items)

add_spawn-aliases :
    (has i d u : Bool) (p : Parts) → aliases (add_spawn has i d u p).items ≡ aliases p.items
unfolding add_spawn
add_spawn-aliases false i d u p = refl
add_spawn-aliases true true d u p = collect-snoc alias_of p.items _ ∙ append-nil (aliases p.items)
add_spawn-aliases true false true u p =
    collect-snoc alias_of p.items _ ∙ append-nil (aliases p.items)
add_spawn-aliases true false false u p =
    collect-snoc alias_of p.items _ ∙ append-nil (aliases p.items)

add_late_resources-aliases :
    (p : Parts)
    → aliases (add_late_resources true p).items ≡ aliases p.items ++ codes "initLateResources" ∷ []
unfolding add_late_resources
add_late_resources-aliases p = collect-snoc alias_of p.items _

module_of-aliases :
    (ctxt : Context) (r l s w : Bool) (app : App) (m : Module)
    → module_of ctxt r l s w true app ≡ done m
    → aliases m.items ≡ codes "initLateResources" ∷ []
unfolding module_of add_locals
module_of-aliases ctxt r l s w app m h =
    let i = app.is_init ctxt in
    let (p, hp, h1) = >>=-eq-done (add_scheduled ctxt app) _ h in
    let (ident, hi, h2) = >>=-eq-done (locals_ident ctxt app) _ h1 in
    let (q, hq, h3) =
      >>=-eq-done (add_resources r l (resources_ident ctxt app) i (add_locals ident p)) _ h2 in
    let u = add_schedule s i q in
    let v = add_spawn w i (app.is_idle ctxt) (app.uses_schedule (app.core ctxt)) u in
    ap (λ (m : Module). aliases m.items) (sym (done-inj h3))
    ∙ add_late_resources-aliases v
    ∙ ap (λ l. l ++ codes "initLateResources" ∷ [])
        (add_spawn-aliases w i (app.is_idle ctxt) _ u
          ∙ add_schedule-aliases s i q
          ∙ add_resources-aliases r l (resources_ident ctxt app) i (add_locals ident p) q hq
          ∙ add_locals-aliases ident p
          ∙ add_scheduled-aliases ctxt app p hp)

late_struct-ident :
    (name : Ident) (fields : List (Ident × Ident)) (ls : LateStruct)
    → late_struct name fields ≡ some ls
    → (nonempty fields ≡ true) × (ls.ident ≡ late_resources_ident name)
late_struct-ident name [] ls h = cc
late_struct-ident name (f ∷ fs) ls h = (refl, cc)

names_iff :
    (name : Ident)
    → (codes "initLateResources" ∷ [] ≡ late_resources_ident name ∷ []) ↔ (name ≡ codes "init")
unfolding late_resources_ident
names_iff name = (
  λ e.
      append_cancel_right name (codes "init") (codes "LateResources")
        (let f : codes "initLateResources" ≡ late_resources_ident name = cc in sym f),
  λ e. ap (λ n. late_resources_ident n ∷ []) (sym e),
)

iff_of :
    (l : List Ident) (ident name : Ident)
    → l ≡ codes "initLateResources" ∷ []
    → ident ≡ late_resources_ident name
    → (l ≡ ident ∷ []) ↔ (name ≡ codes "init")
iff_of l ident name e f = rw (e, f) (names_iff name)

-- If a round of the loop over the `init` functions is generated, with a struct of late resources:
-- `LateResources` in the function's module is an alias of just that struct exactly if the
-- function is called `init`.
pub init_items-late :
    (app : App) (analysis : Analysis) (core : ℕ) (main : Main) (it : Items) (ls : LateStruct)
    → init_items app analysis (core, main) ≡ done it
    → it.late ≡ some ls
    → (aliases it.module_.items ≡ ls.ident ∷ []) ↔ (main.name ≡ codes "init")
unfolding init_items
init_items-late app analysis core main it ls h hl =
    let (struct, hs, h1) =
      >>=-eq-done (own_resources (Context.init core) 0 main.resources app analysis) _ h in
    let (fields, hf, h2) = >>=-eq-done (late_fields app (get core analysis.late_resources)) _ h1 in
    let (own, ho, h3) = >>=-eq-done (locals (Context.init core) main.locals app) _ h2 in
    let (m, hm, h4) =
      >>=-eq-done
        (module_of (Context.init core) (nonempty main.resources) (needs_lt struct)
          (nonempty main.schedule) (nonempty main.spawn) (nonempty fields) app)
        _ h3 in
    let (some_fields, name) =
      late_struct-ident main.name fields ls (ap (λ (i : Items). i.late) (done-inj h4) ∙ hl) in
    let named =
      module_of-aliases (Context.init core) (nonempty main.resources) (needs_lt struct)
        (nonempty main.schedule) (nonempty main.spawn) app m
        (ap
            (λ b.
              module_of (Context.init core) (nonempty main.resources) (needs_lt struct)
                (nonempty main.schedule) (nonempty main.spawn) b app)
            (sym some_fields)
          ∙ hm) in
    iff_of (aliases it.module_.items) ls.ident main.name
      (ap (λ (i : Items). aliases i.module_.items) (sym (done-inj h4)) ∙ named) name
