-- ===== src/Macros/Codegen/Module/Contexts.antt =====
-- The modules of macros/src/codegen/module.rs are well formed.
use linux_rtfm.Base.{collect, collect-snoc, map-snoc}
use linux_rtfm.Macros.Codegen.Module.Shape.{
  any, any-snoc, names_lt, names_priority, names_instant, field_name, value_name, struct_of,
  literal_of, IsWellFormed,
}
use mathlib.Core.List.{append-nil}
use linux_rtfm.Base.{
  map, ap₂, ◌≡◌, refl, sym, ap, ◌∙◌, subst, Bool, true, false, not, ◌||◌, [], ◌∷◌, ◌++◌,
  if◌then◌else◌,
}
use linux_rtfm.Base.Run.{Run, done, >>=-eq-done, done-inj}
use linux_rtfm.Macros.Ident.{Ident}
use linux_rtfm.Macros.Syntax.{App, Context}
use linux_rtfm.Macros.Codegen.Resources.{locals_ident, resources_ident}
use linux_rtfm.Macros.Codegen.Module.{
  ContextField, scheduled, resources, schedule, spawn, ContextValue, scheduled_instant,
  new_resources, new_schedule, new_spawn, ModuleItem, use_locals, use_resources, schedule_struct,
  spawn_struct, Module, Parts, no_parts, add_scheduled, add_locals, add_resources, add_schedule,
  add_spawn, add_late_resources, close, module_of,
}

-- The same while the module is built.
record Good (is_init uses_schedule : Bool) (p : Parts) : Type 0 where
  names : map field_name p.fields ≡ map value_name p.values
  lifetimes : any names_lt p.fields ≡ p.lt
  priority : any names_priority p.values ≡ true → not is_init ≡ true
  instant : any names_instant p.values ≡ true → p.needs_instant ≡ true
  scheduling : p.needs_instant ≡ true → uses_schedule ≡ true
  literals : collect struct_of p.items ≡ collect literal_of p.values

either : (a b c : Bool) → (a ≡ true → c ≡ true) → (b ≡ true → c ≡ true) → (a || b) ≡ true → c ≡ true
either true b c f g h = f refl
either false b c f g h = g h

or_left : (a b : Bool) → a ≡ true → (a || b) ≡ true
or_left true b h = refl
or_left false b h = cc

or_false : (a : Bool) → (a || false) ≡ true → a ≡ true
or_false true h = h
or_false false h = h

or_right : (a b : Bool) → b ≡ true → (a || b) ≡ true
or_right true b h = refl
or_right false b h = h

no_parts-Good : (is_init uses_schedule : Bool) → Good is_init uses_schedule no_parts
no_parts-Good i u = record {
  names = refl;
  lifetimes = refl;
  priority = λ e. cc;
  instant = λ e. e;
  scheduling = λ e. cc;
  literals = refl;
}

scheduled-Good :
    (is_init uses_schedule : Bool)
    → Good is_init uses_schedule (
        if uses_schedule
        then record no_parts {
          fields = scheduled ∷ [];
          values = scheduled_instant ∷ [];
          needs_instant = true;
        }
        else no_parts)
scheduled-Good i true = record {
  names = refl;
  lifetimes = refl;
  priority = λ e. cc;
  instant = λ e. e;
  scheduling = λ e. refl;
  literals = refl;
}
scheduled-Good i false = no_parts-Good i false

module _ (i u : Bool) (p : Parts) (g : Good i u p) where
  add_locals-Good : (ident : Ident) → Good i u (add_locals ident p)
  unfolding add_locals
  add_locals-Good ident = record {
    names = g.names;
    lifetimes = g.lifetimes;
    priority = g.priority;
    instant = g.instant;
    scheduling = g.scheduling;
    literals = collect-snoc struct_of p.items (use_locals ident) ∙ append-nil _ ∙ g.literals;
  }

  add_late_resources-Good : (has : Bool) → Good i u (add_late_resources has p)
  unfolding add_late_resources
  add_late_resources-Good false = g
  add_late_resources-Good true = record {
    names = g.names;
    lifetimes = g.lifetimes;
    priority = g.priority;
    instant = g.instant;
    scheduling = g.scheduling;
    literals = collect-snoc struct_of p.items _ ∙ append-nil _ ∙ g.literals;
  }

  -- A field with its value, and an item for it.
  add-Good :
      (item : ModuleItem) (f : ContextField) (v : ContextValue) (lt needs_instant : Bool)
      → field_name f ≡ value_name v
      → struct_of item ≡ literal_of v
      → (p.lt || names_lt f) ≡ lt
      → (names_priority v ≡ true → not i ≡ true)
      → ((p.needs_instant || names_instant v) ≡ true → needs_instant ≡ true)
      → (needs_instant ≡ true → u ≡ true)
      → Good i u (record {
        items = p.items ++ item ∷ [];
        fields = p.fields ++ f ∷ [];
        values = p.values ++ v ∷ [];
        needs_instant = needs_instant;
        lt = lt;
      })
  add-Good item f v lt needs_instant hn hs hl hp hi hu = record {
    names =
        map-snoc field_name p.fields f
        ∙ ap₂ (λ l n. l ++ n ∷ []) g.names hn
        ∙ sym (map-snoc value_name p.values v);
    lifetimes = any-snoc names_lt p.fields f ∙ ap (λ b. b || names_lt f) g.lifetimes ∙ hl;
    priority = λ e. either _ _ _ g.priority hp (sym (any-snoc names_priority p.values v) ∙ e);
    instant = λ e. hi (
        either _ _ _ (λ k. or_left p.needs_instant _ (g.instant k)) (or_right p.needs_instant _)
          (sym (any-snoc names_instant p.values v) ∙ e));
    scheduling = hu;
    literals =
        collect-snoc struct_of p.items item
        ∙ ap₂ (λ l n. l ++ n) g.literals hs
        ∙ sym (collect-snoc literal_of p.values v);
  }

  add_resources-Good :
      (has needs_lt : Bool) (ident : Run Ident) (q : Parts)
      → add_resources has needs_lt ident i p ≡ done q
      → Good i u q
  unfolding add_resources
  add_resources-Good false needs_lt ident q h = subst (Good i u) (done-inj h) g
  add_resources-Good true needs_lt ident q h =
      let (name, hn, h1) = >>=-eq-done ident _ h in
      subst (Good i u) (done-inj h1) (
        add-Good (use_resources name) (resources needs_lt) (new_resources (not i)) _ _ refl refl
          refl (λ e. e) (λ e. or_false p.needs_instant e) g.scheduling)

  add_schedule-Good : (has : Bool) → Good i u (add_schedule has i p)
  unfolding add_schedule
  add_schedule-Good false = g
  add_schedule-Good true =
      add-Good (schedule_struct (not i)) (schedule (not i)) (new_schedule (not i)) _ _ refl refl
        refl (λ e. e) (λ e. or_false p.needs_instant e) g.scheduling

or-false_eq : (a : Bool) → (a || false) ≡ a
or-false_eq true = refl
or-false_eq false = refl

or_true : (a : Bool) → (a || true) ≡ true
or_true true = refl
or_true false = refl

implied : (a b : Bool) → (a ≡ true → b ≡ true) → b ≡ (a || b)
implied true b h = h refl
implied false b h = refl

add_spawn-Good :
    (i u : Bool) (p : Parts)
    → Good i u p
    → (has is_idle : Bool) → Good i u (add_spawn has i is_idle u p)
unfolding add_spawn
add_spawn-Good i u p g false is_idle = g
add_spawn-Good true u p g true is_idle =
    add-Good true u p g (spawn_struct false false false) (spawn false) (new_spawn false false) _ _
      refl refl (or-false_eq p.lt) (λ e. cc) (λ e. or_false p.needs_instant e) g.scheduling
add_spawn-Good false u p g true true =
    add-Good false u p g (spawn_struct true false false) (spawn true) (new_spawn true false) _ _
      refl refl (or_true p.lt) (λ e. refl) (λ e. or_false p.needs_instant e) g.scheduling
add_spawn-Good false u p g true false =
    let passed = implied p.needs_instant u g.scheduling in
    add-Good false u p g (spawn_struct true u u) (spawn true)
      (new_spawn true (p.needs_instant || u)) _ _ refl (ap (λ b. (true, true, b) ∷ []) passed)
      (or_true p.lt) (λ e. refl)
      (λ e. either p.needs_instant _ _ (or_left p.needs_instant u) (λ k. k) e) (λ e. passed ∙ e)

add_scheduled-Good :
    (ctxt : Context) (app : App) (i : Bool) (p : Parts)
    → add_scheduled ctxt app ≡ done p
    → Good i (app.uses_schedule (app.core ctxt)) p
unfolding add_scheduled
add_scheduled-Good (Context.init core) app i p h = subst (Good i _) (done-inj h) (no_parts-Good i _)
add_scheduled-Good (Context.idle core) app i p h = subst (Good i _) (done-inj h) (no_parts-Good i _)
add_scheduled-Good (Context.hardware_task name) app i p h = cc
add_scheduled-Good (Context.software_task name) app i p h =
    subst (Good i _) (done-inj h)
      (scheduled-Good i (app.uses_schedule (app.core (Context.software_task name))))

close-IsWellFormed :
    (name : Ident) (i u : Bool) (p : Parts) → Good i u p → IsWellFormed (close name i p)
close-IsWellFormed name i u p g = record {
  names = g.names;
  lifetimes = g.lifetimes;
  priority = g.priority;
  instant = g.instant;
  literals = g.literals;
}

-- Where the module of a context is generated: the fields of the execution context are, in order,
-- those that its constructor gives values to; the lifetime is declared exactly if a field uses
-- it; the constructor has each of the arguments `priority` and `instant` that a value uses; and
-- the literals of `Schedule` and `Spawn` have the fields of their structs.
pub module_of-IsWellFormed :
    (ctxt : Context) (has_resources needs_lt has_schedule has_spawn late_resources : Bool)
    (app : App) (m : Module)
    → module_of ctxt has_resources needs_lt has_schedule has_spawn late_resources app ≡ done m
    → IsWellFormed m
unfolding module_of
module_of-IsWellFormed ctxt has_resources needs_lt has_schedule has_spawn late app m h =
    let i = app.is_init ctxt in
    let u = app.uses_schedule (app.core ctxt) in
    let (p, hp, h1) = >>=-eq-done (add_scheduled ctxt app) _ h in
    let (ident, hi, h2) = >>=-eq-done (locals_ident ctxt app) _ h1 in
    let (q, hq, h3) =
      >>=-eq-done
        (add_resources has_resources needs_lt (resources_ident ctxt app) i (add_locals ident p)) _
        h2 in
    let g = add_locals-Good i u p (add_scheduled-Good ctxt app i p hp) ident in
    let g = add_resources-Good i u _ g has_resources needs_lt _ q hq in
    let g =
      add_spawn-Good i u _ (add_schedule-Good i u q g has_schedule) has_spawn (app.is_idle ctxt) in
    subst IsWellFormed (done-inj h3)
      (close-IsWellFormed _ i u _ (add_late_resources-Good i u _ g late))
