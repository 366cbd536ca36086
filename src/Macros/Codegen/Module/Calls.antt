-- ===== src/Macros/Codegen/Module/Calls.antt =====
-- The arguments of `Context::new`: what macros/src/codegen/module.rs declares is what the callers in
-- init.rs, idle.rs and dispatchers.rs hand over.
use linux_rtfm.Base.{
  ℕ, ◌≡◌, refl, sym, ap, ap₂, ◌∙◌, Bool, true, false, not, ◌||◌, [], ◌∷◌, arith, if◌then◌else◌,
}
use linux_rtfm.Base.Run.{Run, done, panic, ◌>>=◌, >>=-eq-done, done-inj, unwrap}
use linux_rtfm.Macros.Ident.{Ident}
use linux_rtfm.Macros.Collect.{find}
use linux_rtfm.Macros.Syntax.{App, Context}
use linux_rtfm.Macros.Codegen.Spawn.{instants_of}
use linux_rtfm.Macros.Codegen.Code.{Arm}
use linux_rtfm.Macros.Codegen.Dispatch.{arm}
use linux_rtfm.Macros.Codegen.Resources.{locals_ident, resources_ident, is_some}
use linux_rtfm.Macros.Codegen.Module.{
  scheduled, scheduled_instant, Module, Parts, no_parts, add_scheduled, add_locals, add_resources,
  add_schedule, add_spawn, add_late_resources, module_of,
}

-- What the callers of `name::Context::new` hand over: whether `priority`, and whether `instant`. A
-- dispatcher hands over the instant where it reads one.
unfoldable pub handed : App → (sender : ℕ) → Context → Run (Bool × Bool)
unfolding arm
handed app sender (Context.init core) = done (false, false)
handed app sender (Context.idle core) = done (true, false)
handed app sender (Context.hardware_task name) = panic
handed app sender (Context.software_task name) = do
  a ← arm app (app.core (Context.software_task name)) sender name
  done (true, is_some a.instants)

-- What `Context::is_init` and `Context::is_idle` say.
pub record IsContexts (app : App) : Type 0 where
  pub init_init : (core : ℕ) → app.is_init (Context.init core) ≡ true
  pub init_idle : (core : ℕ) → app.is_init (Context.idle core) ≡ false
  pub init_task : (name : Ident) → app.is_init (Context.software_task name) ≡ false
  pub idle_idle : (core : ℕ) → app.is_idle (Context.idle core) ≡ true
  pub idle_task : (name : Ident) → app.is_idle (Context.software_task name) ≡ false

-- Whether there is an instant in the end, by whether there is one for `scheduled`.
abbrev needs : (is_init is_idle has_spawn uses_schedule needs_instant : Bool) → Bool
needs true is_idle has_spawn uses n = n
needs false true has_spawn uses n = n
needs false false true uses n = n || uses
needs false false false uses n = n

add_resources-needs :
    (has needs_lt : Bool) (ident : Run Ident) (i : Bool) (p q : Parts)
    → add_resources has needs_lt ident i p ≡ done q
    → p.needs_instant ≡ q.needs_instant
unfolding add_resources
add_resources-needs false needs_lt ident i p q h = ap (λ (p : Parts). p.needs_instant) (done-inj h)
add_resources-needs true needs_lt ident i p q h =
    let (name, hn, h1) = >>=-eq-done ident _ h in ap (λ (p : Parts). p.needs_instant) (done-inj h1)

add_schedule-needs :
    (has i : Bool) (p : Parts) → (add_schedule has i p).needs_instant ≡ p.needs_instant
unfolding add_schedule
add_schedule-needs true i p = refl
add_schedule-needs false i p = refl

add_late_resources-needs :
    (has : Bool) (p : Parts) → (add_late_resources has p).needs_instant ≡ p.needs_instant
unfolding add_late_resources
add_late_resources-needs true p = refl
add_late_resources-needs false p = refl

add_spawn-needs :
    (has i d u : Bool) (p : Parts)
    → (add_spawn has i d u p).needs_instant ≡ needs i d has u p.needs_instant
unfolding add_spawn
add_spawn-needs false true d u p = refl
add_spawn-needs false false true u p = refl
add_spawn-needs false false false u p = refl
add_spawn-needs true true d u p = refl
add_spawn-needs true false true u p = refl
add_spawn-needs true false false u p = refl

module _ (ctxt : Context) (has_resources needs_lt has_schedule has_spawn late_resources : Bool)
    (app : App) (m : Module)
    (made : module_of ctxt has_resources needs_lt has_schedule has_spawn late_resources app
      ≡ done m) where
  module_of-arguments :
      (p : Parts) × (add_scheduled ctxt app ≡ done p)
      × (m.priority ≡ not (app.is_init ctxt))
      × (m.instant
          ≡ needs
              (app.is_init ctxt)
              (app.is_idle ctxt)
              has_spawn
              (app.uses_schedule (app.core ctxt))
              p.needs_instant)
  unfolding module_of add_locals
  module_of-arguments =
      let i = app.is_init ctxt in
      let (p, hp, h1) = >>=-eq-done (add_scheduled ctxt app) _ made in
      let (ident, hi, h2) = >>=-eq-done (locals_ident ctxt app) _ h1 in
      let (q, hq, h3) =
        >>=-eq-done
          (add_resources has_resources needs_lt (resources_ident ctxt app) i (add_locals ident p)) _
          h2 in
      let e = done-inj h3 in
      (
        p,
        hp,
        sym (ap (λ (m : Module). m.priority) e),
        sym (ap (λ (m : Module). m.instant) e)
            ∙ add_late_resources-needs late_resources _
            ∙ add_spawn-needs has_spawn i (app.is_idle ctxt) _ _
            ∙ ap (needs i (app.is_idle ctxt) has_spawn _) (
                add_schedule-needs has_schedule i q
                ∙ sym (add_resources-needs has_resources needs_lt _ i (add_locals ident p) q hq)),
      )

or_self : (b : Bool) → (b || b) ≡ b
or_self true = refl
or_self false = refl

instants_some :
    (app : App) (receiver : ℕ) (name : Ident)
    → app.uses_schedule receiver ≡ is_some (instants_of app receiver name)
unfolding instants_of
instants_some app receiver name = ground arith

arm-instants :
    (app : App) (receiver sender : ℕ) (name : Ident) (args : Bool × Bool)
    → (arm app receiver sender name >>= λ a. done (true, is_some a.instants)) ≡ done args
    → (true, app.uses_schedule receiver) ≡ args
unfolding arm instants_of
arm-instants app receiver sender name args h =
    let (b, hb, h1) = >>=-eq-done (arm app receiver sender name) _ h in
    let (task, ht, h2) = >>=-eq-done (unwrap (find name app.software_tasks)) _ hb in
    ap (λ i. (true, i))
      (instants_some app receiver name ∙ ap (λ (x : Arm). is_some x.instants) (done-inj h2))
    ∙ done-inj h1

scheduled_needs :
    (u : Bool)
    → (if u
        then record no_parts {
          fields = scheduled ∷ [];
          values = scheduled_instant ∷ [];
          needs_instant = true;
        }
        else no_parts).needs_instant
      ≡ u
scheduled_needs true = refl
scheduled_needs false = refl

needs_task : (w u n : Bool) → n ≡ u → needs false false w u n ≡ u
needs_task true u n e = ap (λ b. b || u) e ∙ or_self u
needs_task false u n e = e

-- If `is_init` and `is_idle` say of a context what it is, where the module of a context is
-- generated, and its caller, with its arguments: the constructor of the execution context
-- declares `priority` and `instant` exactly if the caller hands them over.
pub module_of-handed :
    (ctxt : Context) (has_resources needs_lt has_schedule has_spawn late_resources : Bool)
    (app : App) (sender : ℕ) (m : Module) (args : Bool × Bool)
    → IsContexts app
    → module_of ctxt has_resources needs_lt has_schedule has_spawn late_resources app ≡ done m
    → handed app sender ctxt ≡ done args
    → (m.priority, m.instant) ≡ args
unfolding handed add_scheduled
module_of-handed (Context.init core) r l s w t app sender m args laws hm hh =
    let (p, hp, hq, hn) = module_of-arguments (Context.init core) r l s w t app m hm in
    let none_yet = sym (ap (λ (p : Parts). p.needs_instant) (done-inj hp)) in
    ap₂ (λ b c. (b, c)) (hq ∙ ap not (laws.init_init core))
      (hn
        ∙ ap
            (λ b.
              needs b (app.is_idle (Context.init core)) w
                (app.uses_schedule (app.core (Context.init core))) p.needs_instant)
            (laws.init_init core)
        ∙ none_yet)
    ∙ done-inj hh
module_of-handed (Context.idle core) r l s w t app sender m args laws hm hh =
    let (p, hp, hq, hn) = module_of-arguments (Context.idle core) r l s w t app m hm in
    let none_yet = sym (ap (λ (p : Parts). p.needs_instant) (done-inj hp)) in
    ap₂ (λ b c. (b, c)) (hq ∙ ap not (laws.init_idle core))
      (hn
        ∙ ap₂
            (λ b c. needs b c w (app.uses_schedule (app.core (Context.idle core))) p.needs_instant)
            (laws.init_idle core) (laws.idle_idle core)
        ∙ none_yet)
    ∙ done-inj hh
module_of-handed (Context.hardware_task name) r l s w t app sender m args laws hm hh = cc
module_of-handed (Context.software_task name) r l s w t app sender m args laws hm hh =
    let (p, hp, hq, hn) = module_of-arguments (Context.software_task name) r l s w t app m hm in
    let u = app.uses_schedule (app.core (Context.software_task name)) in
    ap₂ (λ b c. (b, c)) (hq ∙ ap not (laws.init_task name))
      (hn
        ∙ ap₂ (λ b c. needs b c w u p.needs_instant) (laws.init_task name) (laws.idle_task name)
        ∙ needs_task w u p.needs_instant
            (ap (λ (p : Parts). p.needs_instant) (sym (done-inj hp)) ∙ scheduled_needs u))
    ∙ arm-instants app _ sender name args hh
