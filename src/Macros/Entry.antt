-- ===== src/Macros/Entry.antt =====
-- The attribute `#[app]`, macros/src/lib.rs: the parser's result, which is that of `rtfm_syntax::parse`
-- and a parameter, goes through the check, the analysis and the code generator.
use linux_rtfm.Base.{ℕ, ◌<◌, ◌≡◌, refl, ap, ◌∙◌, subst, Option, none, some}
use linux_rtfm.Base.Run.{Run, done, ◌>>=◌, >>=-eq-done, unwrap, unwrap-eq-done}
use linux_rtfm.Macros.Ident.{Ident}
use linux_rtfm.Macros.Collect.{get, find}
use linux_rtfm.Macros.Syntax.{App, Parent, Context, SoftwareTask}
use linux_rtfm.Macros.Analyze.{app_analysis}
use linux_rtfm.Macros.Analyze.Assignment.{signal}
use linux_rtfm.Macros.Check.{Verdict, ok, name_in_use, not_enough_signals, app_check, nsignals}
use linux_rtfm.Macros.Check.Enough.{app_check-signal-lt}
use linux_rtfm.Macros.Codegen.Boot.{signal_of}
use linux_rtfm.Macros.Codegen.Code.{SpawnBody}
use linux_rtfm.Macros.Codegen.Spawn.{spawn_body}
use linux_rtfm.Macros.Codegen.Dispatch.Links.{spawn_body-eq-done}
use linux_rtfm.Macros.Codegen.Functions.{Expansion, expansion}

-- What the attribute expands to: a compile error, or code. The file that it writes is left out.
pub data Answer : Type 0 where
  syntax_error : Answer
  check_error : Verdict → Answer
  expanded : Expansion → Answer

-- Past the check.
unfoldable pub generate : App → Parent → Verdict → Run Answer
unfolding app_analysis expansion
generate app parent ok = do ts ← expansion app (app_analysis parent app); done (expanded ts)
generate app parent (name_in_use name) = done (check_error (name_in_use name))
generate app parent not_enough_signals = done (check_error not_enough_signals)

unfoldable pub app_macro : Option (App × Parent) → Run Answer
unfolding app_check generate
app_macro none = done syntax_error
app_macro (some (app, parent)) = generate app parent (app_check app parent)

generate-expanded :
    (app : App) (parent : Parent) (v : Verdict) (ts : Expansion)
    → generate app parent v ≡ done (expanded ts)
    → (v ≡ ok) × (expansion app (app_analysis parent app) ≡ done ts)
unfolding generate
generate-expanded app parent ok ts h =
    let (ts', e, h1) = >>=-eq-done (expansion app (app_analysis parent app)) _ h in
    let same : ts' ≡ ts = cc in (refl, e ∙ ap done same)
generate-expanded app parent (name_in_use name) ts h = cc
generate-expanded app parent not_enough_signals ts h = cc

-- A signal that the generator looks up is one that the analysis assigned.
signal_of-signal :
    (app : App) (parent : Parent) (core p s : ℕ)
    → signal_of (app_analysis parent app) core p ≡ done s
    → signal app parent core p ≡ some s
unfolding signal_of signal mathlib.Core.Option.bind
signal_of-signal app parent core p s h =
    let (signals, e, h1) = >>=-eq-done (unwrap (get core (app_analysis parent app).signals)) _ h in
    rw (unwrap-eq-done (get core (app_analysis parent app).signals) e, signal)
      (unwrap-eq-done (get p signals.map) h1)

-- If the attribute `#[app]` expands a parsed application to code, the body of each spawn of a
-- known task of a core that exists, where it is generated, sends its message to a signal below
-- 32.
pub app_macro-signal-lt :
    (app : App) (parent : Parent) (ts : Expansion) (context : Context) (name : Ident)
    (task : SoftwareTask) (body : SpawnBody)
    → app_macro (some (app, parent)) ≡ done (expanded ts)
    → find name app.software_tasks ≡ some task
    → task.core < app.cores
    → spawn_body context name app (app_analysis parent app) ≡ done body
    → body.enqueue.signo < nsignals
unfolding app_macro
app_macro-signal-lt app parent ts context name task body hm ht core hb =
    let (passed, made) = generate-expanded app parent (app_check app parent) ts hm in
    let (signo, hs, same) = spawn_body-eq-done app (app_analysis parent app) context name ht hb in
    subst (λ (b : SpawnBody). b.enqueue.signo < nsignals) same
      (app_check-signal-lt app parent task.core task.priority signo passed core
        (signal_of-signal app parent task.core task.priority signo hs))
