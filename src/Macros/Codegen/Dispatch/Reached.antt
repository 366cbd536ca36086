-- ===== src/Macros/Codegen/Dispatch/Reached.antt =====
-- The messages of macros/src/codegen/spawn_body.rs and the handlers that pre_init.rs registers.
use mathlib.Core.List.{Memᴰ}
use mathlib.Core.List.Memᴰ
use mathlib.Core.Option.{some_inj}
use linux_rtfm.Base.{
  ℕ, ◌≤◌, ◌<◌, ◌≡◌, refl, sym, ap, ◌∙◌, subst, true, some, List, [], ◌∷◌, collect, arith,
}
use linux_rtfm.Base.Members.{mem-collect, mem-collect_inv}
use linux_rtfm.Base.Run.{done, >>=-eq-done, done-inj, unwrap, unwrap-eq-done, map_run}
use linux_rtfm.Base.Rounds.{mem-of_map_run, mem-flat_map_run}
use linux_rtfm.Runtime.Signals.{handler_signal}
use linux_rtfm.Macros.Ident.{Ident, rt_ident}
use linux_rtfm.Macros.Collect.{Map, get, find, elem}
use linux_rtfm.Macros.Syntax.{App, Parent, Context, SoftwareTask}
use linux_rtfm.Macros.Analyze.{Analysis, Signals, app_analysis, core_signals, priorities, range}
use linux_rtfm.Macros.Analyze.Ranks.{count, sum-le_start}
use linux_rtfm.Macros.Analyze.Assignment.{
  signal, total, start, signal-inv, signal-dense, get-signals,
}
use linux_rtfm.Macros.Codegen.Code.{Stmt, Output, SpawnBody, register}
use linux_rtfm.Macros.Codegen.Boot.{keys, signal_of, register_level, register_core, pre_init}
use linux_rtfm.Macros.Codegen.Boot.Marks.{Quiet, pre_init-marks}
use linux_rtfm.Macros.Codegen.Spawn.{spawn_body}
use linux_rtfm.Macros.Codegen.Dispatch.Links.{spawn_body-eq-done}
use linux_rtfm.Macros.Codegen.Dispatch.Registered.{own_stmts}
use linux_rtfm.Macros.Codegen.Dispatch.Distinct.{signal-at}

-- The signal that a `register` statement binds (src/export.rs), its priority and its handler.
abbrev pub bound : Stmt → List (ℕ × ℕ × Ident)
bound (register range priority name) = (handler_signal range priority, priority, name) ∷ []
bound stmt = []

bound-Quiet : Quiet bound
bound-Quiet = record {
  runtime = λ _. refl;
  index = refl;
  fill = λ _ _. refl;
  tgid = refl;
  timer = λ _ _ _. refl;
  tid = λ _ _. refl;
  child = λ _. refl;
  affinity = λ _. refl;
}

keys-mem {ℓ} : {V : Type ℓ} {k : ℕ} {v : V} (m : Map V) → Memᴰ (k, v) m → Memᴰ k (keys m)
keys-mem [] h = elim h [ ]
keys-mem {V} {k} {v} ((j, w) ∷ m) (Memᴰ.head e) = Memᴰ.head (ap (λ (p : ℕ × V). p.0) e)
keys-mem ((j, w) ∷ m) (Memᴰ.tail h) = Memᴰ.tail (keys-mem m h)

-- What `register` binds for a level.
register_level-bound :
    (analysis : Analysis) (core : ℕ) (signals : Signals) (level signo : ℕ) {stmt : Stmt}
    → get level signals.map ≡ some signo
    → register_level analysis core signals level ≡ done stmt
    → Memᴰ (handler_signal (range signals) level, level, rt_ident signo) (bound stmt)
unfolding register_level
register_level-bound analysis core signals level signo at h =
    let (rt, e, h1) = >>=-eq-done (unwrap (get level signals.map)) _ h in
    let same : rt ≡ signo = done-inj (sym e ∙ ap unwrap at) in
    subst (λ s. Memᴰ (handler_signal (range signals) level, level, rt_ident signo) (bound s))
      (done-inj h1)
      (Memᴰ.head (ap (λ r. (handler_signal (range signals) level, level, rt_ident r)) (sym same)))

-- A level of a receiver is registered, from the signals of its core.
level-bound :
    (app : App) (analysis : Analysis) (core level : ℕ) (levels : Map (Map (List Ident)))
    (channels : Map (List Ident)) (signals : Signals) (signo : ℕ) {stmts : List Stmt}
    → register_core analysis (core, levels) ≡ done stmts
    → Memᴰ (level, channels) levels
    → get core analysis.signals ≡ some signals
    → get level signals.map ≡ some signo
    → Memᴰ (handler_signal (range signals) level, level, rt_ident signo) (collect bound stmts)
unfolding register_core
level-bound app analysis core level levels channels signals signo h at hs hm =
    let (signals', e1, h1) = >>=-eq-done (unwrap (get core analysis.signals)) _ h in
    let (ls, e2, h2) =
      >>=-eq-done (map_run (register_level analysis core signals') (keys levels)) _ h1 in
    let (own, e3, h3) =
      >>=-eq-done
        (own_stmts app analysis core signals' (get core analysis.timer_queues) (keys levels)) _
        h2 in
    let (stmt, made, inside) =
      mem-of_map_run (register_level analysis core signals') (keys levels) e2
        (keys-mem levels at) in
    let same : signals' ≡ signals = done-inj (sym e1 ∙ ap unwrap hs) in
    let made' : register_level analysis core signals level ≡ done stmt =
      subst (λ (s : Signals). register_level analysis core s level ≡ done stmt) same made in
    subst
      (λ l. Memᴰ (handler_signal (range signals) level, level, rt_ident signo) (collect bound l))
      (done-inj h3)
      (mem-collect bound (Memᴰ.append_left own inside)
        (register_level-bound analysis core signals level signo hm made'))

module _ (app : App) (parent : Parent) where
  abbrev analysis : Analysis
  analysis = app_analysis parent app

  signal_of-eq-done :
      (core level : ℕ) {signo : ℕ}
      → signal_of analysis core level ≡ done signo
      → (signals : Signals) × (get core analysis.signals ≡ some signals)
        × (get level signals.map ≡ some signo)
  unfolding signal_of
  signal_of-eq-done core level h =
      let (signals, e, h1) = >>=-eq-done (unwrap (get core analysis.signals)) _ h in
      (
        signals,
        unwrap-eq-done (get core analysis.signals) e,
        unwrap-eq-done (get level signals.map) h1,
      )

  module _ (few : total app parent ≤ 255) where
    -- The levels of a core have no gap.
    module _ (core : ℕ) (exists : core < app.cores)
        (gapless : (p : ℕ)
          → elem p (priorities app parent core) ≡ true
          → (1 ≤ p) × (p ≤ count app parent core)) where
      fits_u8 : (p : ℕ) → elem p (priorities app parent core) ≡ true → p ≤ 255
      fits_u8 p held =
          omega (arith, gapless p held, sum-le_start app parent app.cores core exists, few)

      -- `register` binds the signal of the level.
      handler_signal_of_level :
          (level signo : ℕ)
          → signal app parent core level ≡ some signo
          → handler_signal (range (core_signals app parent core (start app parent core))) level
            ≡ signo
      handler_signal_of_level level signo h =
          let (held, _) = signal-inv app parent few core level signo exists h in
          some_inj.0
            (sym ((signal-dense app parent few core exists fits_u8).1 gapless level held) ∙ h)

    -- With the signals that the analysis assigns, at most 255 levels in all, and a known task on
    -- a core that exists and whose levels all lie from 1 to their number, if the channels have
    -- its core and its priority, and the body of its spawn and the statements before `init` are
    -- generated: one of these is a `register` that binds the signal that the spawn's message is
    -- sent to, to the handler that is named after this signal, at the task's priority.
    pub spawn_body-registered :
        (context : Context) (name : Ident) {task : SoftwareTask} {body : SpawnBody} {out : Output}
        (levels : Map (Map (List Ident))) (channels : Map (List Ident))
        → find name app.software_tasks ≡ some task
        → task.core < app.cores
        → ((p : ℕ)
            → elem p (priorities app parent task.core) ≡ true
            → (1 ≤ p) × (p ≤ count app parent task.core))
        → Memᴰ (task.core, levels) analysis.channels
        → Memᴰ (task.priority, channels) levels
        → spawn_body context name app analysis ≡ done body
        → pre_init app analysis ≡ done out
        → Memᴰ
            (body.enqueue.signo, task.priority, rt_ident body.enqueue.signo)
            (collect bound out.stmts)
    spawn_body-registered context name {task} {body} {out} levels channels ht exists gapless hc hl
          hb hp =
        let (signo, hs, sent) = spawn_body-eq-done app analysis context name ht hb in
        let (signals, of_core, of_level) = signal_of-eq-done task.core task.priority hs in
        let own : signals ≡ core_signals app parent task.core (start app parent task.core) =
          some_inj.0 (sym of_core ∙ get-signals app parent few task.core exists) in
        let same_signal : handler_signal (range signals) task.priority ≡ signo =
          ap (λ s. handler_signal (range s) task.priority) own
          ∙ handler_signal_of_level task.core exists gapless task.priority signo
              (signal-at app parent task.core task.priority signo signals of_core of_level) in
        let (handlers, e, same) = pre_init-marks bound bound-Quiet app analysis hp in
        let (stmts, made, inside) =
          mem-flat_map_run (register_core analysis) analysis.channels e hc in
        let here =
          level-bound app analysis task.core task.priority levels channels signals signo made hl
            of_core of_level in
        let (stmt, listed, of) = mem-collect_inv bound stmts here in
        let there = mem-collect bound (inside stmt listed) of in
        subst
          (λ (b : SpawnBody).
            Memᴰ (b.enqueue.signo, task.priority, rt_ident b.enqueue.signo)
              (collect bound out.stmts))
          sent
          (subst (Memᴰ (signo, task.priority, rt_ident signo)) (sym same) (
            subst (λ n. Memᴰ (n, task.priority, rt_ident signo) (collect bound handlers))
              same_signal there))
