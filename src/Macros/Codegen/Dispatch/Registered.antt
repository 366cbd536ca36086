-- ===== src/Macros/Codegen/Dispatch/Registered.antt =====
-- The handlers that macros/src/codegen/pre_init.rs registers are those that dispatchers.rs emits.
use linux_rtfm.Macros.Codegen.Boot.Marks.{Quiet, pre_init-marks}
use mathlib.Core.List.{append-nil}
use linux_rtfm.Base.{
  ℕ, ◌≡◌, refl, sym, ap, ap₂, ◌∙◌, subst, inl, inr, Option, none, some, List, [], ◌∷◌, ◌++◌,
  if◌then◌else◌, Bool-cases, collect, collect-append,
}
use linux_rtfm.Base.Run.{
  Run, done, ◌>>=◌, >>=-eq-done, done-inj, unwrap, unwrap-eq-done, map_run, flat_map_run,
}
use linux_rtfm.Base.Rounds.{flat_map_run-agree}
use linux_rtfm.Macros.Ident.{Ident, rt_ident}
use linux_rtfm.Macros.Collect.{Map, get, elem}
use linux_rtfm.Macros.Syntax.{App, TimerQueue}
use linux_rtfm.Macros.Analyze.{Analysis, Signals}
use linux_rtfm.Macros.Codegen.Code.{Stmt, Output, register}
use linux_rtfm.Macros.Codegen.Boot.{keys, register_level, register_core, pre_init}
use linux_rtfm.Macros.Codegen.Dispatch.{
  DispatchItem, handler, spawn_enum, timer_only, dispatcher, channel_arms, timer_at, timer_body,
  separate_timer, dispatch_core, dispatchers,
}

-- The handlers that a statement registers, with their levels.
abbrev pub registered : Stmt → List (ℕ × Ident)
registered (register range priority name) = (priority, name) ∷ []
registered stmt = []

-- The handlers that are emitted.
abbrev pub emitted : DispatchItem → List (ℕ × Ident)
emitted (handler name priority body) = (priority, name) ∷ []
emitted (spawn_enum t variants) = []

pub registered-Quiet : Quiet registered
registered-Quiet = record {
  runtime = λ _. refl;
  index = refl;
  fill = λ _ _. refl;
  tgid = refl;
  timer = λ _ _ _. refl;
  tid = λ _ _. refl;
  child = λ _. refl;
  affinity = λ _. refl;
}

-- The level's handler, by the signal that the analysis gives to the level.
abbrev pub Entry : Signals → (level : ℕ) → List (ℕ × Ident) → Type 0
Entry signals level entries =
    (rt : ℕ) × (get level signals.map ≡ some rt) × (entries ≡ (level, rt_ident rt) ∷ [])

Entry-same :
    (signals : Signals) (level : ℕ) {xs ys : List (ℕ × Ident)}
    → Entry signals level xs
    → Entry signals level ys
    → xs ≡ ys
Entry-same signals level (rt, h, e) (rt', h', e') =
    e ∙ ap (λ r. (level, rt_ident r) ∷ []) (done-inj (ap unwrap (sym h ∙ h'))) ∙ sym e'

module _ (app : App) (analysis : Analysis) (core : ℕ) (signals : Signals) where
  pub register_level-registered :
      (level : ℕ) {stmt : Stmt}
      → register_level analysis core signals level ≡ done stmt
      → Entry signals level (registered stmt)
  unfolding register_level
  register_level-registered level h =
      let (rt, e, h1) = >>=-eq-done (unwrap (get level signals.map)) _ h in
      (rt, unwrap-eq-done (get level signals.map) e, ap registered (sym (done-inj h1)))

  dispatcher-emitted :
      (level : ℕ) (channels : Map (List Ident)) {items : List DispatchItem}
      → dispatcher app analysis core signals (level, channels) ≡ done items
      → Entry signals level (collect emitted items)
  unfolding dispatcher
  dispatcher-emitted level channels h =
      let (arms, e, h1) = >>=-eq-done (flat_map_run (channel_arms app core) channels) _ h in
      let (rt, e1, h2) = >>=-eq-done (unwrap (get level signals.map)) _ h1 in
      let (timer, e2, h3) = >>=-eq-done (timer_at app analysis core level) _ h2 in
      (rt, unwrap-eq-done (get level signals.map) e1, ap (collect emitted) (sym (done-inj h3)))

  -- All levels of a receiver.
  levels-agree :
      (dispatchers : Map (Map (List Ident))) {stmts : List Stmt} {items : List DispatchItem}
      → map_run (register_level analysis core signals) (keys dispatchers) ≡ done stmts
      → flat_map_run (dispatcher app analysis core signals) dispatchers ≡ done items
      → collect registered stmts ≡ collect emitted items
  levels-agree [] hs hi =
      ap (collect registered) (sym (done-inj hs)) ∙ ap (collect emitted) (done-inj hi)
  levels-agree ((level, channels) ∷ rest) hs hi =
      let (stmt, e1, h1) = >>=-eq-done (register_level analysis core signals level) _ hs in
      let (stmts, e2, h2) =
        >>=-eq-done (map_run (register_level analysis core signals) (keys rest)) _ h1 in
      let (own, k1, i1) =
        >>=-eq-done (dispatcher app analysis core signals (level, channels)) _ hi in
      let (items, k2, i2) =
        >>=-eq-done (flat_map_run (dispatcher app analysis core signals) rest) _ i1 in
      ap (collect registered) (sym (done-inj h2))
      ∙ ap₂ (λ l r. l ++ r)
          (Entry-same signals level (register_level-registered level e1)
            (dispatcher-emitted level channels k1))
          (levels-agree rest e2 k2)
      ∙ sym (collect-append emitted own items)
      ∙ ap (collect emitted) (done-inj i2)

  -- The handler of the timer alone.
  abbrev pub own_stmts : Option TimerQueue → List ℕ → Run (List Stmt)
  own_stmts timer levels = elim timer [
    | none ↦ done []
    | some tq ↦
        if elem tq.priority levels
        then done []
        else map_run (register_level analysis core signals) (tq.priority ∷ [])
  ]

  abbrev own_items : Option TimerQueue → List ℕ → Run (List DispatchItem)
  own_items timer levels = elim timer [
    | none ↦ done []
    | some tq ↦ if elem tq.priority levels then done [] else (do
      rt ← unwrap (get tq.priority signals.map)
      body ← timer_body core tq app analysis
      done (handler (rt_ident rt) tq.priority (timer_only body) ∷ []))
  ]

  separate_timer-emitted :
      (level : ℕ) (tq : TimerQueue) {items : List DispatchItem}
      → (unwrap (get level signals.map) >>= λ rt. timer_body core tq app analysis >>= λ body.
          done (handler (rt_ident rt) level (timer_only body) ∷ []))
        ≡ done items
      → Entry signals level (collect emitted items)
  separate_timer-emitted level tq h =
      let (rt, e1, h1) = >>=-eq-done (unwrap (get level signals.map)) _ h in
      let (body, e2, h2) = >>=-eq-done (timer_body core tq app analysis) _ h1 in
      (rt, unwrap-eq-done (get level signals.map) e1, ap (collect emitted) (sym (done-inj h2)))

  own-agree :
      (timer : Option TimerQueue) (levels : List ℕ) {stmts : List Stmt} {items : List DispatchItem}
      → own_stmts timer levels ≡ done stmts
      → own_items timer levels ≡ done items
      → collect registered stmts ≡ collect emitted items
  own-agree none levels hs hi =
      ap (collect registered) (sym (done-inj hs)) ∙ ap (collect emitted) (done-inj hi)
  own-agree (some tq) levels hs hi = elim (Bool-cases (elem tq.priority levels)) [
    | inl there ↦
        ap (collect registered) (sym (done-inj (rw there at hs)))
        ∙ ap (collect emitted) (done-inj (rw there at hi))
    | inr absent ↦
        let (stmt, e1, h1) =
          >>=-eq-done (register_level analysis core signals tq.priority) _ (rw absent at hs) in
        ap (collect registered) (sym (done-inj h1))
        ∙ append-nil (registered stmt)
        ∙ Entry-same signals tq.priority (register_level-registered tq.priority e1)
            (separate_timer-emitted tq.priority tq (rw absent at hi))
  ]

module _ (app : App) (analysis : Analysis) where
  core-agree :
      (receiver : ℕ × Map (Map (List Ident))) (stmts : List Stmt) (items : List DispatchItem)
      → register_core analysis receiver ≡ done stmts
      → dispatch_core app analysis receiver ≡ done items
      → collect registered stmts ≡ collect emitted items
  unfolding register_core dispatch_core separate_timer
  core-agree (core, dispatchers) stmts items hs hi =
      let (signals, e1, h1) = >>=-eq-done (unwrap (get core analysis.signals)) _ hs in
      let (levels, e2, h2) =
        >>=-eq-done (map_run (register_level analysis core signals) (keys dispatchers)) _ h1 in
      let (own, e3, h3) =
        >>=-eq-done
          (own_stmts app analysis core signals (get core analysis.timer_queues) (keys dispatchers))
          _ h2 in
      let (signals', k1, i1) = >>=-eq-done (unwrap (get core analysis.signals)) _ hi in
      let same : signals' ≡ signals = done-inj (sym k1 ∙ e1) in
      let (ls, k2, i2) =
        >>=-eq-done (flat_map_run (dispatcher app analysis core signals') dispatchers) _ i1 in
      let (ts, k3, i3) =
        >>=-eq-done
          (own_items app analysis core signals' (get core analysis.timer_queues) (keys dispatchers))
          _ i2 in
      ap (collect registered) (sym (done-inj h3))
      ∙ collect-append registered levels own
      ∙ ap₂ (λ l r. l ++ r)
          (levels-agree app analysis core signals dispatchers e2 (
            subst
              (λ (s : Signals). flat_map_run (dispatcher app analysis core s) dispatchers ≡ done ls)
              same k2))
          (own-agree app analysis core signals (get core analysis.timer_queues) (keys dispatchers)
            e3
            (subst
              (λ (s : Signals).
                own_items app analysis core s (get core analysis.timer_queues) (keys dispatchers)
                ≡ done ts)
              same k3))
      ∙ sym (collect-append emitted ls ts)
      ∙ ap (collect emitted) (done-inj i3)

  -- Where both are generated, the handlers that the statements before `init` register are, with
  -- their levels and in their order, just the handlers that the dispatchers' code declares.
  pub pre_init-dispatchers :
      {out : Output} {items : List DispatchItem}
      → pre_init app analysis ≡ done out
      → dispatchers app analysis ≡ done items
      → collect registered out.stmts ≡ collect emitted items
  unfolding dispatchers
  pre_init-dispatchers hp hd =
      let (handlers, e, same) = pre_init-marks registered registered-Quiet app analysis hp in
      same
      ∙ flat_map_run-agree (register_core analysis) (dispatch_core app analysis) registered emitted
          core-agree analysis.channels e hd
