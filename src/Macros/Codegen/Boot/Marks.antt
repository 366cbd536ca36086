-- ===== src/Macros/Codegen/Boot/Marks.antt =====
-- What marks the statements of macros/src/codegen/pre_init.rs have, by their parts.
use mathlib.Core.List.{append-nil}
use linux_rtfm.Base.{map, All-map, collect-none, if_true, if_false}
use linux_rtfm.Macros.Analyze.{range}
use linux_rtfm.Runtime.Signals.{Range}
use linux_rtfm.Macros.Ident.{child_ident}
use linux_rtfm.Base.Rounds.{All-map_run}
use linux_rtfm.Macros.Codegen.Code.{init_runtime, reset_index, set_affinity, spawn_child}
use linux_rtfm.Base.{
  ℕ, ◌≡◌, refl, sym, ap, ap₂, ◌∙◌, subst, inl, inr, Bool, true, false, Option, none, some, List, [],
  ◌∷◌, ◌++◌, if◌then◌else◌, Bool-cases, ltb, ◌==◌, collect, collect-append,
}
use linux_rtfm.Base.Run.{Run, done, ◌>>=◌, >>=-eq-done, done-inj, unwrap, map_run, flat_map_run}
use linux_rtfm.Base.Rounds.{flat_map_run-none}
use linux_rtfm.Macros.Ident.{Ident, rt_ident, timer_ident, fq_ident, tid_ident}
use linux_rtfm.Macros.Collect.{Map, get, find, elem}
use linux_rtfm.Macros.Syntax.{App, TimerQueue}
use linux_rtfm.Macros.Analyze.{Analysis, Signals}
use linux_rtfm.Macros.Codegen.Code.{
  Stmt, Output, ThreadArg, register, fill_queue, init_timer, init_tgid, no_thread, tid_var,
  init_tid, tgid_var,
}
use linux_rtfm.Macros.Codegen.Boot.{
  keys, maximum, concat_values, signal_of, fill_queues, timer_0, timer_of, start_thread,
  register_level, register_core, pre_init,
}

-- A mark that only the registrations among these statements may have.
pub record Quiet {ℓ} {C : Type ℓ} (mark : Stmt → List C) : Type ℓ where
  pub runtime : (signo : Option ℕ) → mark (init_runtime signo) ≡ []
  pub index : mark reset_index ≡ []
  pub fill : (fq : Ident) (cap : ℕ) → mark (fill_queue fq cap) ≡ []
  pub tgid : mark init_tgid ≡ []
  pub timer : (name : Ident) (arg : ThreadArg) (signo : ℕ) → mark (init_timer name arg signo) ≡ []
  pub tid : (name : Ident) (arg : ThreadArg) → mark (init_tid name arg) ≡ []
  pub child : (name : Ident) → mark (spawn_child name) ≡ []
  pub affinity : (core : ℕ) → mark (set_affinity core) ≡ []

module _ {ℓ} {C : Type ℓ} (mark : Stmt → List C) (quiet : Quiet mark) where
  parts-mark :
      (queues timer handlers many threads : List Stmt)
      → collect mark queues ≡ []
      → collect mark timer ≡ []
      → collect mark many ≡ []
      → collect mark threads ≡ []
      → collect mark (queues ++ init_tgid ∷ timer ++ handlers ++ many ++ threads)
        ≡ collect mark handlers
  parts-mark queues timer handlers many threads hq ht hm hs =
      rw
        (
          collect-append mark (queues ++ init_tgid ∷ timer ++ handlers ++ many) threads,
          collect-append mark (queues ++ init_tgid ∷ timer ++ handlers) many,
          collect-append mark (queues ++ init_tgid ∷ timer) handlers,
          collect-append mark queues (init_tgid ∷ timer),
          quiet.tgid,
          hq,
          ht,
          hm,
          hs,
        )
        (append-nil _ ∙ append-nil _)

  module _ (app : App) (analysis : Analysis) where
    fill_queues-mark :
        (queue : Ident × Map (Option ℕ)) (stmts : List Stmt)
        → fill_queues app queue ≡ done stmts
        → collect mark stmts ≡ []
    unfolding fill_queues
    fill_queues-mark (name, senders) stmts h =
        let (task, e, h1) = >>=-eq-done (unwrap (find name app.software_tasks)) _ h in
        ap (collect mark) (sym (done-inj h1))
        ∙ collect-none mark
            (reset_index
              ∷ map (λ sender. fill_queue (fq_ident name sender) task.capacity) (keys senders))
            (
              quiet.index,
              All-map (λ s. mark s ≡ []) (λ sender. fill_queue (fq_ident name sender) task.capacity)
                  (keys senders) (λ sender. quiet.fill (fq_ident name sender) task.capacity),
            )

    abbrev timer_stmts : (core : ℕ) → ThreadArg → Option TimerQueue → Run (List Stmt)
    timer_stmts core arg timer = elim timer [
      | none ↦ done []
      | some tq ↦ do
        signo ← signal_of analysis core tq.priority
        done (init_timer (timer_ident core) arg signo ∷ [])
    ]

    timer-mark :
        (core : ℕ) (arg : ThreadArg) (timer : Option TimerQueue) {stmts : List Stmt}
        → timer_stmts core arg timer ≡ done stmts
        → collect mark stmts ≡ []
    timer-mark core arg none h = ap (collect mark) (sym (done-inj h))
    timer-mark core arg (some tq) h =
        let (signo, e, h1) = >>=-eq-done (signal_of analysis core tq.priority) _ h in
        ap (collect mark) (sym (done-inj h1))
        ∙ collect-none mark (init_timer (timer_ident core) arg signo ∷ [])
            (quiet.timer (timer_ident core) arg signo, tt)

    start_thread-mark :
        (core : ℕ) (stmts : List Stmt)
        → start_thread analysis core ≡ done stmts
        → collect mark stmts ≡ []
    unfolding start_thread timer_of
    start_thread-mark core stmts h = elim (Bool-cases (core == 0)) [
      | inl zeroth ↦ ap (collect mark) (sym (done-inj (if_true (core == 0) _ _ zeroth h)))
      | inr other ↦
          let (timer, e, h1) =
            >>=-eq-done (timer_of analysis core) _ (if_false (core == 0) _ _ other h) in
          ap (collect mark) (sym (done-inj h1))
          ∙ rw
              (
                quiet.child (child_ident core),
                collect-append mark timer
                    (set_affinity core ∷ init_tid (tid_ident core) tid_var ∷ []),
                timer-mark core tid_var (get core analysis.timer_queues) e,
                quiet.affinity core,
                quiet.tid (tid_ident core) tid_var,
              )
              refl
    ]

    tid_0-mark :
        (many : Bool)
        → collect mark (if many then init_tid (tid_ident 0) tgid_var ∷ [] else []) ≡ []
    tid_0-mark true =
        collect-none mark (init_tid (tid_ident 0) tgid_var ∷ [])
          (quiet.tid (tid_ident 0) tgid_var, tt)
    tid_0-mark false = refl

    -- All marks are those of the registrations.
    pub pre_init-marks :
        {out : Output}
        → pre_init app analysis ≡ done out
        → (handlers : List Stmt) × (flat_map_run (register_core analysis) analysis.channels
            ≡ done handlers)
          × (collect mark out.stmts ≡ collect mark handlers)
    unfolding pre_init timer_0
    pre_init-marks hp =
        let (queues, e1, h1) =
          >>=-eq-done (flat_map_run (fill_queues app) analysis.free_queues) _ hp in
        let (timer, e2, h2) = >>=-eq-done (timer_0 app analysis) _ h1 in
        let (handlers, e3, h3) =
          >>=-eq-done (flat_map_run (register_core analysis) analysis.channels) _ h2 in
        let (threads, e4, h4) =
          >>=-eq-done (flat_map_run (start_thread analysis) analysis.used_cores) _ h3 in
        let many = if ltb 1 app.cores then init_tid (tid_ident 0) tgid_var ∷ [] else [] in
        (
          handlers,
          e3,
          ap (λ (o : Output). collect mark o.stmts) (sym (done-inj h4))
              ∙ ap
                  (λ l.
                    l ++ collect mark (queues ++ init_tgid ∷ timer ++ handlers ++ many ++ threads))
                  (quiet.runtime (maximum (concat_values analysis.signals)))
              ∙ parts-mark queues timer handlers many threads
                  (flat_map_run-none (fill_queues app) mark fill_queues-mark analysis.free_queues
                    e1)
                  (timer-mark 0 (if app.cores == 1 then no_thread else tgid_var)
                    (get 0 analysis.timer_queues) e2)
                  (tid_0-mark (ltb 1 app.cores))
                  (flat_map_run-none (start_thread analysis) mark start_thread-mark
                    analysis.used_cores e4),
        )

  -- Nor do the registrations have any, where they are quiet too.
  module _
      (loud : (r : Range) (priority : ℕ) (name : Ident)
        → mark (register r priority name) ≡ []) where
    register_level-mark :
        (analysis : Analysis) (core : ℕ) (signals : Signals) (levels : List ℕ) {stmts : List Stmt}
        → map_run (register_level analysis core signals) levels ≡ done stmts
        → collect mark stmts ≡ []
    unfolding register_level
    register_level-mark analysis core signals levels h = collect-none mark _ (
        All-map_run (register_level analysis core signals) (λ s. mark s ≡ []) levels h
          (λ level stmt e.
            let (rt, e1, h1) = >>=-eq-done (unwrap (get level signals.map)) _ e in
            subst (λ s. mark s ≡ []) (done-inj h1) (loud (range signals) level (rt_ident rt))))

    own-mark :
        (analysis : Analysis) (core : ℕ) (signals : Signals) (timer : Option TimerQueue)
        (levels : List ℕ) {stmts : List Stmt}
        → (elim timer [
          | none ↦ done []
          | some tq ↦
              if elem tq.priority levels
              then done []
              else map_run (register_level analysis core signals) (tq.priority ∷ [])
        ])
          ≡ done stmts
        → collect mark stmts ≡ []
    own-mark analysis core signals none levels h = ap (collect mark) (sym (done-inj h))
    own-mark analysis core signals (some tq) levels h =
        elim (Bool-cases (elem tq.priority levels)) [
          | inl there ↦
              ap (collect mark) (sym (done-inj (if_true (elem tq.priority levels) _ _ there h)))
          | inr absent ↦
              register_level-mark analysis core signals (tq.priority ∷ [])
                (if_false (elem tq.priority levels) _ _ absent h)
        ]

    register_core-mark :
        (analysis : Analysis) (receiver : ℕ × Map (Map (List Ident))) (stmts : List Stmt)
        → register_core analysis receiver ≡ done stmts
        → collect mark stmts ≡ []
    unfolding register_core
    register_core-mark analysis (core, dispatchers) stmts h =
        let (signals, e1, h1) = >>=-eq-done (unwrap (get core analysis.signals)) _ h in
        let (levels, e2, h2) =
          >>=-eq-done (map_run (register_level analysis core signals) (keys dispatchers)) _ h1 in
        let (own, e3, h3) =
          >>=-eq-done
            (elim (get core analysis.timer_queues) [
              | none ↦ done []
              | some tq ↦
                  if elem tq.priority (keys dispatchers)
                  then done []
                  else map_run (register_level analysis core signals) (tq.priority ∷ [])
            ])
            _ h2 in
        ap (collect mark) (sym (done-inj h3))
        ∙ collect-append mark levels own
        ∙ ap₂ (λ l r. l ++ r) (register_level-mark analysis core signals (keys dispatchers) e2)
            (own-mark analysis core signals (get core analysis.timer_queues) (keys dispatchers) e3)

    -- The statements before `init` have no mark at all.
    pub pre_init-unmarked :
        (app : App) (analysis : Analysis) {out : Output}
        → pre_init app analysis ≡ done out
        → collect mark out.stmts ≡ []
    pre_init-unmarked app analysis h =
        let (handlers, e, same) = pre_init-marks app analysis h in
        same
        ∙ flat_map_run-none (register_core analysis) mark (register_core-mark analysis)
            analysis.channels e
