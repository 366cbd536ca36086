-- ===== src/Macros/Codegen/Startup/Programs.antt =====
-- The statements of the threads (macros/src/codegen.rs, pre_init.rs, post_init.rs and childs.rs), taken
-- apart.
use mathlib.Core.List.{Memᴰ}
use mathlib.Core.List.Memᴰ
use linux_rtfm.Base.{
  ℕ, ◌≡◌, refl, sym, ap, ◌∙◌, subst, false, ◌==◌, List, [], ◌∷◌, ◌++◌, Bool-cases, inl, inr,
  if_false, if_true,
}
use linux_rtfm.Base.Run.{done, >>=-eq-done, done-inj, map_run, flat_map_run}
use linux_rtfm.Macros.Ident.{Ident, tid_ident, child_ident}
use linux_rtfm.Macros.Collect.{get, elem}
use linux_rtfm.Macros.Syntax.{App}
use linux_rtfm.Macros.Analyze.{Analysis}
use linux_rtfm.Macros.Codegen.Code.{Stmt, Output, wait_tid}
use linux_rtfm.Macros.Codegen.Boot.{
  init_stmts, idle_stmt, pre_init, post_init, child_stmts, child, childs, enable, all_senders,
}
use linux_rtfm.Macros.Codegen.Boot.Barriers.{lates, wait_stmts, released_0}
use linux_rtfm.Macros.Codegen.Statics.{resources}
use linux_rtfm.Macros.Codegen.Spawn.{spawn_items}
use linux_rtfm.Macros.Codegen.Schedule.{schedule_items}
use linux_rtfm.Macros.Codegen.Dispatch.{dispatchers, timer_queue_items}
use linux_rtfm.Macros.Syntax.{Main}
use mathlib.Core.List.{append_assoc}
use linux_rtfm.Base.{collect, none, some, Option, if◌then◌else◌}
use linux_rtfm.Macros.Codegen.Functions.{main_stmts}
use linux_rtfm.Macros.Codegen.Code.{call_init, call_idle, loop_pause}
use linux_rtfm.Macros.Codegen.Functions.{
  call_init_of, call_idle_of, statement, Expansion, expansion, init_items, idle_items, task_items,
}

module _ {C : Type 0} (mark : Stmt → List C) where
  -- The calls of the user's functions have no mark where such calls have none.
  pub call_init_of-mark :
      ((name : Ident) → mark (call_init name) ≡ [])
      → (old : Option Stmt) (inits : List (ℕ × Main)) → collect mark (statement old) ≡ []
      → collect mark (statement (call_init_of old inits)) ≡ []
  call_init_of-mark h old [] e = e
  call_init_of-mark h old ((core, main) ∷ inits) e =
      call_init_of-mark h (if core == 0 then some (call_init main.name) else old) inits
        (elim (Bool-cases (core == 0)) [
          | inl zeroth ↦ rw zeroth (ap (λ l. l ++ []) (h main.name))
          | inr other ↦ rw other e
        ])

  pub call_idle_of-mark :
      ((name : Ident) → mark (call_idle name) ≡ [])
      → (old : Stmt) (idles : List (ℕ × Main)) → mark old ≡ []
      → mark (call_idle_of old idles) ≡ []
  call_idle_of-mark h old [] e = e
  call_idle_of-mark h old ((core, main) ∷ idles) e =
      call_idle_of-mark h (if core == 0 then call_idle main.name else old) idles
        (elim (Bool-cases (core == 0)) [
          | inl zeroth ↦ rw zeroth (h main.name)
          | inr other ↦ rw other e
        ])

module _ (app : App) (analysis : Analysis) where
  pub expansion-parts :
      {e : Expansion}
      → expansion app analysis ≡ done e
      → (pre_init app analysis ≡ done e.pre_init)
        × (childs app analysis ≡ done e.childs)
        × (post_init analysis ≡ done e.post_init)
        × (call_init_of none app.inits ≡ e.call_init)
        × (call_idle_of loop_pause app.idles ≡ e.call_idle)
  unfolding expansion
  expansion-parts h =
      let (before, e1, h1) = >>=-eq-done (pre_init app analysis) _ h in
      let (threads, e2, h2) = >>=-eq-done (childs app analysis) _ h1 in
      let (inits, e3, h3) = >>=-eq-done (map_run (init_items app analysis) app.inits) _ h2 in
      let (after, e4, h4) = >>=-eq-done (post_init analysis) _ h3 in
      let (idles, e5, h5) = >>=-eq-done (map_run (idle_items app analysis) app.idles) _ h4 in
      let (statics, e6, h6) = >>=-eq-done (resources analysis) _ h5 in
      let (tasks, e7, h7) =
        >>=-eq-done (map_run (task_items app analysis) app.software_tasks) _ h6 in
      let (handlers, e8, h8) = >>=-eq-done (dispatchers app analysis) _ h7 in
      let (spawns, e9, h9) = >>=-eq-done (spawn_items app analysis) _ h8 in
      let (queues, e10, h10) = >>=-eq-done (timer_queue_items analysis) _ h9 in
      let (schedules, e11, h11) = >>=-eq-done (schedule_items app analysis) _ h10 in
      let same = done-inj h11 in
      (
        e1 ∙ ap (λ (e : Expansion). done e.pre_init) same,
        e2 ∙ ap (λ (e : Expansion). done e.childs) same,
        e4 ∙ ap (λ (e : Expansion). done e.post_init) same,
        ap (λ (e : Expansion). e.call_init) same,
        ap (λ (e : Expansion). e.call_idle) same,
      )

  -- What core 0 runs after `init`.
  pub post_init-parts :
      {out : Output}
      → post_init analysis ≡ done out
      → (unmask : Stmt) × (enable analysis 0 ≡ done unmask)
        × (out.stmts
            ≡ lates analysis 0
              ++ released_0 (elem 0 (all_senders analysis))
              ++ wait_stmts analysis 0
              ++ unmask ∷ [])
  unfolding post_init
  post_init-parts h =
      let (unmask, e, h1) = >>=-eq-done (enable analysis 0) _ h in
      (unmask, e, ap (λ (o : Output). o.stmts) (sym (done-inj h1)))

  -- What the thread of another core runs.
  pub child_stmts-parts :
      (core : ℕ) {stmts : List Stmt}
      → child_stmts app analysis core ≡ done stmts
      → (unmask : Stmt) × (enable analysis core ≡ done unmask)
        × (stmts
            ≡ wait_tid (tid_ident core) ∷ init_stmts (get core app.inits)
              ++ lates analysis core
              ++ wait_stmts analysis core
              ++ unmask ∷ idle_stmt (get core app.idles) ∷ [])
  unfolding child_stmts
  child_stmts-parts core h =
      let (unmask, e, h1) = >>=-eq-done (enable analysis core) _ h in (unmask, e, sym (done-inj h1))

  -- The functions of the threads are those of the cores in use but core 0.
  pub childs-cores :
      (cores : List ℕ) {threads : List (Ident × List Stmt)} (name : Ident) (stmts : List Stmt)
      → flat_map_run (child app analysis) cores ≡ done threads
      → Memᴰ (name, stmts) threads
      → (core : ℕ) × Memᴰ core cores
        × ((core == 0) ≡ false)
        × (name ≡ child_ident core)
        × (child_stmts app analysis core ≡ done stmts)
  unfolding child
  childs-cores [] name stmts h m = elim (subst (Memᴰ (name, stmts)) (sym (done-inj h)) m) [ ]
  childs-cores (core ∷ cores) {threads} name stmts h m =
      let (here, e1, h1) = >>=-eq-done (child app analysis core) _ h in
      let (there, e2, h2) = >>=-eq-done (flat_map_run (child app analysis) cores) _ h1 in
      elim (Memᴰ.append_cases here (subst (Memᴰ (name, stmts)) (sym (done-inj h2)) m)) [
        | inl w ↦ elim (Bool-cases (core == 0)) [
          | inl zeroth ↦
              elim (subst (Memᴰ (name, stmts)) (sym (done-inj (if_true (core == 0) _ _ zeroth e1)))
                w) [ ]
          | inr other ↦
              let (own, e3, h3) =
                >>=-eq-done (child_stmts app analysis core) _ (if_false (core == 0) _ _ other e1) in
              let same = Memᴰ.eq_of_singleton (subst (Memᴰ (name, stmts)) (sym (done-inj h3)) w) in
              (
                core,
                Memᴰ.head refl,
                other,
                ap (λ (p : Ident × List Stmt). p.0) same,
                e3 ∙ ap (λ (p : Ident × List Stmt). done p.1) (sym same),
              )
        ]
        | inr w ↦
            let (c, inside, other, named, own) = childs-cores cores name stmts e2 w in
            (c, Memᴰ.tail inside, other, named, own)
      ]

  -- What `main` runs before the barrier of core 0 is released, and from there on.
  abbrev pub before_release : Expansion → List Stmt
  before_release e = e.pre_init.stmts ++ (statement e.call_init ++ lates analysis 0)

  abbrev pub after_lates : Stmt → Expansion → List Stmt
  after_lates unmask e =
      released_0 (elem 0 (all_senders analysis))
      ++ (wait_stmts analysis 0 ++ unmask ∷ e.call_idle ∷ [])

  pub main_stmts-parts :
      {e : Expansion}
      → expansion app analysis ≡ done e
      → (unmask : Stmt) × (enable analysis 0 ≡ done unmask)
        × (main_stmts e ≡ before_release e ++ after_lates unmask e)
  unfolding main_stmts
  main_stmts-parts {e} h =
      let (made, threads, after, ci, cl) = expansion-parts h in
      let (unmask, hu, same) = post_init-parts after in
      let rel = released_0 (elem 0 (all_senders analysis)) in
      (
        unmask,
        hu,
        rw
            (
              same,
              append_assoc (lates analysis 0 ++ rel ++ wait_stmts analysis 0) (unmask ∷ [])
                  (e.call_idle ∷ []),
              append_assoc (lates analysis 0 ++ rel) (wait_stmts analysis 0)
                  (unmask ∷ e.call_idle ∷ []),
              append_assoc (lates analysis 0) rel
                  (wait_stmts analysis 0 ++ unmask ∷ e.call_idle ∷ []),
              append_assoc e.pre_init.stmts (statement e.call_init ++ lates analysis 0)
                  (rel ++ (wait_stmts analysis 0 ++ unmask ∷ e.call_idle ∷ [])),
              append_assoc (statement e.call_init) (lates analysis 0)
                  (rel ++ (wait_stmts analysis 0 ++ unmask ∷ e.call_idle ∷ [])),
            )
            refl,
      )
