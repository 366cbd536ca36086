-- ===== src/Macros/Codegen/Startup/Order.antt =====
-- The initialization barriers at run time: which threads of macros/src/codegen.rs and childs.rs pass
-- them, and when.
use linux_rtfm.Macros.Ident.Decimal.{b_ident_inj}
use mathlib.Core.List.{append_assoc}
use linux_rtfm.Macros.Collect.{elem}
use linux_rtfm.Macros.Codegen.Boot.{all_senders}
use linux_rtfm.Macros.Codegen.Boot.Barriers.{released_0, wait_stmts}
use linux_rtfm.Macros.Codegen.Startup.Releases.{main-masked}
use linux_rtfm.Base.{ap}
use mathlib.Core.List.{Memᴰ}
use mathlib.Core.List.Memᴰ
use linux_rtfm.Base.{ℕ, ◌≡◌, ◌≢◌, sym, ◌∙◌, subst, List, [], ◌∷◌, ◌++◌, collect, inl, inr}
use linux_rtfm.Base.Run.{done}
use linux_rtfm.Base.Members.{mem-collect, mem-collect_inv, passed-first}
use linux_rtfm.Runtime.Signals.{Range}
use linux_rtfm.Macros.Ident.{Ident, b_ident, tid_ident}
use linux_rtfm.Macros.Collect.{get}
use linux_rtfm.Macros.Collect.Names.{Memᴰ-elem_ident}
use linux_rtfm.Macros.Syntax.{App}
use linux_rtfm.Macros.Analyze.{Analysis}
use linux_rtfm.Macros.Codegen.Code.{Stmt, wait_tid, wait_barrier}
use linux_rtfm.Macros.Codegen.Boot.{init_stmts, idle_stmt, child_stmts}
use linux_rtfm.Macros.Codegen.Boot.Barriers.{released, lates, wait_stmts, senders_of}
use linux_rtfm.Macros.Codegen.Functions.{Expansion, expansion, main_stmts, statement}
use linux_rtfm.Macros.Codegen.Startup.{
  Thread, State, Reach, boot, history, passed_by, program, unmasked,
}
use linux_rtfm.Macros.Codegen.Startup.Invariant.{Inv, Reach-Inv}
use linux_rtfm.Macros.Codegen.Startup.Programs.{
  child_stmts-parts, main_stmts-parts, before_release, after_lates,
}
use linux_rtfm.Macros.Codegen.Startup.Releases.{
  boot-Inv, not-marked, child-released, child-before, main-before, main-releases,
}

module _ (app : App) (analysis : Analysis) {e : Expansion}
    (made : expansion app analysis ≡ done e) where
  module _ {n : ℕ} {s : State} (reached : Reach (boot e) n s) where
    inv : Inv (main_stmts e) e.childs s
    inv = Reach-Inv (main_stmts e) e.childs (boot-Inv e) reached

    -- What is released, `main` has released.
    released-by_main :
        (b : Ident)
        → Memᴰ b (collect released (history s))
        → (x : Stmt) × Memᴰ x s.main.passed × Memᴰ b (released x)
    released-by_main b m =
        let (x, inside, of) = mem-collect_inv released (history s) m in
        elim (Memᴰ.append_cases s.main.passed inside) [
          | inl here ↦ (x, here, of)
          | inr there ↦
              let ((name, t), listed, run) = mem-collect_inv passed_by s.childs there in
              let own : Memᴰ (name, program t) e.childs =
                subst (Memᴰ (name, program t)) inv.child_programs
                  (Memᴰ.map (λ (c : Ident × Thread). (c.0, program c.1)) listed) in
              absurd (
                not-marked released (program t)
                  ((child-released app analysis made) name (program t) own) of
                  (Memᴰ.append_left t.rest run))
        ]

    -- A thread that lets signals through has passed its barriers.
    child-waited :
        (core : ℕ) (t : Thread) (k : ℕ) (r : Range)
        → child_stmts app analysis core ≡ done (program t)
        → Memᴰ k (senders_of analysis core)
        → Memᴰ r (collect unmasked t.passed)
        → Memᴰ (wait_barrier (b_ident k)) t.passed
    child-waited core t k r own sender unm =
        let (unmask, hu, same) = child_stmts-parts app analysis core own in
        let before =
          wait_tid (tid_ident core) ∷ init_stmts (get core app.inits)
          ++ lates analysis core
          ++ wait_stmts analysis core in
        let (x, run, of) = mem-collect_inv unmasked t.passed unm in
        let (zs, passed) =
          passed-first t.passed t.rest before (unmask ∷ idle_stmt (get core app.idles) ∷ []) same
            run (not-marked unmasked before ((child-before app analysis made) core) of) in
        subst (Memᴰ (wait_barrier (b_ident k))) (sym passed) (
          Memᴰ.append_left zs (
            Memᴰ.append_right
              (wait_tid (tid_ident core) ∷ init_stmts (get core app.inits) ++ lates analysis core)
              (Memᴰ.map (λ k. wait_barrier (b_ident k)) sender)))

    -- `main` has run all that stands before its release, where anything is released.
    released-before :
        (b : Ident)
        → Memᴰ b (collect released (history s))
        → (zs : List Stmt) × (s.main.passed ≡ before_release app analysis e ++ zs)
    released-before b m =
        let (x, run, of) = released-by_main b m in
        let (unmask, hu, same) = main_stmts-parts app analysis made in
        passed-first s.main.passed s.main.rest (before_release app analysis e)
          (after_lates app analysis unmask e) (inv.main_program ∙ same) run
          (not-marked released (before_release app analysis e) (main-before app analysis made) of)

    -- A barrier that was passed is released.
    child-released_by :
        (core : ℕ) (name : Ident) (t : Thread) (k : ℕ) (r : Range)
        → Memᴰ (name, t) s.childs
        → child_stmts app analysis core ≡ done (program t)
        → Memᴰ k (senders_of analysis core)
        → Memᴰ r (collect unmasked t.passed)
        → Memᴰ (b_ident k) (collect released (history s))
    child-released_by core name t k r listed own sender unm =
        Memᴰ-elem_ident (b_ident k) (collect released (history s)) (
          inv.returned (wait_barrier (b_ident k)) (
            Memᴰ.append_right s.main.passed
              (mem-collect passed_by listed (child-waited core t k r own sender unm))))

    -- In every state that the start-up of a generated application reaches: where a thread that
    -- runs the function of a core that waits for core 0 has let its signals through, core 0 has
    -- called its `#[init]` function, and has written each late resource that it initializes.
    pub unmasked-late :
        (core : ℕ) (name : Ident) (t : Thread) (r : Range)
        → Memᴰ (name, t) s.childs
        → child_stmts app analysis core ≡ done (program t)
        → Memᴰ 0 (senders_of analysis core)
        → Memᴰ r (collect unmasked t.passed)
        → (stmt : Stmt) → Memᴰ stmt (statement e.call_init ++ lates analysis 0)
        → Memᴰ stmt s.main.passed
    unmasked-late core name t r listed own sender unm stmt m =
        let (zs, passed) =
          released-before (b_ident 0) (child-released_by core name t 0 r listed own sender unm) in
        subst (Memᴰ stmt) (sym passed) (Memᴰ.append_left zs (Memᴰ.append_right e.pre_init.stmts m))

    -- In every state that the start-up of a generated application reaches, a thread that runs the
    -- function of a core that waits for a core other than 0 has not let its signals through.
    pub unmasked-never :
        (core : ℕ) (name : Ident) (t : Thread) (k : ℕ) (r : Range)
        → Memᴰ (name, t) s.childs
        → child_stmts app analysis core ≡ done (program t)
        → Memᴰ k (senders_of analysis core)
        → k ≢ 0
        → ¬ Memᴰ r (collect unmasked t.passed)
    unmasked-never core name t k r listed own sender other unm =
        let (x, run, of) =
          released-by_main (b_ident k) (child-released_by core name t k r listed own sender unm) in
        other (
          b_ident_inj k 0 (
            (main-releases app analysis made) (b_ident k) (
              mem-collect released
                (subst (Memᴰ x) inv.main_program (Memᴰ.append_left s.main.rest run)) of)))

    -- In every state that the start-up of a generated application reaches, where core 0 waits for
    -- a core other than itself, its thread has not let its signals through.
    pub main-unmasked_never :
        (k : ℕ) (r : Range)
        → Memᴰ k (senders_of analysis 0)
        → k ≢ 0
        → ¬ Memᴰ r (collect unmasked s.main.passed)
    main-unmasked_never k r sender other unm =
        let (unmask, hu, same) = main_stmts-parts app analysis made in
        let before =
          before_release app analysis e
          ++ (released_0 (elem 0 (all_senders analysis)) ++ wait_stmts analysis 0) in
        let ends = unmask ∷ e.call_idle ∷ [] in
        let (x, run, of) = mem-collect_inv unmasked s.main.passed unm in
        let (zs, passed) =
          passed-first s.main.passed s.main.rest before ends
            (inv.main_program
              ∙ same
              ∙ ap (λ l. before_release app analysis e ++ l)
                  (sym (
                    append_assoc (released_0 (elem 0 (all_senders analysis)))
                      (wait_stmts analysis 0) ends))
              ∙ sym (
                  append_assoc (before_release app analysis e)
                    (released_0 (elem 0 (all_senders analysis)) ++ wait_stmts analysis 0) ends))
            run (not-marked unmasked before (main-masked app analysis made) of) in
        let waited : Memᴰ (wait_barrier (b_ident k)) s.main.passed =
          subst (Memᴰ (wait_barrier (b_ident k))) (sym passed) (
            Memᴰ.append_left zs (
              Memᴰ.append_right (before_release app analysis e) (
                Memᴰ.append_right (released_0 (elem 0 (all_senders analysis)))
                  (Memᴰ.map (λ k. wait_barrier (b_ident k)) sender)))) in
        let (y, ran, off) = released-by_main (b_ident k) (
          Memᴰ-elem_ident (b_ident k) (collect released (history s)) (
            inv.returned (wait_barrier (b_ident k))
              (Memᴰ.append_left (collect passed_by s.childs) waited))) in
        other (
          b_ident_inj k 0 (
            main-releases app analysis made (b_ident k) (
              mem-collect released
                (subst (Memᴰ y) inv.main_program (Memᴰ.append_left s.main.rest ran)) off)))
