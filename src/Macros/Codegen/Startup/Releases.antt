-- ===== src/Macros/Codegen/Startup/Releases.antt =====
-- What the threads of macros/src/codegen.rs and childs.rs release, and what stands before.
use linux_rtfm.Macros.Codegen.Boot.Barriers.{released_0}
use mathlib.Core.List.{Memᴰ, append-nil}
use mathlib.Core.List.Memᴰ
use linux_rtfm.Base.{
  ℕ, ◌≡◌, refl, sym, ap, subst, Bool, true, false, none, List, [], ◌∷◌, ◌++◌, collect,
  collect-append, collect-map_none, map,
}
use linux_rtfm.Base.Run.{done}
use linux_rtfm.Base.Members.{mem-collect}
use linux_rtfm.Macros.Ident.{Ident, b_ident, tid_ident}
use linux_rtfm.Macros.Collect.{get, elem}
use linux_rtfm.Macros.Syntax.{App, Main}
use linux_rtfm.Macros.Analyze.{Analysis}
use linux_rtfm.Macros.Codegen.Code.{Stmt, wait_tid, write_late}
use linux_rtfm.Macros.Codegen.Boot.{all_senders}
use linux_rtfm.Macros.Codegen.Boot.{init_stmts, childs}
use linux_rtfm.Macros.Codegen.Boot.Marks.{Quiet, pre_init-unmarked}
use linux_rtfm.Macros.Codegen.Boot.Barriers.{
  released, lates, lates_of, wait_stmts, senders_of, child_stmts-barriers, post_init-barriers,
}
use linux_rtfm.Macros.Codegen.Functions.{Expansion, expansion, main_stmts, statement}
use linux_rtfm.Base.{Option, some, if◌then◌else◌}
use linux_rtfm.Macros.Codegen.Code.{loop_pause}
use linux_rtfm.Macros.Codegen.Startup.Programs.{call_idle_of-mark}
use linux_rtfm.Macros.Codegen.Startup.{fresh, boot, passed_by, programs, unmasked}
use linux_rtfm.Macros.Codegen.Startup.Invariant.{Inv}
use linux_rtfm.Macros.Codegen.Startup.Programs.{
  expansion-parts, childs-cores, before_release, call_init_of-mark,
}

released-Quiet : Quiet released
released-Quiet = record {
  runtime = λ _. refl;
  index = refl;
  fill = λ _ _. refl;
  tgid = refl;
  timer = λ _ _ _. refl;
  tid = λ _ _. refl;
  child = λ _. refl;
  affinity = λ _. refl;
}

unmasked-Quiet : Quiet unmasked
unmasked-Quiet = record {
  runtime = λ _. refl;
  index = refl;
  fill = λ _ _. refl;
  tgid = refl;
  timer = λ _ _ _. refl;
  tid = λ _ _. refl;
  child = λ _. refl;
  affinity = λ _. refl;
}

released_0-unmasked : (b : Bool) → collect unmasked (released_0 b) ≡ []
released_0-unmasked true = refl
released_0-unmasked false = refl

init_stmts-unmasked : (init : Option Main) → collect unmasked (init_stmts init) ≡ []
init_stmts-unmasked none = refl
init_stmts-unmasked (some main) = refl

fresh-programs :
    (childs : List (Ident × List Stmt))
    → programs (map (λ (child : Ident × List Stmt). (child.0, fresh child.1)) childs) ≡ childs
fresh-programs [] = refl
fresh-programs ((name, stmts) ∷ childs) = ap (λ l. (name, stmts) ∷ l) (fresh-programs childs)

pub boot-Inv : (e : Expansion) → Inv (main_stmts e) e.childs (boot e)
boot-Inv e = record {
  main_program = refl;
  child_programs = fresh-programs e.childs;
  returned = λ x m.
      elim (subst (Memᴰ x)
        (collect-map_none passed_by (λ (child : Ident × List Stmt). (child.0, fresh child.1))
          (λ _. refl) e.childs)
        m) [ ];
}

pub not-marked {ℓ} :
    {C : Type ℓ} (mark : Stmt → List C) {c : C} {x : Stmt} (xs : List Stmt)
    → collect mark xs ≡ []
    → Memᴰ c (mark x)
    → Memᴰ x xs
    → ⊥
not-marked mark {c} xs clear of m = elim (subst (Memᴰ c) clear (mem-collect mark m of)) [ ]

at_most_one : {b c : Ident} (t : Bool) → Memᴰ b (if t then c ∷ [] else []) → b ≡ c
at_most_one true m = Memᴰ.eq_of_singleton m
at_most_one false m = elim m [ ]

module _ (app : App) (analysis : Analysis) {e : Expansion}
    (made : expansion app analysis ≡ done e) where
  -- Before it has passed its barriers, a child does not let signals through.
  pub child-before :
      (core : ℕ)
      → collect unmasked (
          wait_tid (tid_ident core) ∷ init_stmts (get core app.inits)
          ++ lates analysis core
          ++ wait_stmts analysis core)
        ≡ []
  child-before core =
      rw
        (
          collect-append unmasked
              (wait_tid (tid_ident core) ∷ init_stmts (get core app.inits) ++ lates analysis core)
              (wait_stmts analysis core),
          collect-append unmasked (init_stmts (get core app.inits)) (lates analysis core),
          init_stmts-unmasked (get core app.inits),
          collect-map_none unmasked write_late (λ _. refl) (lates_of analysis core),
        )
        (collect-map_none unmasked _ (λ _. refl) (senders_of analysis core))

  -- A child's program releases nothing.
  pub child-released :
      (name : Ident) (stmts : List Stmt) → Memᴰ (name, stmts) e.childs → collect released stmts ≡ []
  unfolding childs
  child-released name stmts m =
      let (_, threads, _, _, _) = expansion-parts app analysis made in
      let (core, used, other, named, own) =
        childs-cores app analysis analysis.used_cores name stmts threads m in
      (child_stmts-barriers analysis app core own).0

  -- Before its release, `main` releases nothing.
  pub main-before : collect released (before_release app analysis e) ≡ []
  main-before =
      let (before, _, _, ci, _) = expansion-parts app analysis made in
      rw
        (
          collect-append released e.pre_init.stmts (statement e.call_init ++ lates analysis 0),
          collect-append released (statement e.call_init) (lates analysis 0),
          pre_init-unmarked released released-Quiet (λ _ _ _. refl) app analysis before,
          sym ci,
          call_init_of-mark released (λ _. refl) none app.inits refl,
        )
        (collect-map_none released write_late (λ _. refl) (lates_of analysis 0))

  -- All that `main` releases is the barrier of core 0.
  pub main-releases : (b : Ident) → Memᴰ b (collect released (main_stmts e)) → b ≡ b_ident 0
  unfolding main_stmts
  main-releases b m =
      let (before, _, after, ci, cl) = expansion-parts app analysis made in
      let idle_none : collect released (e.call_idle ∷ []) ≡ [] =
        ap (λ l. l ++ [])
          (subst (λ s. released s ≡ []) cl
            (call_idle_of-mark released (λ _. refl) loop_pause app.idles refl)) in
      let only : collect released (main_stmts e)
          ≡ (if elem 0 (all_senders analysis) then b_ident 0 ∷ [] else []) =
        rw
          (
            collect-append released e.pre_init.stmts
                (statement e.call_init ++ (e.post_init.stmts ++ e.call_idle ∷ [])),
            pre_init-unmarked released released-Quiet (λ _ _ _. refl) app analysis before,
            collect-append released (statement e.call_init) (e.post_init.stmts ++ e.call_idle ∷ []),
            sym ci,
            call_init_of-mark released (λ _. refl) none app.inits refl,
            collect-append released e.post_init.stmts (e.call_idle ∷ []),
            idle_none,
            (post_init-barriers analysis after).0,
          )
          (append-nil _) in
      at_most_one (elem 0 (all_senders analysis)) (subst (Memᴰ b) only m)

  -- Before it has passed its barriers, `main` does not let signals through.
  pub main-masked :
      collect unmasked (
        before_release app analysis e
        ++ (released_0 (elem 0 (all_senders analysis)) ++ wait_stmts analysis 0))
      ≡ []
  main-masked =
      let (before, _, _, ci, _) = expansion-parts app analysis made in
      rw
        (
          collect-append unmasked (before_release app analysis e)
              (released_0 (elem 0 (all_senders analysis)) ++ wait_stmts analysis 0),
          collect-append unmasked e.pre_init.stmts (statement e.call_init ++ lates analysis 0),
          collect-append unmasked (statement e.call_init) (lates analysis 0),
          pre_init-unmarked unmasked unmasked-Quiet (λ _ _ _. refl) app analysis before,
          sym ci,
          call_init_of-mark unmasked (λ _. refl) none app.inits refl,
          collect-map_none unmasked write_late (λ _. refl) (lates_of analysis 0),
          collect-append unmasked (released_0 (elem 0 (all_senders analysis)))
              (wait_stmts analysis 0),
          released_0-unmasked (elem 0 (all_senders analysis)),
        )
        (collect-map_none unmasked _ (λ _. refl) (senders_of analysis 0))
