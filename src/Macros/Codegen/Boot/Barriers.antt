-- ===== src/Macros/Codegen/Boot/Barriers.antt =====
-- The initialization barriers of macros/src/codegen/post_init.rs and childs.rs.
use mathlib.Core.List.{append-nil}
use linux_rtfm.Base.{
  ℕ, ◌≡◌, refl, sym, ap, ◌∙◌, subst, Bool, true, false, Option, none, some, List, [], ◌∷◌, ◌++◌,
  map, if◌then◌else◌, collect, collect-append, collect-map_none, collect-map_each,
}
use linux_rtfm.Base.Run.{done, >>=-eq-done, done-inj, unwrap}
use linux_rtfm.Macros.Ident.{Ident, b_ident, tid_ident}
use linux_rtfm.Macros.Collect.{get, elem}
use linux_rtfm.Macros.Syntax.{Main, App}
use linux_rtfm.Macros.Analyze.{Analysis}
use linux_rtfm.Runtime.Signals.{Range}
use linux_rtfm.Macros.Codegen.Code.{
  Stmt, Output, release_barrier, wait_barrier, write_late, mask, wait_tid,
}
use linux_rtfm.Macros.Codegen.Boot.{
  list_of, init_stmts, idle_stmt, all_senders, enable, post_init, child_stmts,
}

-- The barriers that statements release, and those that they wait for.
abbrev pub released : Stmt → List Ident
released (release_barrier b) = b ∷ []
released stmt = []

abbrev pub awaited : Stmt → List Ident
awaited (wait_barrier b) = b ∷ []
awaited stmt = []

-- The statements that `enable` and the ends of the threads emit, neither of which is a barrier's.
pub enable-eq-done :
    (analysis : Analysis) (core : ℕ) {stmt : Stmt} (mark : Stmt → List Ident)
    → ((r : Range) (current ceiling : ℕ) (block : Bool) → mark (mask r current ceiling block) ≡ [])
    → enable analysis core ≡ done stmt
    → mark stmt ≡ []
unfolding enable
enable-eq-done analysis core mark hm h =
    let (signals, e, h1) = >>=-eq-done (unwrap (get core analysis.signals)) _ h in
    subst (λ s. mark s ≡ []) (done-inj h1) (hm _ _ _ _)

pub idle_stmt-released : (idle : Option Main) → released (idle_stmt idle) ≡ []
idle_stmt-released none = refl
idle_stmt-released (some name) = refl

idle_stmt-awaited : (idle : Option Main) → awaited (idle_stmt idle) ≡ []
idle_stmt-awaited none = refl
idle_stmt-awaited (some name) = refl

init_stmts-released : (init : Option Main) → collect released (init_stmts init) ≡ []
init_stmts-released none = refl
init_stmts-released (some name) = refl

init_stmts-awaited : (init : Option Main) → collect awaited (init_stmts init) ≡ []
init_stmts-awaited none = refl
init_stmts-awaited (some name) = refl

-- The release of core 0's barrier, if there is one.
abbrev pub released_0 : Bool → List Stmt
released_0 b = if b then release_barrier (b_ident 0) ∷ [] else []

released_0-released :
    (b : Bool) → collect released (released_0 b) ≡ (if b then b_ident 0 ∷ [] else [])
released_0-released true = refl
released_0-released false = refl

released_0-awaited : (b : Bool) → collect awaited (released_0 b) ≡ []
released_0-awaited true = refl
released_0-awaited false = refl

-- Four parts, of which only those in the middle have marks.
marks-parts :
    (mark : Stmt → List Ident) (ws bs cs ds : List Stmt) (b c : List Ident)
    → collect mark ws ≡ []
    → collect mark bs ≡ b
    → collect mark cs ≡ c
    → collect mark ds ≡ []
    → collect mark (ws ++ bs ++ cs ++ ds) ≡ b ++ c
marks-parts mark ws bs cs ds b c ha hb hc hd =
    rw
      (
        collect-append mark (ws ++ bs ++ cs) ds,
        collect-append mark (ws ++ bs) cs,
        collect-append mark ws bs,
        ha,
        hb,
        hc,
        hd,
      )
      (append-nil _)

module _ (analysis : Analysis) where
  abbrev pub senders_of : ℕ → List ℕ
  senders_of core = list_of (get core analysis.initialization_barriers)

  abbrev pub lates_of : ℕ → List Ident
  lates_of core = list_of (get core analysis.late_resources)

  abbrev pub lates : ℕ → List Stmt
  lates core = map write_late (lates_of core)

  abbrev pub wait_stmts : ℕ → List Stmt
  wait_stmts core = map (λ sender. wait_barrier (b_ident sender)) (senders_of core)

  wait_stmts-awaited :
      (core : ℕ) → collect awaited (wait_stmts core) ≡ map b_ident (senders_of core)
  wait_stmts-awaited core = collect-map_each awaited _ b_ident (λ _. refl) (senders_of core)

  wait_stmts-released : (core : ℕ) → collect released (wait_stmts core) ≡ []
  wait_stmts-released core = collect-map_none released _ (λ _. refl) (senders_of core)

  post-released :
      (unmask : Stmt) (b : Bool)
      → released unmask ≡ []
      → collect released (lates 0 ++ released_0 b ++ wait_stmts 0 ++ unmask ∷ [])
        ≡ (if b then b_ident 0 ∷ [] else [])
  post-released unmask b h =
      marks-parts released (lates 0) (released_0 b) (wait_stmts 0) (unmask ∷ []) _ []
        (collect-map_none released write_late (λ _. refl) (lates_of 0)) (released_0-released b)
        (wait_stmts-released 0) (ap (λ l. l ++ []) h)
      ∙ append-nil _

  post-awaited :
      (unmask : Stmt) (b : Bool)
      → awaited unmask ≡ []
      → collect awaited (lates 0 ++ released_0 b ++ wait_stmts 0 ++ unmask ∷ [])
        ≡ map b_ident (senders_of 0)
  post-awaited unmask b h =
      marks-parts awaited (lates 0) (released_0 b) (wait_stmts 0) (unmask ∷ []) [] _
        (collect-map_none awaited write_late (λ _. refl) (lates_of 0)) (released_0-awaited b)
        (wait_stmts-awaited 0) (ap (λ l. l ++ []) h)

  -- Where the statements after `init` are generated, they release the barrier of core 0 once if
  -- some core waits for core 0, and release nothing else, and they wait for the barriers of just
  -- the cores that core 0 depends on, in their order.
  pub post_init-barriers :
      {out : Output}
      → post_init analysis ≡ done out
      → (collect released out.stmts
          ≡ (if elem 0 (all_senders analysis) then b_ident 0 ∷ [] else []))
        × (collect awaited out.stmts ≡ map b_ident (senders_of 0))
  unfolding post_init
  post_init-barriers {out} h =
      let (unmask, hu, h1) = >>=-eq-done (enable analysis 0) _ h in
      let r = enable-eq-done analysis 0 released (λ _ _ _ _. refl) hu in
      let a = enable-eq-done analysis 0 awaited (λ _ _ _ _. refl) hu in
      let e = done-inj h1 in
      (
        ap (λ o. collect released o.stmts) (sym e) ∙ post-released unmask _ r,
        ap (λ o. collect awaited o.stmts) (sym e) ∙ post-awaited unmask _ a,
      )

  -- The thread of a child core, where it is generated, releases no barrier, and waits for the
  -- barriers of just the cores that its core depends on, in their order.
  pub child_stmts-barriers :
      (app : App) (core : ℕ) {stmts : List Stmt}
      → child_stmts app analysis core ≡ done stmts
      → (collect released stmts ≡ []) × (collect awaited stmts ≡ map b_ident (senders_of core))
  unfolding child_stmts
  child_stmts-barriers app core {stmts} h =
      let (unmask, hu, h1) = >>=-eq-done (enable analysis core) _ h in
      let r = enable-eq-done analysis core released (λ _ _ _ _. refl) hu in
      let a = enable-eq-done analysis core awaited (λ _ _ _ _. refl) hu in
      let ends = unmask ∷ idle_stmt (get core app.idles) ∷ [] in
      let start = wait_tid (tid_ident core) ∷ init_stmts (get core app.inits) in
      let e = sym (done-inj h1) in
      (
        ap (collect released) e
            ∙ marks-parts released start (lates core) (wait_stmts core) ends [] []
                (init_stmts-released (get core app.inits))
                (collect-map_none released write_late (λ _. refl) (lates_of core))
                (wait_stmts-released core) (rw (r, idle_stmt-released) refl),
        ap (collect awaited) e
            ∙ marks-parts awaited start (lates core) (wait_stmts core) ends [] _
                (init_stmts-awaited (get core app.inits))
                (collect-map_none awaited write_late (λ _. refl) (lates_of core))
                (wait_stmts-awaited core) (rw (a, idle_stmt-awaited) refl),
      )
