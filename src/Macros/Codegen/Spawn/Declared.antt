-- ===== src/Macros/Codegen/Spawn/Declared.antt =====
-- The loop over a spawner's tasks in macros/src/codegen/spawn.rs, and the functions that are shared.
use mathlib.Core.List.{Memᴰ, append_assoc, append-nil}
use mathlib.Core.Bool.{false≢true}
use linux_rtfm.Base.{
  ◌≡◌, refl, sym, ap, ◌∙◌, subst, false, List, [], ◌∷◌, ◌++◌, collect, collect-snoc, Bool-cases,
  inl, inr,
}
use linux_rtfm.Base.Run.{Run, done, >>=-eq-done, done-inj, unwrap}
use linux_rtfm.Macros.Ident.{Ident, spawn_ident}
use linux_rtfm.Macros.Collect.{find, elem_ident}
use linux_rtfm.Macros.Collect.Names.{Memᴰ-elem_ident}
use linux_rtfm.Macros.Syntax.{App, Context, SoftwareTask}
use linux_rtfm.Macros.Analyze.{Analysis}
use linux_rtfm.Macros.Codegen.Code.{SpawnBody}
use linux_rtfm.Macros.Codegen.Shared.{Shared, Shared-cast, Shared-call, Shared-add}
use linux_rtfm.Macros.Codegen.Spawn.{
  SpawnItem, spawn_fn, spawn_impl, SpawnMethod, init_method, call_method, Spawns, spawn_body,
  add_spawn, spawn_method, spawn_methods,
}

-- The shared functions among the items, and the names that the methods call.
abbrev pub functions_of : SpawnItem → List (Ident × SpawnBody)
functions_of (spawn_fn spawn instant inputs body) = (spawn, body) ∷ []
functions_of (spawn_impl lt spawner methods) = []

abbrev pub calls_by : SpawnMethod → List Ident
calls_by (init_method name inputs let_instant body) = []
calls_by (call_method name inputs instant spawn) = spawn ∷ []

abbrev pub calls_of : SpawnItem → List Ident
calls_of (spawn_fn spawn instant inputs body) = []
calls_of (spawn_impl lt spawner methods) = collect calls_by methods

spawn_ident_inj : (x y : Ident) → spawn_ident x ≡ spawn_ident y → x ≡ y
unfolding spawn_ident
spawn_ident_inj x y h = cc

abbrev pub body_of : App → Analysis → Context → Ident → Run SpawnBody
body_of app analysis c name = spawn_body c name app analysis

module _ (app : App) (analysis : Analysis) (P : Context → Ident → Type 0) where
  abbrev pub Good : Spawns → Type 0
  Good s =
      Shared spawn_ident (body_of app analysis) P s.seen (collect functions_of s.items)
        (collect calls_of s.items ++ collect calls_by s.methods)

  -- After a step for a task of a spawner: what was done stays done, and the task is, but in `init`.
  abbrev pub After : Context → List Ident → (before after : List Ident) → Type 0
  After spawner names before after =
      ((n : Ident) → Memᴰ n before → Memᴰ n after)
      × (app.is_init spawner ≡ false → (n : Ident) → Memᴰ n names → Memᴰ n after)

  add_spawn-Good :
      (spawner : Context) (name : Ident) (spawnee : SoftwareTask) (s : Spawns) {s' : Spawns}
      → P spawner name
      → add_spawn app analysis spawner name spawnee s ≡ done s'
      → Good s
      → Good s' × ((n : Ident) → Memᴰ n s.seen → Memᴰ n s'.seen) × Memᴰ name s'.seen
  unfolding add_spawn
  add_spawn-Good spawner name spawnee s {s'} p h g = elim (Bool-cases (elem_ident name s.seen)) [
    | inl there ↦
        let e : s ≡ s' = done-inj (rw there at h) in
        (
          subst Good e g,
          λ n m. subst (λ (t : Spawns). Memᴰ n t.seen) e m,
          subst (λ (t : Spawns). Memᴰ name t.seen) e (Memᴰ-elem_ident name s.seen there),
        )
    | inr new ↦
        let (body, hb, h1) = >>=-eq-done (spawn_body spawner name app analysis) _ (rw new at h) in
        let e = done-inj h1 in
        let grown =
          Shared-add spawn_ident (body_of app analysis) P spawn_ident_inj spawner name body new p hb
            g in
        (
          subst Good e (
              Shared-cast spawn_ident (body_of app analysis) P
                (sym (collect-snoc functions_of s.items _))
                (ap (λ l. l ++ collect calls_by s.methods)
                  (sym (collect-snoc calls_of s.items _ ∙ append-nil (collect calls_of s.items))))
                grown),
          λ n m. subst (λ (t : Spawns). Memᴰ n t.seen) e (Memᴰ.tail m),
          subst (λ (t : Spawns). Memᴰ name t.seen) e (Memᴰ.head refl),
        )
  ]

  spawn_method-Good :
      (spawner : Context) (name : Ident) (s : Spawns) {s' : Spawns}
      → (app.is_init spawner ≡ false → P spawner name)
      → spawn_method app analysis spawner name s ≡ done s'
      → Good s
      → Good s'
        × ((n : Ident) → Memᴰ n s.seen → Memᴰ n s'.seen)
        × (app.is_init spawner ≡ false → Memᴰ name s'.seen)
  unfolding spawn_method
  spawn_method-Good spawner name s {s'} p h g =
      let (spawnee, e, h1) = >>=-eq-done (unwrap (find name app.software_tasks)) _ h in
      elim (Bool-cases (app.is_init spawner)) [
        | inl init ↦
            let (body, hb, h2) =
              >>=-eq-done (spawn_body spawner name app analysis) _ (rw init at h1) in
            let same = done-inj h2 in
            (
              subst Good same (
                  Shared-cast spawn_ident (body_of app analysis) P refl
                    (ap (λ l. collect calls_of s.items ++ l)
                      (sym (
                        collect-snoc calls_by s.methods _
                        ∙ append-nil (collect calls_by s.methods))))
                    g),
              λ n m. subst (λ (t : Spawns). Memᴰ n t.seen) same m,
              λ other. absurd (false≢true (sym other ∙ init)),
            )
        | inr other ↦
            let (t, ht, h2) =
              >>=-eq-done (add_spawn app analysis spawner name spawnee s) _ (rw other at h1) in
            let (g', keep, now) = add_spawn-Good spawner name spawnee s (p other) ht g in
            let same = done-inj h2 in
            (
              subst Good same (
                  Shared-cast spawn_ident (body_of app analysis) P refl
                    (append_assoc (collect calls_of t.items) (collect calls_by t.methods) _
                      ∙ ap (λ l. collect calls_of t.items ++ l)
                          (sym (collect-snoc calls_by t.methods _)))
                    (Shared-call spawn_ident (body_of app analysis) P name now g')),
              λ n m. subst (λ (t : Spawns). Memᴰ n t.seen) same (keep n m),
              λ _. subst (λ (t : Spawns). Memᴰ name t.seen) same now,
            )
      ]

  pub spawn_methods-Good :
      (spawner : Context) (names : List Ident) (s : Spawns) {s' : Spawns}
      → (app.is_init spawner ≡ false → (n : Ident) → Memᴰ n names → P spawner n)
      → spawn_methods app analysis spawner names s ≡ done s'
      → Good s
      → Good s' × After spawner names s.seen s'.seen
  unfolding spawn_methods
  spawn_methods-Good spawner [] s p h g =
      let e = done-inj h in
      (subst Good e g, (λ n m. subst (λ (t : Spawns). Memᴰ n t.seen) e m, λ other n m. elim m [ ]))
  spawn_methods-Good spawner (name ∷ names) s {s'} p h g =
      let (t, ht, h1) = >>=-eq-done (spawn_method app analysis spawner name s) _ h in
      let (g1, keep, now) =
        spawn_method-Good spawner name s (λ other. p other name (Memᴰ.head refl)) ht g in
      let (g2, (keep2, now2)) =
        spawn_methods-Good spawner names t (λ other n m. p other n (Memᴰ.tail m)) h1 g1 in
      (
        g2,
        (
          λ n m. keep2 n (keep n m),
          λ other n m. elim m [
            | Memᴰ.head e ↦ keep2 n (subst (λ x. Memᴰ x t.seen) (sym e) (now other))
            | Memᴰ.tail m ↦ now2 other n m
          ],
        ),
      )
