-- ===== src/Macros/Codegen/Spawn/Served.antt =====
-- What holds of all items of macros/src/codegen/spawn.rs.
use mathlib.Core.List.{Memᴰ, append-nil}
use linux_rtfm.Base.{◌≡◌, refl, sym, ap, ◌∙◌, subst, false, List, [], ◌∷◌, collect, collect-snoc}
use linux_rtfm.Base.Run.{done, >>=-eq-done, done-inj}
use linux_rtfm.Macros.Ident.{Ident, spawn_ident}
use linux_rtfm.Macros.Syntax.{App, Context}
use linux_rtfm.Macros.Analyze.{Analysis}
use linux_rtfm.Macros.Codegen.Code.{SpawnBody}
use linux_rtfm.Macros.Codegen.Shared.{
  DeclaredOnce, Shared, Shared-empty, Shared-cast, DeclaredOnce-Shared,
}
use linux_rtfm.Macros.Codegen.Spawn.{
  SpawnItem, spawn_body, spawn_methods, spawn_from, spawn_items, dequeue_of,
}
use linux_rtfm.Macros.Codegen.Spawn.Declared.{functions_of, calls_of, body_of, spawn_methods-Good}

module _ (app : App) (analysis : Analysis) (P : Context → Ident → Type 0) where
  abbrev Callers : List (Context × List Ident) → List Ident → Type 0
  Callers callers seen =
      (c : Context) (names : List Ident)
      → Memᴰ (c, names) callers
      → app.is_init c ≡ false
      → (n : Ident) → Memᴰ n names
      → Memᴰ n seen

  spawn_from-Shared :
      (callers : List (Context × List Ident)) (seen : List Ident) (items : List SpawnItem)
      {out : List SpawnItem}
      → ((c : Context) (names : List Ident)
          → Memᴰ (c, names) callers
          → app.is_init c ≡ false
          → (n : Ident) → Memᴰ n names
          → P c n)
      → spawn_from app analysis callers seen items ≡ done out
      → Shared spawn_ident
          (body_of app analysis)
          P
          seen
          (collect functions_of items)
          (collect calls_of items)
      → (after : List Ident) × Shared spawn_ident
          (body_of app analysis)
          P
          after
          (collect functions_of out)
          (collect calls_of out)
        × ((n : Ident) → Memᴰ n seen → Memᴰ n after)
        × Callers callers after
  unfolding spawn_from
  spawn_from-Shared [] seen items p h g = (
    seen,
    subst
        (λ l.
          Shared spawn_ident (body_of app analysis) P seen (collect functions_of l)
            (collect calls_of l))
        (done-inj h) g,
    λ n m. m,
    λ c names m. elim m [ ],
  )
  spawn_from-Shared ((spawner, spawnees) ∷ callers) seen items p h g =
      let (s, hs, h1) =
        >>=-eq-done
          (spawn_methods app analysis spawner spawnees
            (record { seen = seen; items = items; methods = [] }))
          _ h in
      let (g1, (keep, now)) =
        spawn_methods-Good app analysis P spawner spawnees
          (record { seen = seen; items = items; methods = [] })
          (p spawner spawnees (Memᴰ.head refl)) hs
          (Shared-cast spawn_ident (body_of app analysis) P refl
            (sym (append-nil (collect calls_of items))) g) in
      let (after, g2, keep2, all) =
        spawn_from-Shared callers s.seen _ (λ c names m. p c names (Memᴰ.tail m)) h1
          (Shared-cast spawn_ident (body_of app analysis) P
            (sym (collect-snoc functions_of s.items _ ∙ append-nil (collect functions_of s.items)))
            (sym (collect-snoc calls_of s.items _)) g1) in
      (
        after,
        g2,
        λ n m. keep2 n (keep n m),
        λ c names m other n mn. elim m [
          | Memᴰ.head e ↦
              let ec : c ≡ spawner = ap (λ (x : Context × List Ident). x.0) e in
              let en : names ≡ spawnees = ap (λ (x : Context × List Ident). x.1) e in
              keep2 n
                (now (subst (λ x. app.is_init x ≡ false) ec other) n (subst (λ l. Memᴰ n l) en mn))
          | Memᴰ.tail m ↦ all c names m other n mn
        ],
      )

module _ (app : App) (analysis : Analysis) where
  -- A caller outside `init`, with a task of its list.
  abbrev pub SpawnsTask : Context → Ident → Type 0
  SpawnsTask c name =
      (app.is_init c ≡ false)
      × (names : List Ident) × Memᴰ (c, names) app.spawn_callers
      × Memᴰ name names

  spawn_items-Shared :
      {items : List SpawnItem}
      → spawn_items app analysis ≡ done items
      → (seen : List Ident) × Shared spawn_ident
          (body_of app analysis)
          SpawnsTask
          seen
          (collect functions_of items)
          (collect calls_of items)
        × ((n : Ident) → Memᴰ n [] → Memᴰ n seen)
        × Callers app analysis SpawnsTask app.spawn_callers seen
  unfolding spawn_items
  spawn_items-Shared h =
      spawn_from-Shared app analysis SpawnsTask app.spawn_callers [] []
        (λ c names m other n mn. (other, names, m, mn)) h
        (Shared-empty spawn_ident (body_of app analysis) SpawnsTask)

  -- Where the spawn functions are generated, no two of them have the same name, and every spawn
  -- method that calls a shared function calls one that is declared.
  pub spawn_items-DeclaredOnce :
      {items : List SpawnItem}
      → spawn_items app analysis ≡ done items
      → DeclaredOnce (collect functions_of items) (collect calls_of items)
  spawn_items-DeclaredOnce h =
      let (seen, s, keep, all) = spawn_items-Shared h in
      DeclaredOnce-Shared spawn_ident (body_of app analysis) SpawnsTask s

  -- Callers that run on one core and are not `init` spawn a task by the same body.
  spawn_body_same :
      (c c' : Context) (name : Ident)
      → app.is_init c ≡ false
      → app.is_init c' ≡ false
      → app.core c ≡ app.core c'
      → spawn_body c name app analysis ≡ spawn_body c' name app analysis
  unfolding spawn_body dequeue_of
  spawn_body_same c c' name i i' same = rw (i, i', same) refl

  -- Where the spawn functions are generated, and all callers of a task outside `init` are on one
  -- core: for each such caller, the task's shared function is declared, and its body is the one
  -- that is generated for a spawn of the task by that caller.
  pub spawn_items-served :
      (c : Context) (name : Ident) {items : List SpawnItem}
      → spawn_items app analysis ≡ done items
      → SpawnsTask c name
      → ((c' : Context) → SpawnsTask c' name → app.core c' ≡ app.core c)
      → (b : SpawnBody) × (spawn_body c name app analysis ≡ done b)
        × Memᴰ (spawn_ident name, b) (collect functions_of items)
  spawn_items-served c name h (other, names, listed, inside) one_core =
      let (seen, s, keep, all) = spawn_items-Shared h in
      let (c', b, p, hb, made) = s.served name (all c names listed other name inside) in
      (b, spawn_body_same c c' name other p.0 (sym (one_core c' p)) ∙ hb, made)
