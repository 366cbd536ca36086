-- ===== src/Macros/Codegen/Schedule/Served.antt =====
-- What holds of all items of macros/src/codegen/schedule.rs.
use mathlib.Core.List.{Memᴰ, append-nil}
use linux_rtfm.Base.{◌≡◌, refl, sym, ap, ◌∙◌, subst, false, List, [], ◌∷◌, collect, collect-snoc}
use linux_rtfm.Base.Run.{done, >>=-eq-done, done-inj}
use linux_rtfm.Macros.Ident.{Ident, schedule_ident}
use linux_rtfm.Macros.Syntax.{App, Context}
use linux_rtfm.Macros.Analyze.{Analysis}
use linux_rtfm.Macros.Codegen.Code.{ScheduleBody}
use linux_rtfm.Macros.Codegen.Shared.{
  DeclaredOnce, Shared, Shared-empty, Shared-cast, DeclaredOnce-Shared,
}
use linux_rtfm.Macros.Codegen.Spawn.{dequeue_of}
use linux_rtfm.Macros.Codegen.Schedule.{
  ScheduleItem, schedule_body, schedule_methods, schedule_from, schedule_items,
}
use linux_rtfm.Macros.Codegen.Schedule.Declared.{
  functions_of, calls_of, body_of, schedule_methods-Good,
}

module _ (app : App) (analysis : Analysis) (P : Context → Ident → Type 0) where
  abbrev Callers : List (Context × List Ident) → List Ident → Type 0
  Callers callers seen =
      (c : Context) (names : List Ident)
      → Memᴰ (c, names) callers
      → app.is_init c ≡ false
      → (n : Ident) → Memᴰ n names
      → Memᴰ n seen

  schedule_from-Shared :
      (callers : List (Context × List Ident)) (seen : List Ident) (items : List ScheduleItem)
      {out : List ScheduleItem}
      → ((c : Context) (names : List Ident)
          → Memᴰ (c, names) callers
          → app.is_init c ≡ false
          → (n : Ident) → Memᴰ n names
          → P c n)
      → schedule_from app analysis callers seen items ≡ done out
      → Shared schedule_ident
          (body_of app analysis)
          P
          seen
          (collect functions_of items)
          (collect calls_of items)
      → (after : List Ident) × Shared schedule_ident
          (body_of app analysis)
          P
          after
          (collect functions_of out)
          (collect calls_of out)
        × ((n : Ident) → Memᴰ n seen → Memᴰ n after)
        × Callers callers after
  unfolding schedule_from
  schedule_from-Shared [] seen items p h g = (
    seen,
    subst
        (λ l.
          Shared schedule_ident (body_of app analysis) P seen (collect functions_of l)
            (collect calls_of l))
        (done-inj h) g,
    λ n m. m,
    λ c names m. elim m [ ],
  )
  schedule_from-Shared ((scheduler, []) ∷ callers) seen items p h g =
      let (after, g1, keep, all) =
        schedule_from-Shared callers seen items (λ c names m. p c names (Memᴰ.tail m)) h g in
      (
        after,
        g1,
        keep,
        λ c names m other n mn. elim m [
          | Memᴰ.head e ↦
              elim (subst (λ l. Memᴰ n l) (ap (λ (x : Context × List Ident). x.1) e) mn) [ ]
          | Memᴰ.tail m ↦ all c names m other n mn
        ],
      )
  schedule_from-Shared ((scheduler, name ∷ names) ∷ callers) seen items p h g =
      let (s, hs, h1) =
        >>=-eq-done
          (schedule_methods app analysis scheduler (name ∷ names)
            (record { seen = seen; items = items; methods = [] }))
          _ h in
      let (g1, (keep, now)) =
        schedule_methods-Good app analysis P scheduler (name ∷ names)
          (record { seen = seen; items = items; methods = [] })
          (p scheduler (name ∷ names) (Memᴰ.head refl)) hs
          (Shared-cast schedule_ident (body_of app analysis) P refl
            (sym (append-nil (collect calls_of items))) g) in
      let (after, g2, keep2, all) =
        schedule_from-Shared callers s.seen _ (λ c names m. p c names (Memᴰ.tail m)) h1
          (Shared-cast schedule_ident (body_of app analysis) P
            (sym (collect-snoc functions_of s.items _ ∙ append-nil (collect functions_of s.items)))
            (sym (collect-snoc calls_of s.items _)) g1) in
      (
        after,
        g2,
        λ n m. keep2 n (keep n m),
        λ c others m other n mn. elim m [
          | Memᴰ.head e ↦
              let ec : c ≡ scheduler = ap (λ (x : Context × List Ident). x.0) e in
              let en : others ≡ (name ∷ names) = ap (λ (x : Context × List Ident). x.1) e in
              keep2 n
                (now (subst (λ x. app.is_init x ≡ false) ec other) n (subst (λ l. Memᴰ n l) en mn))
          | Memᴰ.tail m ↦ all c others m other n mn
        ],
      )

module _ (app : App) (analysis : Analysis) where
  -- A caller outside `init`, with a task of its list.
  abbrev pub SchedulesTask : Context → Ident → Type 0
  SchedulesTask c name =
      (app.is_init c ≡ false)
      × (names : List Ident) × Memᴰ (c, names) app.schedule_callers
      × Memᴰ name names

  schedule_items-Shared :
      {items : List ScheduleItem}
      → schedule_items app analysis ≡ done items
      → (seen : List Ident) × Shared schedule_ident
          (body_of app analysis)
          SchedulesTask
          seen
          (collect functions_of items)
          (collect calls_of items)
        × ((n : Ident) → Memᴰ n [] → Memᴰ n seen)
        × Callers app analysis SchedulesTask app.schedule_callers seen
  unfolding schedule_items
  schedule_items-Shared h =
      schedule_from-Shared app analysis SchedulesTask app.schedule_callers [] []
        (λ c names m other n mn. (other, names, m, mn)) h
        (Shared-empty schedule_ident (body_of app analysis) SchedulesTask)

  -- Where the schedule functions are generated, no two of them have the same name, and every schedule
  -- method that calls a shared function calls one that is declared.
  pub schedule_items-DeclaredOnce :
      {items : List ScheduleItem}
      → schedule_items app analysis ≡ done items
      → DeclaredOnce (collect functions_of items) (collect calls_of items)
  schedule_items-DeclaredOnce h =
      let (seen, s, keep, all) = schedule_items-Shared h in
      DeclaredOnce-Shared schedule_ident (body_of app analysis) SchedulesTask s

  -- Callers that run on one core and are not `init` schedule a task by the same body.
  schedule_body_same :
      (c c' : Context) (name : Ident)
      → app.is_init c ≡ false
      → app.is_init c' ≡ false
      → app.core c ≡ app.core c'
      → schedule_body c name app analysis ≡ schedule_body c' name app analysis
  unfolding schedule_body dequeue_of
  schedule_body_same c c' name i i' same = rw (i, i', same) refl

  -- Where the schedule functions are generated, and all callers of a task outside `init` are on
  -- one core: for each such caller, the task's shared function is declared, and its body is the
  -- one that is generated for a schedule of the task by that caller.
  pub schedule_items-served :
      (c : Context) (name : Ident) {items : List ScheduleItem}
      → schedule_items app analysis ≡ done items
      → SchedulesTask c name
      → ((c' : Context) → SchedulesTask c' name → app.core c' ≡ app.core c)
      → (b : ScheduleBody) × (schedule_body c name app analysis ≡ done b)
        × Memᴰ (schedule_ident name, b) (collect functions_of items)
  schedule_items-served c name h (other, names, listed, inside) one_core =
      let (seen, s, keep, all) = schedule_items-Shared h in
      let (c', b, p, hb, made) = s.served name (all c names listed other name inside) in
      (b, schedule_body_same c c' name other p.0 (sym (one_core c' p)) ∙ hb, made)
