-- ===== src/Macros/Codegen/Schedule/Declared.antt =====
-- The loop over a scheduler's tasks in macros/src/codegen/schedule.rs, and the functions that are shared.
use mathlib.Core.List.{Memᴰ, append_assoc, append-nil}
use mathlib.Core.Bool.{false≢true}
use linux_rtfm.Base.{if_true, if_false}
use linux_rtfm.Base.{
  ◌≡◌, refl, sym, ap, ◌∙◌, subst, false, List, [], ◌∷◌, ◌++◌, collect, collect-snoc, Bool-cases,
  inl, inr,
}
use linux_rtfm.Base.Run.{Run, done, >>=-eq-done, done-inj, unwrap}
use linux_rtfm.Macros.Ident.{Ident, schedule_ident}
use linux_rtfm.Macros.Collect.{find, elem_ident}
use linux_rtfm.Macros.Collect.Names.{Memᴰ-elem_ident}
use linux_rtfm.Macros.Syntax.{App, Context, SoftwareTask}
use linux_rtfm.Macros.Analyze.{Analysis}
use linux_rtfm.Macros.Codegen.Code.{ScheduleBody}
use linux_rtfm.Macros.Codegen.Shared.{Shared, Shared-cast, Shared-call, Shared-add}
use linux_rtfm.Macros.Codegen.Schedule.{
  ScheduleItem, schedule_fn, schedule_impl, ScheduleMethod, init_method, call_method, Schedules,
  schedule_body, add_schedule, schedule_method, schedule_methods,
}

-- The shared functions among the items, and the names that the methods call.
abbrev pub functions_of : ScheduleItem → List (Ident × ScheduleBody)
functions_of (schedule_fn schedule inputs body) = (schedule, body) ∷ []
functions_of (schedule_impl lt scheduler methods) = []

abbrev pub calls_by : ScheduleMethod → List Ident
calls_by (init_method name inputs body) = []
calls_by (call_method name inputs schedule) = schedule ∷ []

abbrev pub calls_of : ScheduleItem → List Ident
calls_of (schedule_fn schedule inputs body) = []
calls_of (schedule_impl lt scheduler methods) = collect calls_by methods

schedule_ident_inj : (x y : Ident) → schedule_ident x ≡ schedule_ident y → x ≡ y
unfolding schedule_ident
schedule_ident_inj x y h = cc

abbrev pub body_of : App → Analysis → Context → Ident → Run ScheduleBody
body_of app analysis c name = schedule_body c name app analysis

module _ (app : App) (analysis : Analysis) (P : Context → Ident → Type 0) where
  abbrev pub Good : Schedules → Type 0
  Good s =
      Shared schedule_ident (body_of app analysis) P s.seen (collect functions_of s.items)
        (collect calls_of s.items ++ collect calls_by s.methods)

  -- After a step for a task of a scheduler: what was done stays done, and the task is, but in `init`.
  abbrev pub After : Context → List Ident → (before after : List Ident) → Type 0
  After scheduler names before after =
      ((n : Ident) → Memᴰ n before → Memᴰ n after)
      × (app.is_init scheduler ≡ false → (n : Ident) → Memᴰ n names → Memᴰ n after)

  add_schedule-Good :
      (scheduler : Context) (name : Ident) (schedulee : SoftwareTask) (s : Schedules)
      {s' : Schedules}
      → P scheduler name
      → add_schedule app analysis scheduler name schedulee s ≡ done s'
      → Good s
      → Good s' × ((n : Ident) → Memᴰ n s.seen → Memᴰ n s'.seen) × Memᴰ name s'.seen
  unfolding add_schedule
  add_schedule-Good scheduler name schedulee s {s'} p h g =
      elim (Bool-cases (elem_ident name s.seen)) [
        | inl there ↦
            let e : s ≡ s' = done-inj (rw there at h) in
            (
              subst Good e g,
              λ n m. subst (λ (t : Schedules). Memᴰ n t.seen) e m,
              subst (λ (t : Schedules). Memᴰ name t.seen) e (Memᴰ-elem_ident name s.seen there),
            )
        | inr new ↦
            let (body, hb, h1) =
              >>=-eq-done (schedule_body scheduler name app analysis) _ (rw new at h) in
            let e = done-inj h1 in
            let grown =
              Shared-add schedule_ident (body_of app analysis) P schedule_ident_inj scheduler name
                body new p hb g in
            (
              subst Good e (
                  Shared-cast schedule_ident (body_of app analysis) P
                    (sym (collect-snoc functions_of s.items _))
                    (ap (λ l. l ++ collect calls_by s.methods)
                      (sym
                        (collect-snoc calls_of s.items _ ∙ append-nil (collect calls_of s.items))))
                    grown),
              λ n m. subst (λ (t : Schedules). Memᴰ n t.seen) e (Memᴰ.tail m),
              subst (λ (t : Schedules). Memᴰ name t.seen) e (Memᴰ.head refl),
            )
      ]

  schedule_method-Good :
      (scheduler : Context) (name : Ident) (s : Schedules) {s' : Schedules}
      → (app.is_init scheduler ≡ false → P scheduler name)
      → schedule_method app analysis scheduler name s ≡ done s'
      → Good s
      → Good s'
        × ((n : Ident) → Memᴰ n s.seen → Memᴰ n s'.seen)
        × (app.is_init scheduler ≡ false → Memᴰ name s'.seen)
  unfolding schedule_method
  schedule_method-Good scheduler name s {s'} p h g =
      let (schedulee, e, h1) = >>=-eq-done (unwrap (find name app.software_tasks)) _ h in
      elim (Bool-cases (app.is_init scheduler)) [
        | inl init ↦
            let (body, hb, h2) =
              >>=-eq-done (schedule_body scheduler name app analysis) _
                (if_true (app.is_init scheduler) _ _ init h1) in
            let same = done-inj h2 in
            (
              subst Good same (
                  Shared-cast schedule_ident (body_of app analysis) P refl
                    (ap (λ l. collect calls_of s.items ++ l)
                      (sym (
                        collect-snoc calls_by s.methods _
                        ∙ append-nil (collect calls_by s.methods))))
                    g),
              λ n m. subst (λ (t : Schedules). Memᴰ n t.seen) same m,
              λ other. absurd (false≢true (sym other ∙ init)),
            )
        | inr other ↦
            let (t, ht, h2) =
              >>=-eq-done (add_schedule app analysis scheduler name schedulee s) _
                (if_false (app.is_init scheduler) _ _ other h1) in
            let (g', keep, now) = add_schedule-Good scheduler name schedulee s (p other) ht g in
            let same = done-inj h2 in
            (
              subst Good same (
                  Shared-cast schedule_ident (body_of app analysis) P refl
                    (append_assoc (collect calls_of t.items) (collect calls_by t.methods) _
                      ∙ ap (λ l. collect calls_of t.items ++ l)
                          (sym (collect-snoc calls_by t.methods _)))
                    (Shared-call schedule_ident (body_of app analysis) P name now g')),
              λ n m. subst (λ (t : Schedules). Memᴰ n t.seen) same (keep n m),
              λ _. subst (λ (t : Schedules). Memᴰ name t.seen) same now,
            )
      ]

  pub schedule_methods-Good :
      (scheduler : Context) (names : List Ident) (s : Schedules) {s' : Schedules}
      → (app.is_init scheduler ≡ false → (n : Ident) → Memᴰ n names → P scheduler n)
      → schedule_methods app analysis scheduler names s ≡ done s'
      → Good s
      → Good s' × After scheduler names s.seen s'.seen
  unfolding schedule_methods
  schedule_methods-Good scheduler [] s p h g =
      let e = done-inj h in
      (
        subst Good e g,
        (λ n m. subst (λ (t : Schedules). Memᴰ n t.seen) e m, λ other n m. elim m [ ]),
      )
  schedule_methods-Good scheduler (name ∷ names) s {s'} p h g =
      let (t, ht, h1) = >>=-eq-done (schedule_method app analysis scheduler name s) _ h in
      let (g1, keep, now) =
        schedule_method-Good scheduler name s (λ other. p other name (Memᴰ.head refl)) ht g in
      let (g2, (keep2, now2)) =
        schedule_methods-Good scheduler names t (λ other n m. p other n (Memᴰ.tail m)) h1 g1 in
      (
        g2,
        (
          λ n m. keep2 n (keep n m),
          λ other n m. elim m [
            | Memᴰ.head e ↦ keep2 n (subst (λ x. Memᴰ x t.seen) (sym e) (now other))
            | Memᴰ.tail m ↦ now2 other n m
          ],
        ),
      )
