-- ===== src/Macros/Examples/Startup.antt =====
-- The start-up of the application (macros/src/codegen/pre_init.rs and childs.rs).
use mathlib.Core.List.Memᴰ
use mathlib.Core.Logic.{∥∥₁_elim}
use mathlib.Core.HLevel.{⊥_prop}
use mathlib.Core.List.{Nodup, Nodup-nil, Nodup-cons}
use linux_rtfm.Base.{ℕ, ◌≤◌, ◌<◌, true, sym, subst, ap, ◌∙◌, map, arith}
use linux_rtfm.Macros.Codegen.Dispatch.Distinct.{registered-distinct}
use linux_rtfm.Macros.Examples.{parent}
use linux_rtfm.Macros.Examples.Code.{analysis_lem}
use linux_rtfm.Macros.Examples.Levels.{few}
use mathlib.Core.List.{Memᴰ}
use linux_rtfm.Base.{some, ◌∷◌}
use linux_rtfm.Macros.Ident.{rt_ident}
use linux_rtfm.Macros.Collect.{find}
use linux_rtfm.Macros.Syntax.{software_task}
use linux_rtfm.Macros.Codegen.Dispatch.Reached.{bound, spawn_body-registered}
use linux_rtfm.Macros.Examples.{a_name, b_name, task_b}
use linux_rtfm.Macros.Examples.Code.{body, body_lem}
use linux_rtfm.Base.{◌≡◌, refl, [], collect, List}
use linux_rtfm.Base.Run.{Run, done, panic}
use linux_rtfm.Macros.Collect
use linux_rtfm.Macros.Ident.{eq_ident}
use linux_rtfm.Macros.Analyze.{Analysis, range, priorities, task_priorities}
use linux_rtfm.Macros.Analyze.Ranks.{count}
use linux_rtfm.Macros.Collect.{elem, get, insert, collect_set}
use linux_rtfm.Macros.Codegen.Spawn.{spawn_body}
use linux_rtfm.Macros.Codegen.Code.{Output}
use linux_rtfm.Macros.Codegen.Boot
use linux_rtfm.Macros.Codegen.Boot.{pre_init}
use linux_rtfm.Macros.Codegen.Dispatch
use linux_rtfm.Macros.Codegen.Spawn
use linux_rtfm.Macros.Codegen.Dispatch.{DispatchItem, dispatchers}
use linux_rtfm.Macros.Codegen.Dispatch.Registered.{registered, emitted, pre_init-dispatchers}
use linux_rtfm.Macros.Examples.{app}
use linux_rtfm.Macros.Examples.Code.{analysis}

-- What a generator gives, the default where it panics.
abbrev pub result_or {ℓ} : {A : Type ℓ} → A → Run A → A
result_or d (done r) = r
result_or d panic = d

abbrev before : Output
before = result_or (record { const_app = []; stmts = [] }) (pre_init app analysis)

before_lem : pre_init app analysis ≡ done before
unfolding Boot.pre_init Boot.maximum Boot.concat_values Boot.fill_queues Boot.timer_0
    Boot.register_level Boot.register_core Boot.signal_of Boot.timer_of Boot.start_thread
    Boot.thread_statics Boot.tgid_name Collect.get Collect.find Collect.elem eq_ident range
before_lem = refl

abbrev handlers : List DispatchItem
handlers = result_or [] (dispatchers app analysis)

handlers_lem : dispatchers app analysis ≡ done handlers
unfolding Dispatch.timer_arm Dispatch.timer_body Dispatch.arm Dispatch.channel_arms
    Dispatch.timer_at Dispatch.dispatcher Dispatch.separate_timer Dispatch.dispatch_core
    Dispatch.dispatchers Boot.signal_of Spawn.thread_of Spawn.instants_of Collect.get Collect.find
    Collect.elem eq_ident
handlers_lem = refl

pre_init-dispatchers_example : collect registered before.stmts ≡ collect emitted handlers
pre_init-dispatchers_example = pre_init-dispatchers app analysis before_lem handlers_lem

b_known : find b_name app.software_tasks ≡ some task_b
unfolding find eq_ident
b_known = refl

gapless_1 : (p : ℕ) → elem p (priorities app parent 1) ≡ true → (1 ≤ p) × (p ≤ count app parent 1)
unfolding priorities collect_set insert task_priorities get elem
gapless_1 p h = ground arith

spawn_body-registered_example :
    Memᴰ (body.enqueue.signo, 2, rt_ident body.enqueue.signo) (collect bound before.stmts)
spawn_body-registered_example =
    spawn_body-registered app parent few (software_task a_name) b_name
      ((2, (0, b_name ∷ []) ∷ []) ∷ []) ((0, b_name ∷ []) ∷ []) b_known (omega arith) gapless_1
      (subst (λ (s : Analysis). Memᴰ (1, (2, (0, b_name ∷ []) ∷ []) ∷ []) s.channels)
        (sym analysis_lem) (Memᴰ.tail (Memᴰ.head refl)))
      (Memᴰ.head refl) (ap (spawn_body (software_task a_name) b_name app) analysis_lem ∙ body_lem)
      (ap (pre_init app) analysis_lem ∙ before_lem)

cores_exist : (c : ℕ) → Memᴰ c (0 ∷ 1 ∷ []) → c < 2
cores_exist c m = elim m [
  | Memᴰ.head e ↦ let same : c ≡ 0 = e in omega (arith, same)
  | Memᴰ.tail m ↦ let same : c ≡ 1 = Memᴰ.eq_of_singleton m in omega (arith, same)
]

one_distinct : (x : ℕ) → Nodup (x ∷ [])
one_distinct x = Nodup-cons.1 (λ m. ∥∥₁_elim m ⊥_prop (λ w. elim w [ ]), Nodup-nil)

two_distinct : Nodup {A = ℕ} (0 ∷ 1 ∷ [])
two_distinct = Nodup-cons.1 (
  λ m. ∥∥₁_elim m ⊥_prop (λ w. let e : 0 ≡ 1 = Memᴰ.eq_of_singleton w in omega (arith, e)),
  one_distinct 1,
)

registered-distinct_example : Nodup (map (λ e. e.1) (collect registered before.stmts))
registered-distinct_example =
    registered-distinct app parent few cores_exist two_distinct
      (one_distinct 1, (one_distinct 2, tt)) (ap (pre_init app) analysis_lem ∙ before_lem)
