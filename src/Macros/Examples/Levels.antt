-- ===== src/Macros/Examples/Levels.antt =====
-- The signals of the application (macros/src/analyze.rs and check.rs).
use linux_rtfm.Base.{ℕ, ◌+◌, ◌≤◌, ◌<◌, ◌≡◌, ◌↔◌, refl, true, none, some, if◌then◌else◌, arith}
use mathlib.Core.Option.{bind}
use linux_rtfm.Macros.Collect.Sorted.{above}
use linux_rtfm.Runtime.Signals.{handler_signal}
use linux_rtfm.Macros.Collect.{get, elem, elem_ident, insert, collect_set, collect_map, insert_map}
use linux_rtfm.Macros.Analyze.{
  app_analysis, core_signals, range, priorities, task_priorities, zip_from, assign,
}
use linux_rtfm.Macros.Analyze.Ranks.{sum, count}
use linux_rtfm.Macros.Analyze.Assignment.{
  signal, total, start, signal_lem, signal-injective, signal-dense,
}
use linux_rtfm.Macros.Check.{
  app_check, ok, nsignals, check_names, levels, task_levels, timer_levels,
}
use linux_rtfm.Macros.Check.Enough.{app_check-signal-lt}
use linux_rtfm.Macros.Examples.{app, parent}

pub few : total app parent ≤ 255
unfolding sum priorities collect_set insert task_priorities get
few = omega arith

signal_lem_example : signal app parent 1 2 ≡ (
    if elem 2 (priorities app parent 1)
    then some (start app parent 1 + above 2 (priorities app parent 1))
    else none)
signal_lem_example = signal_lem app parent few 1 2 (omega arith)

signal_0 : signal app parent 0 1 ≡ some 0
unfolding signal app_analysis assign core_signals priorities collect_set insert task_priorities get
    zip_from collect_map insert_map bind
signal_0 = refl

signal_1 : signal app parent 1 1 ≡ some 2
unfolding signal app_analysis assign core_signals priorities collect_set insert task_priorities get
    zip_from collect_map insert_map bind
signal_1 = refl

signal_2 : signal app parent 1 2 ≡ some 1
unfolding signal app_analysis assign core_signals priorities collect_set insert task_priorities get
    zip_from collect_map insert_map bind
signal_2 = refl

signal-injective_example : (◌≡◌ {A = ℕ} 1 1) × (◌≡◌ {A = ℕ} 2 2)
signal-injective_example =
    signal-injective app parent few 1 1 2 2 1 (omega arith) (omega arith) signal_2 signal_2

levels_1 : (p : ℕ) → elem p (priorities app parent 1) ≡ true → p ≤ 255
unfolding priorities collect_set insert task_priorities get elem
levels_1 p h = ground arith

signal-dense_example :
    ((p : ℕ)
      → elem p (priorities app parent 1) ≡ true
      → signal app parent 1 p
        ≡ some (handler_signal (range (core_signals app parent 1 (start app parent 1))) p))
    ↔ ((p : ℕ) → elem p (priorities app parent 1) ≡ true → (1 ≤ p) × (p ≤ count app parent 1))
signal-dense_example = signal-dense app parent few 1 (omega arith) levels_1

pub checked : app_check app parent ≡ ok
unfolding app_check check_names elem_ident levels task_levels timer_levels collect_set insert
checked = refl

app_check-signal-lt_example : 1 < nsignals
app_check-signal-lt_example = app_check-signal-lt app parent 1 2 1 checked (omega arith) signal_2
