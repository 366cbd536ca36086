-- ===== src/Macros/Check.antt =====
-- macros/src/check.rs: names of `#[init]` and `#[idle]` functions are not used twice, and there are
-- enough real-time signals.
pub mod Enough
use linux_rtfm.Base.{
  ℕ, Bool, true, false, ◌&&◌, ◌||◌, List, [], ◌∷◌, ◌++◌, map, length, ltb, ◌==◌, if◌then◌else◌,
}
use linux_rtfm.Macros.Ident.{Ident}
use linux_rtfm.Macros.Collect.{Map, elem_ident, collect_set}
use linux_rtfm.Macros.Syntax.{Main, App, Parent, SoftwareTask, TimerQueue}

-- Linux 5.0 only supports 32 real time signals
abbrev pub nsignals : ℕ
nsignals = 32

pub data Verdict : Type 0 where
  ok : Verdict
  name_in_use : (name : Ident) → Verdict
  not_enough_signals : Verdict

-- The loop over the names, `seen` being those above: the first that was seen before, if any.
unfoldable pub check_names : List Ident → List Ident → Verdict
unfolding elem_ident
check_names seen [] = ok
check_names seen (name ∷ names) =
    let rest = check_names (name ∷ seen) names in
    if elem_ident name seen then name_in_use name else rest

abbrev names : Map Main → List Ident
names [] = []
names ((core, main) ∷ rest) = main.name ∷ names rest

-- `(Core, u8)` as the standard library orders it.
abbrev pub pair_lt : ℕ × ℕ → ℕ × ℕ → Bool
pair_lt (c, p) (d, q) = ltb c d || (c == d && ltb p q)

unfoldable pub task_levels : List (Ident × SoftwareTask) → List (ℕ × ℕ)
task_levels [] = []
task_levels ((name, task) ∷ rest) = (task.core, task.priority) ∷ task_levels rest

unfoldable pub timer_levels : Map TimerQueue → List (ℕ × ℕ)
timer_levels [] = []
timer_levels ((core, tq) ∷ rest) = (core, tq.priority) ∷ timer_levels rest

-- Every pair of a core and a priority that wants a signal.
unfoldable pub levels : App → Parent → List (ℕ × ℕ)
unfolding task_levels timer_levels collect_set
levels app parent =
    collect_set pair_lt (task_levels app.software_tasks ++ timer_levels parent.timer_queues)

unfoldable pub app_check : App → Parent → Verdict
unfolding check_names levels
app_check app parent = elim (check_names [] (names app.inits ++ names app.idles)) [
  | ok ↦ if ltb nsignals (length (levels app parent)) then not_enough_signals else ok
  | name_in_use name ↦ name_in_use name
  | not_enough_signals ↦ not_enough_signals
]
