-- ===== src/Macros/Analyze.antt =====
-- macros/src/analyze.rs: each priority level of each core gets a real-time signal.
pub mod Ranks
pub mod Assignment
use linux_rtfm.Base.{
  ℕ, zero, suc, ◌%◌, ◌^◌, Bool, Option, none, some, List, [], ◌∷◌, ◌++◌, reverse, length, ltb, ◌==◌,
  if◌then◌else◌,
}
use linux_rtfm.Base.Bits.{u8_add}
use linux_rtfm.Runtime.Signals.{Range}
use linux_rtfm.Macros.Ident.{Ident}
use linux_rtfm.Macros.Collect.{Map, get, collect_set, collect_map}
use linux_rtfm.Macros.Syntax.{App, Parent, SoftwareTask, TimerQueue}

pub record Signals : Type 0 where
  pub map : Map ℕ
  pub start : ℕ

pub record Analysis : Type 0 where
  pub parent : Parent
  pub open parent use *
  pub signals : Map Signals

-- `Signals::range`
unfoldable pub range : Signals → Range
range s = record { start = s.start; end = u8_add s.start (length s.map % 2 ^ 8) }

-- The priorities of a core's tasks, in the order of the tasks.
unfoldable pub task_priorities : ℕ → List (Ident × SoftwareTask) → List ℕ
task_priorities core [] = []
task_priorities core ((name, task) ∷ rest) =
    let others = task_priorities core rest in
    if task.core == core then task.priority ∷ others else others

-- The priority of the timer handler, where the core has one.
abbrev pub timer_priorities : Option TimerQueue → List ℕ
timer_priorities none = []
timer_priorities (some tq) = tq.priority ∷ []

-- NOTE the timer handler may be higher priority than all the other tasks
unfoldable pub priorities : App → Parent → ℕ → List ℕ
unfolding task_priorities collect_set get
priorities app parent core =
    collect_set ltb
      (task_priorities core app.software_tasks ++ timer_priorities (get core parent.timer_queues))

-- `.zip(rt..)`
unfoldable pub zip_from : List ℕ → ℕ → List (ℕ × ℕ)
zip_from [] rt = []
zip_from (p ∷ ps) rt = (p, rt) ∷ zip_from ps (u8_add rt 1)

-- The highest priority of the core gets the signal `rt`, and so on down.
unfoldable pub core_signals : App → Parent → (core rt : ℕ) → Signals
unfolding priorities zip_from collect_map
core_signals app parent core rt = record {
  map = collect_map [] (zip_from (reverse (priorities app parent core)) rt);
  start = rt;
}

-- The loop over the cores from `core`, of which `left` are left.
unfoldable pub assign : App → Parent → (left core rt : ℕ) → Map Signals
unfolding core_signals
assign app parent zero core rt = []
assign app parent (suc left) core rt =
    let signals = core_signals app parent core rt in
    (core, signals) ∷ assign app parent left (suc core) (u8_add rt (length signals.map % 2 ^ 8))

unfoldable pub app_analysis : Parent → App → Analysis
unfolding assign
app_analysis parent app = record { parent = parent; signals = assign app parent app.cores 0 0 }
