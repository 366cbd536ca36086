-- ===== src/Macros/Codegen/Startup.antt =====
-- The start-up of an application as a machine: the threads of macros/src/codegen.rs (`main`) and of
-- macros/src/codegen/childs.rs run their statements in turns. A barrier lets a thread pass once it is
-- released, a thread id once it is written (src/export.rs), and a thread may run once its function
-- was handed to `spawn`. The machine has more runs than the program: `spawn` of src/export.rs ignores
-- the function that it is handed, and so does not yet see to it that the function runs, and where a
-- call of the operating system fails, its thread stops at that statement. A thread need not go on
-- here either, so that what holds in all states of the machine holds in those of the program.
pub mod Invariant
pub mod Programs
pub mod Releases
pub mod Order
pub mod Ready
use mathlib.Core.List.{Memᴰ}
use linux_rtfm.Base.{
  ℕ, zero, suc, ◌≡◌, Bool, true, false, Option, none, some, List, [], ◌∷◌, ◌++◌, map, collect,
}
use linux_rtfm.Runtime.Signals.{Range}
use linux_rtfm.Macros.Ident.{Ident}
use linux_rtfm.Macros.Collect.{elem_ident}
use linux_rtfm.Macros.Codegen.Code.{Stmt, mask, wait_barrier, wait_tid, init_tid, spawn_child}
use linux_rtfm.Macros.Codegen.Boot.Barriers.{released}
use linux_rtfm.Macros.Codegen.Functions.{Expansion, main_stmts}

-- The thread ids that a statement writes, the functions that it spawns, and the signals that it
-- lets through.
abbrev pub written : Stmt → List Ident
written (init_tid tid arg) = tid ∷ []
written stmt = []

abbrev pub spawned : Stmt → List Ident
spawned (spawn_child child) = child ∷ []
spawned stmt = []

abbrev pub unmasked : Stmt → List Range
unmasked (mask range current ceiling block) = range ∷ []
unmasked stmt = []

-- A thread by the statements that it has run, and those that it has not.
pub record Thread : Type 0 where
  pub passed : List Stmt
  pub rest : List Stmt

pub record State : Type 0 where
  pub main : Thread
  pub childs : List (Ident × Thread)

abbrev pub passed_by : Ident × Thread → List Stmt
passed_by (name, t) = t.passed

-- All statements that were run.
abbrev pub history : State → List Stmt
history s = s.main.passed ++ collect passed_by s.childs

-- Whether a statement returns, after a history.
abbrev pub returns : List Stmt → Stmt → Bool
returns h (wait_barrier b) = elem_ident b (collect released h)
returns h (wait_tid tid) = elem_ident tid (collect written h)
returns h stmt = true

abbrev pub advance : Thread → Stmt → List Stmt → Thread
advance t stmt rest = record { passed = t.passed ++ stmt ∷ []; rest = rest }

pub data Step : State → State → Type 0 where
  main_step :
      (s : State) (stmt : Stmt) (rest : List Stmt)
      → s.main.rest ≡ stmt ∷ rest
      → returns (history s) stmt ≡ true
      → Step s (record { main = advance s.main stmt rest; childs = s.childs })
  child_step :
      (s : State) (before after : List (Ident × Thread)) (name : Ident) (t : Thread) (stmt : Stmt)
      (rest : List Stmt)
      → s.childs ≡ before ++ (name, t) ∷ after
      → t.rest ≡ stmt ∷ rest
      → elem_ident name (collect spawned (history s)) ≡ true
      → returns (history s) stmt ≡ true
      → Step s (record { main = s.main; childs = before ++ (name, advance t stmt rest) ∷ after })

-- The states after a number of steps from a state.
pub data Reach (s : State) : ℕ → State → Type 0 where
  start : Reach s 0 s
  next : {n : ℕ} {t u : State} → Reach s n t → Step t u → Reach s (suc n) u

abbrev pub fresh : List Stmt → Thread
fresh stmts = record { passed = []; rest = stmts }

abbrev pub boot : Expansion → State
boot e = record {
  main = fresh (main_stmts e);
  childs = map (λ child. (child.0, fresh child.1)) e.childs;
}

abbrev pub program : Thread → List Stmt
program t = t.passed ++ t.rest

abbrev pub programs : List (Ident × Thread) → List (Ident × List Stmt)
programs childs = map (λ child. (child.0, program child.1)) childs
