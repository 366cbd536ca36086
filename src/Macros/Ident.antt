-- ===== src/Macros/Ident.antt =====
-- The identifiers that macros/src/codegen/util.rs makes by `format!`, as lists of code points.
pub mod Decimal
use Prim.Native.Char.{code}
use Prim.Native.String.{String}
use linux_rtfm.Base.{
  ℕ, ◌+◌, ◌/◌, ◌%◌, Bool, true, false, ◌&&◌, List, [], ◌∷◌, ◌++◌, ltb, ◌==◌, if◌then◌else◌,
}

abbrev pub Ident : Type 0
Ident = List ℕ

abbrev pub codes : String → Ident
codes String.[] = []
codes (String.◌∷◌ c s) = code c ∷ codes s

unfoldable pub eq_ident : Ident → Ident → Bool
eq_ident [] [] = true
eq_ident [] (y ∷ ys) = false
eq_ident (x ∷ xs) [] = false
eq_ident (x ∷ xs) (y ∷ ys) = x == y && eq_ident xs ys

-- `{}` of a `u8`
unfoldable pub decimal : ℕ → Ident
decimal n =
    if ltb n 10
    then (48 + n) ∷ []
    else if ltb n 100
    then (48 + n / 10) ∷ (48 + n % 10) ∷ []
    else (48 + n / 100) ∷ (48 + n / 10 % 10) ∷ (48 + n % 10) ∷ []

unfoldable pub inputs_ident : Ident → Ident
inputs_ident base = base ++ codes "_INPUTS"

unfoldable pub instants_ident : Ident → Ident
instants_ident base = base ++ codes "_INSTANTS"

unfoldable pub rt_ident : ℕ → Ident
unfolding decimal
rt_ident i = codes "RT" ++ decimal i

unfoldable pub schedule_ident : Ident → Ident
schedule_ident task = codes "schedule_" ++ task

unfoldable pub spawn_ident : Ident → Ident
spawn_ident task = codes "spawn_" ++ task

unfoldable pub timer_ident : ℕ → Ident
unfolding decimal
timer_ident sender = codes "TIMER" ++ decimal sender

unfoldable pub fq_ident : Ident → ℕ → Ident
unfolding decimal
fq_ident task sender = task ++ codes "_S" ++ decimal sender ++ codes "_FQ"

unfoldable pub tid_ident : ℕ → Ident
unfolding decimal
tid_ident core = codes "TID" ++ decimal core

unfoldable pub child_ident : ℕ → Ident
unfolding decimal
child_ident core = codes "child" ++ decimal core

unfoldable pub late_resources_ident : Ident → Ident
late_resources_ident init = init ++ codes "LateResources"

unfoldable pub b_ident : ℕ → Ident
unfolding decimal
b_ident core = codes "B" ++ decimal core

unfoldable pub spawn_t_ident : (receiver priority : ℕ) → Ident
unfolding decimal
spawn_t_ident receiver priority = codes "R" ++ decimal receiver ++ codes "_T" ++ decimal priority

unfoldable pub schedule_t_ident : ℕ → Ident
unfolding decimal
schedule_t_ident sender = codes "T" ++ decimal sender

unfoldable pub task_ident : Ident → ℕ → Ident
unfolding decimal
task_ident task sender = task ++ codes "_S" ++ decimal sender

unfoldable pub tq_ident : ℕ → Ident
unfolding decimal
tq_ident sender = codes "TQ" ++ decimal sender
