-- ===== src/Macros/Check/Enough.antt =====
-- An application that passes macros/src/check.rs has a real-time signal for each of its levels, so
-- the signal numbers of macros/src/analyze.rs do not wrap.
use linux_rtfm.Base.{
  ℕ, zero, suc, ◌+◌, ◌≤◌, ◌<◌, ◌≡◌, refl, ap, sym, ◌∙◌, Bool, true, false, ◌&&◌, ◌||◌, some, List,
  [], ◌∷◌, ◌++◌, length, ◌==◌, ==_iff, if◌then◌else◌, arith,
}
use linux_rtfm.Macros.Ident.{Ident}
use linux_rtfm.Macros.Collect.{Map, insert, collect_set, elem, get}
use linux_rtfm.Macros.Collect.Sorted.{Asc, elem-append, elem-collect_set, elem-All}
use linux_rtfm.Macros.Syntax.{App, Parent, SoftwareTask, TimerQueue}
use linux_rtfm.Macros.Analyze.{priorities, task_priorities, timer_priorities}
use linux_rtfm.Macros.Analyze.Ranks.{sum, priorities-Asc}
use linux_rtfm.Macros.Analyze.Assignment.{total, signal, signal-range}
use linux_rtfm.Macros.Check.{ok, pair_lt, task_levels, timer_levels, levels, app_check, nsignals}

-- The priorities that a list of levels has on a core.
on_core : ℕ → List (ℕ × ℕ) → List ℕ
on_core c [] = []
on_core c ((d, p) ∷ xs) = let rest = on_core c xs in if d == c then p ∷ rest else rest

elem-on_core-insert :
    (c p d q : ℕ) (xs : List (ℕ × ℕ))
    → elem p (on_core c (insert pair_lt (d, q) xs)) ≡ ((d == c && q == p) || elem p (on_core c xs))
unfolding insert elem on_core
elem-on_core-insert c p d q [] = ground arith
elem-on_core-insert c p d q ((e, r) ∷ xs) = ground (arith, elem-on_core-insert c p d q xs)

elem-on_core-collect_set :
    (c p : ℕ) (xs : List (ℕ × ℕ))
    → elem p (on_core c (collect_set pair_lt xs)) ≡ elem p (on_core c xs)
unfolding collect_set elem on_core
elem-on_core-collect_set c p [] = refl
elem-on_core-collect_set c p ((d, q) ∷ xs) =
    elem-on_core-insert c p d q (collect_set pair_lt xs)
    ∙ ground (arith, elem-on_core-collect_set c p xs)

elem-on_core-append :
    (c p : ℕ) (xs ys : List (ℕ × ℕ))
    → elem p (on_core c (xs ++ ys)) ≡ (elem p (on_core c xs) || elem p (on_core c ys))
unfolding elem on_core
elem-on_core-append c p [] ys = refl
elem-on_core-append c p ((d, q) ∷ xs) ys = ground (arith, elem-on_core-append c p xs ys)

on_core-task_levels :
    (c : ℕ) (tasks : List (Ident × SoftwareTask))
    → on_core c (task_levels tasks) ≡ task_priorities c tasks
unfolding on_core task_levels task_priorities
on_core-task_levels c [] = refl
on_core-task_levels c ((name, task) ∷ rest) = rw (on_core-task_levels c rest)

elem-timer_levels :
    (c p : ℕ) (tqs : Map TimerQueue)
    → elem p (timer_priorities (get c tqs)) ≡ true
    → elem p (on_core c (timer_levels tqs)) ≡ true
unfolding elem on_core timer_levels get
elem-timer_levels c p [] h = h
elem-timer_levels c p ((d, tq) ∷ rest) h = ground (arith, elem-timer_levels c p rest)

either : (a b c : Bool) → (b ≡ true → c ≡ true) → (a || b) ≡ true → (a || c) ≡ true
either true b c f h = refl
either false b c f h = f h

module _ (app : App) (parent : Parent) where
  -- Each level of a core is among the levels that the check counts.
  elem-levels :
      (c p : ℕ)
      → elem p (priorities app parent c) ≡ true
      → elem p (on_core c (levels app parent)) ≡ true
  unfolding priorities levels
  elem-levels c p h =
      let tasks = task_levels app.software_tasks in
      let timers = timer_levels parent.timer_queues in
      elem-on_core-collect_set c p (tasks ++ timers)
      ∙ elem-on_core-append c p tasks timers
      ∙ ap (λ ps. elem p ps || elem p (on_core c timers)) (on_core-task_levels c app.software_tasks)
      ∙ either (elem p (task_priorities c app.software_tasks)) _ _
          (elem-timer_levels c p parent.timer_queues)
          (sym (elem-append p (task_priorities c app.software_tasks) _)
            ∙ sym (
                elem-collect_set p (
                  task_priorities c app.software_tasks
                  ++ timer_priorities (get c parent.timer_queues)))
            ∙ h)

remove : ℕ → List ℕ → List ℕ
remove x [] = []
remove x (y ∷ ys) = let rest = remove x ys in if y == x then ys else y ∷ rest

remove_lem :
    (x p : ℕ) (ys : List ℕ)
    → (elem x ys ≡ true → length ys ≡ suc (length (remove x ys)))
      × ((x == p) ≡ false → elem p (remove x ys) ≡ elem p ys)
unfolding remove elem
remove_lem x p [] = (λ e. cc, λ _. refl)
remove_lem x p (y ∷ ys) = ground (arith, remove_lem x p ys)

-- Distinct numbers that are all in a list are no more than the list has.
Asc-length-le :
    (ps ys : List ℕ)
    → Asc ps
    → ((p : ℕ) → elem p ps ≡ true → elem p ys ≡ true)
    → length ps ≤ length ys
unfolding elem
Asc-length-le [] ys a h = omega arith
Asc-length-le (x ∷ ps) ys a h =
    let within : (p : ℕ) → elem p ps ≡ true → elem p (remove x ys) ≡ true = λ p held.
      let over = elem-All (λ y. x < y) p ps held a.0 in
      (remove_lem x p ys).1 (ground arith) ∙ h p (ground arith) in
    omega (
      arith,
      (remove_lem x x ys).0 (h x (ground (arith, ==_iff x x))),
      Asc-length-le ps (remove x ys) a.1 within,
    )

sum_on : List (ℕ × ℕ) → (n core : ℕ) → ℕ
sum_on xs zero core = 0
sum_on xs (suc n) core = length (on_core core xs) + sum_on xs n (suc core)

sum_on_above :
    (d q : ℕ) (xs : List (ℕ × ℕ)) (n core : ℕ)
    → d < core
    → sum_on ((d, q) ∷ xs) n core ≡ sum_on xs n core
unfolding sum_on on_core
sum_on_above d q xs zero core h = refl
sum_on_above d q xs (suc n) core h = ground (arith, sum_on_above d q xs n (suc core))

sum_on-cons :
    (d q : ℕ) (xs : List (ℕ × ℕ)) (n core : ℕ)
    → sum_on ((d, q) ∷ xs) n core ≤ suc (sum_on xs n core)
unfolding sum_on on_core
sum_on-cons d q xs zero core = omega arith
sum_on-cons d q xs (suc n) core =
    ground (arith, sum_on-cons d q xs n (suc core), sum_on_above d q xs n (suc core))

sum_on-le : (xs : List (ℕ × ℕ)) (n core : ℕ) → sum_on xs n core ≤ length xs
unfolding sum_on on_core
sum_on-le [] zero core = omega arith
sum_on-le [] (suc n) core = omega (arith, sum_on-le [] n (suc core))
sum_on-le ((d, q) ∷ xs) n core = omega (arith, sum_on-cons d q xs n core, sum_on-le xs n core)

module _ (app : App) (parent : Parent) where
  sum-sum_on : (n core : ℕ) → sum app parent n core ≤ sum_on (levels app parent) n core
  unfolding sum sum_on
  sum-sum_on zero core = omega arith
  sum-sum_on (suc n) core = omega (
    arith,
    sum-sum_on n (suc core),
    Asc-length-le (priorities app parent core) (on_core core (levels app parent))
        (priorities-Asc app parent core) (elem-levels app parent core),
  )

  pub total-le-levels : total app parent ≤ length (levels app parent)
  total-le-levels = omega (arith, sum-sum_on app.cores 0, sum_on-le (levels app parent) app.cores 0)

  -- Passing the check bounds the signals by the 32 that there are.
  pub app_check-total : app_check app parent ≡ ok → total app parent ≤ nsignals
  unfolding app_check
  app_check-total h = ground (arith, total-le-levels)

  -- If an application passes the check, the signal of any level of a core that exists is below
  -- 32.
  pub app_check-signal-lt :
      (core p s : ℕ)
      → app_check app parent ≡ ok
      → core < app.cores
      → signal app parent core p ≡ some s
      → s < nsignals
  app_check-signal-lt core p s passed h e =
      let few = app_check-total passed in
      omega (arith, signal-range app parent (omega arith) core p s h e)
