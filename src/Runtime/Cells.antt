-- ===== src/Runtime/Cells.antt =====
-- The shared cells of src/export.rs: `Barrier`, `Pid`, `Timer` and `Priority`. A spinning `wait` is
-- given what each of its loads reads, since other threads write the cell; `none` means that the
-- fuel ran out.
pub mod Waiting
use linux_rtfm.Base.{
  ℕ, zero, suc, ◌+◌, ◌<◌, ◌≤◌, ◌≡◌, Bool, true, false, Option, none, some, ◌==◌, if◌then◌else◌,
}

pub record Barrier : Type 0 where
  pub inner : Bool

unfoldable pub new_barrier : Barrier
new_barrier = record { inner = false }

unfoldable pub release : Barrier → Barrier
release b = record b { inner = true }

-- The loads of a waiting thread: `load n` is what the n-th one reads.
unfoldable pub wait_barrier : (load : ℕ → Barrier) → ℕ → ℕ → Option ℕ
wait_barrier load zero n = none
wait_barrier load (suc fuel) n =
    let spin = wait_barrier load fuel (suc n) in if (load n).inner then some n else spin

pub record Pid : Type 0 where
  pub inner : ℕ

unfoldable pub uninit_pid : Pid
uninit_pid = record { inner = 0 }

unfoldable pub get_pid : Pid → ℕ
get_pid p = p.inner

unfoldable pub init_pid : Pid → ℕ → Pid
init_pid p pid = record p { inner = pid }

-- Yields while the cell reads 0.
unfoldable pub wait_pid : (load : ℕ → Pid) → ℕ → ℕ → Option ℕ
wait_pid load zero n = none
wait_pid load (suc fuel) n =
    let spin = wait_pid load fuel (suc n) in
    let pid = (load n).inner in if pid == 0 then spin else some pid

pub record Timer : Type 0 where
  pub inner : ℕ

unfoldable pub uninit_timer : Timer
uninit_timer = record { inner = 0 }

unfoldable pub get_timer : Timer → ℕ
get_timer t = t.inner

unfoldable pub init_timer : Timer → ℕ → Timer
init_timer t timer = record t { inner = timer }

pub record Priority : Type 0 where
  pub inner : ℕ

unfoldable pub new_priority : ℕ → Priority
new_priority value = record { inner = value }

unfoldable pub set_priority : Priority → ℕ → Priority
set_priority p value = record p { inner = value }

unfoldable pub get_priority : Priority → ℕ
get_priority p = p.inner
