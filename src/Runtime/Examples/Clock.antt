-- ===== src/Runtime/Examples/Clock.antt =====
-- Instants of src/time.rs, and the waiting loops of src/export.rs.
use linux_rtfm.Runtime.Time.Trip.{checked_duration_since-checked_add}
use linux_rtfm.Base.{
  ℕ, zero, suc, ◌+◌, ◌-◌, ◌^◌, ◌≤◌, ◌<◌, ◌≡◌, ◌≢◌, ◌↔◌, ◌⊎◌, refl, none, some, ltb, if◌then◌else◌,
  arith, inl, inr,
}
use linux_rtfm.Base.Run.{done}
use linux_rtfm.Base.Int.{pos, wrap, ◌+ℤ◌}
use linux_rtfm.Runtime.Time.{
  Duration, checked_add_isize, try_from_u64, instant, partial_cmp, less, greater, equal,
  checked_add, nanos_in_one_sec, checked_duration_since, saturating_duration_since,
}
use linux_rtfm.Runtime.Time.Elapsed.{
  checked_add-some, checked_add-none, partial_cmp-elapsed, checked_duration_since-elapsed,
  saturating_duration_since-elapsed, IsNormal, elapsed, total, of_nanos,
}
use linux_rtfm.Runtime.Cells.{
  Barrier, release, new_barrier, wait_barrier, Pid, init_pid, uninit_pid,
}
use linux_rtfm.Runtime.Cells.Waiting.{wait_barrier-ends, FirstReleased}

abbrev one_second : Duration
one_second = record { secs = 1; nanos = 0 }

checked_add-some_example :
    (elapsed (instant (pos 4) (pos 7)) ≡ elapsed (instant (pos 3) (pos 7)) + total one_second)
    × (IsNormal (instant (pos 4) (pos 7)) ↔ (7 + 0 ≢ nanos_in_one_sec))
unfolding checked_add checked_add_isize try_from_u64 wrap ◌+ℤ◌
checked_add-some_example =
    checked_add-some (instant (pos 3) (pos 7)) (instant (pos 4) (pos 7)) one_second
      (refl, omega arith, refl, omega arith) (omega arith, omega arith) refl

checked_duration_since-checked_add_example :
    checked_duration_since (instant (pos 4) (pos 7)) (instant (pos 3) (pos 7))
    ≡ done (some one_second)
unfolding checked_add checked_add_isize try_from_u64 wrap ◌+ℤ◌
checked_duration_since-checked_add_example =
    checked_duration_since-checked_add (instant (pos 3) (pos 7)) (instant (pos 4) (pos 7))
      one_second (refl, omega arith, refl, omega arith) (omega arith, omega arith) refl

checked_add-none_example :
    (checked_add (instant (pos 3) (pos 7)) one_second ≡ none)
    ↔ (2 ^ 63 ≤ 3 + 1 + (if ltb nanos_in_one_sec (7 + 0) then 1 else 0))
checked_add-none_example =
    checked_add-none (instant (pos 3) (pos 7)) one_second (refl, omega arith, refl, omega arith)
      (omega arith, omega arith)

partial_cmp-elapsed_example :
    ((partial_cmp (instant (pos 3) (pos 7)) (instant (pos 4) (pos 0)) ≡ some less)
      ↔ (elapsed (instant (pos 3) (pos 7)) < elapsed (instant (pos 4) (pos 0))))
    × ((partial_cmp (instant (pos 3) (pos 7)) (instant (pos 4) (pos 0)) ≡ some greater)
        ↔ (elapsed (instant (pos 4) (pos 0)) < elapsed (instant (pos 3) (pos 7))))
    × ((partial_cmp (instant (pos 3) (pos 7)) (instant (pos 4) (pos 0)) ≡ some equal)
        ↔ (elapsed (instant (pos 3) (pos 7)) ≡ elapsed (instant (pos 4) (pos 0))))
partial_cmp-elapsed_example =
    partial_cmp-elapsed (instant (pos 3) (pos 7)) (instant (pos 4) (pos 0))
      (refl, omega arith, refl, omega arith) (refl, omega arith, refl, omega arith)

checked_duration_since_example :
    checked_duration_since (instant (pos 4) (pos 0)) (instant (pos 3) (pos 7)) ≡ (
      if ltb (elapsed (instant (pos 4) (pos 0))) (elapsed (instant (pos 3) (pos 7)))
      then done none
      else done
          (some (of_nanos (elapsed (instant (pos 4) (pos 0)) - elapsed (instant (pos 3) (pos 7))))))
checked_duration_since_example =
    checked_duration_since-elapsed (instant (pos 4) (pos 0)) (instant (pos 3) (pos 7))
      (refl, omega arith, refl, omega arith) (refl, omega arith, refl, omega arith)

saturating_duration_since_example :
    saturating_duration_since (instant (pos 3) (pos 7)) (instant (pos 4) (pos 0))
    ≡ done (of_nanos (elapsed (instant (pos 3) (pos 7)) - elapsed (instant (pos 4) (pos 0))))
saturating_duration_since_example =
    saturating_duration_since-elapsed (instant (pos 3) (pos 7)) (instant (pos 4) (pos 0))
      (refl, omega arith, refl, omega arith) (refl, omega arith, refl, omega arith)

-- The loads of a thread that waits: the second and later ones read what was written.
abbrev loads : ℕ → Barrier
loads zero = new_barrier
loads (suc n) = release new_barrier

abbrev pids : ℕ → Pid
pids zero = uninit_pid
pids (suc n) = init_pid uninit_pid 42

pids_cases : (i : ℕ) → (pids i ≡ uninit_pid) ⊎ (pids i ≡ init_pid uninit_pid 42)
pids_cases zero = inl refl
pids_cases (suc n) = inr refl

wait_barrier-ends_example :
    (r : ℕ) × (wait_barrier loads 2 0 ≡ some r) × FirstReleased loads 0 r × (r ≤ 1)
wait_barrier-ends_example =
    wait_barrier-ends loads new_barrier 1 2 0 refl (omega arith) (omega arith)
