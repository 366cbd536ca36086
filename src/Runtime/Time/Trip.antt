-- ===== src/Runtime/Time/Trip.antt =====
-- Sums of src/time.rs and differences undo each other.
use linux_rtfm.Base.{
  ℕ, ◌+◌, ◌-◌, ◌^◌, ◌≤◌, ◌<◌, ◌≡◌, ap, ap₂, ◌∙◌, Bool-cases, inl, inr, some, false, ltb, ◌==◌,
  arith,
}
use linux_rtfm.Base.Run.{done, ◌>>=◌}
use linux_rtfm.Base.Int.{pos, pos_part, as_u64}
use linux_rtfm.Runtime.Time.{
  Instant, Duration, nanos_in_one_sec, lt, checked_add, checked_duration_since, instant, difference,
}
use linux_rtfm.Runtime.Time.Elapsed.{
  IsNormal, IsDuration, elapsed, total, wrap_sub, new_duration-small, checked_add-whole,
  normal-instant, of_nanos, checked_add-some, checked_duration_since-elapsed,
}

of_nanos-total : (d : Duration) → IsDuration d → of_nanos (total d) ≡ d
of_nanos-total d h = ap₂ (λ s n. record { secs = s; nanos = n }) (omega arith) (omega arith)

since-normal :
    (i t : Instant) (d : Duration)
    → IsNormal i
    → IsDuration d
    → IsNormal t
    → elapsed t ≡ elapsed i + total d
    → checked_duration_since t i ≡ done (some d)
since-normal i t d hi hd ht e =
    checked_duration_since-elapsed t i ht hi
    ∙ rw (later, gap) (ap (λ x. done (some x)) (of_nanos-total d hd))
  where
    later : ltb (elapsed t) (elapsed i) ≡ false
    later = ground (arith, e)

    gap : elapsed t - elapsed i ≡ total d
    gap = omega (arith, e)

-- The nanoseconds of such a sum are enough to take the others off.
difference-whole :
    (s n secs nanos : ℕ)
    → s + secs < 2 ^ 63
    → n + nanos ≡ nanos_in_one_sec
    → difference (instant (pos (s + secs)) (pos nanos_in_one_sec)) (instant (pos s) (pos n))
      ≡ (pos secs, pos nanos)
unfolding difference
difference-whole s n secs nanos h whole =
    ground (arith, wrap_sub (s + secs) s, wrap_sub nanos_in_one_sec n)

lt-whole :
    (s n secs : ℕ)
    → n ≤ nanos_in_one_sec
    → lt (instant (pos (s + secs)) (pos nanos_in_one_sec)) (instant (pos s) (pos n)) ≡ false
unfolding lt
lt-whole s n secs h = ground arith

since-whole :
    (s n : ℕ) (d : Duration)
    → IsDuration d
    → s + d.secs < 2 ^ 63
    → n + d.nanos ≡ nanos_in_one_sec
    → checked_duration_since
        (instant (pos (s + d.secs)) (pos nanos_in_one_sec))
        (instant (pos s) (pos n))
      ≡ done (some d)
unfolding checked_duration_since as_u64
since-whole s n d hd h whole = rw (lt-whole s n d.secs (omega (arith, whole))) (
    rw (difference-whole s n d.secs d.nanos h whole, as_u64)
      (ap (λ r. r >>= λ d. done (some d)) (new_duration-small d.secs d.nanos hd.0 hd.1)))

-- For a normal instant and a `Duration`: where `checked_add` gives an instant, normal or not,
-- `checked_duration_since` of it and the first gives the `Duration` back, without a panic.
pub checked_duration_since-checked_add :
    (i t : Instant) (d : Duration)
    → IsNormal i
    → IsDuration d
    → checked_add i d ≡ some t
    → checked_duration_since t i ≡ done (some d)
checked_duration_since-checked_add i t d hi hd h =
    let sum = checked_add-some i t d hi hd h in
    elim (Bool-cases (pos_part i.tv_nsec + d.nanos == nanos_in_one_sec)) [
      | inl whole ↦
          let at : pos_part i.tv_nsec + d.nanos ≡ nanos_in_one_sec = ground arith in
          let (small, same) = checked_add-whole i t d hi hd at h in
          ap₂ checked_duration_since same (normal-instant i hi)
          ∙ since-whole (pos_part i.tv_sec) (pos_part i.tv_nsec) d hd small at
      | inr other ↦ since-normal i t d hi hd (sum.1.1 (ground arith)) sum.0
    ]
