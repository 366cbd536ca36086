-- ===== src/Runtime/Time/Elapsed.antt =====
-- Instants as numbers of nanoseconds: what sums, differences and comparisons of src/time.rs mean.
use linux_rtfm.Base.{
  ℕ, ◌+◌, ◌-◌, ◌*◌, ◌^◌, ◌≤◌, ◌<◌, ◌≡◌, ap, ap₂, ◌∙◌, Bool-cases, inl, inr, ◌%◌, ◌/◌, lt→ltb, ◌≢◌,
  ◌↔◌, Option, none, some, ltb, arith, if◌then◌else◌,
}
use native.Mathlib.Nat.{add-zero}
use linux_rtfm.Base.Run.{done, ◌>>=◌}
use linux_rtfm.Base.Int.{pos, pos_part, neg_part, wrap, as_u64, ◌+ℤ◌, ◌-ℤ◌}
use linux_rtfm.Runtime.Time.{
  Instant, Duration, less, equal, greater, nanos_in_one_sec, partial_cmp, lt, checked_add,
  checked_duration_since, saturating_duration_since, instant, checked_add_isize, new_duration,
  difference,
}

-- A clock reading: both fields are natural numbers, below 2⁶³ and below 10⁹.
abbrev pub IsNormal : Instant → Type 0
IsNormal i =
    (neg_part i.tv_sec ≡ 0)
    × (pos_part i.tv_sec < 2 ^ 63)
    × (neg_part i.tv_nsec ≡ 0)
    × (pos_part i.tv_nsec < nanos_in_one_sec)

abbrev pub IsDuration : Duration → Type 0
IsDuration d = (d.secs < 2 ^ 64) × (d.nanos < nanos_in_one_sec)

abbrev pub elapsed : Instant → ℕ
elapsed i = pos_part i.tv_sec * 1_000_000_000 + pos_part i.tv_nsec

abbrev pub total : Duration → ℕ
total d = d.secs * 1_000_000_000 + d.nanos

pub normal-instant :
    (i : Instant) → IsNormal i → i ≡ instant (pos (pos_part i.tv_sec)) (pos (pos_part i.tv_nsec))
normal-instant i h = ground arith

checked_add_isize-pos :
    (a b : ℕ)
    → a < 2 ^ 63
    → b < 2 ^ 63
    → checked_add_isize (pos a) (pos b)
      ≡ (if ltb (a + b) (2 ^ 63) then some (pos (a + b)) else none)
unfolding checked_add_isize
checked_add_isize-pos a b ha hb = ground arith

-- The sum in natural numbers: one carry where the nanoseconds exceed 10⁹.
sum : ℕ → ℕ → Duration → Option Instant
sum s n d =
    if ltb nanos_in_one_sec (n + d.nanos)
    then (if ltb (s + d.secs + 1) (2 ^ 63)
        then some (instant (pos (s + d.secs + 1)) (pos (n + d.nanos - nanos_in_one_sec)))
        else none)
    else (if ltb (s + d.secs) (2 ^ 63)
        then some (instant (pos (s + d.secs)) (pos (n + d.nanos)))
        else none)

nanos_add :
    (n m : ℕ) → n < nanos_in_one_sec → m ≤ nanos_in_one_sec → wrap (pos n +ℤ pos m) ≡ pos (n + m)
unfolding wrap
nanos_add n m hn hm = ground arith

nanos_carry :
    (n : ℕ)
    → nanos_in_one_sec < n
    → n < 2 ^ 63
    → wrap (pos n -ℤ pos nanos_in_one_sec) ≡ pos (n - nanos_in_one_sec)
unfolding wrap
nanos_carry n h k = ground arith

checked_add-sum :
    (s n : ℕ) (d : Duration)
    → s < 2 ^ 63
    → n < nanos_in_one_sec
    → IsDuration d
    → checked_add (instant (pos s) (pos n)) d ≡ sum s n d
unfolding checked_add sum
checked_add-sum s n d hs hn hd = ground (
  arith,
  checked_add_isize-pos s d.secs,
  checked_add_isize-pos (s + d.secs) 1,
  nanos_add n d.nanos,
  nanos_carry (n + d.nanos),
)

checked_add-normal :
    (i : Instant) (d : Duration)
    → IsNormal i
    → IsDuration d
    → checked_add i d ≡ sum (pos_part i.tv_sec) (pos_part i.tv_nsec) d
checked_add-normal i d hi hd =
    ap (λ x. checked_add x d) (normal-instant i hi)
    ∙ checked_add-sum (pos_part i.tv_sec) (pos_part i.tv_nsec) d hi.1 hi.3 hd

-- For a normal instant (fields not negative, nanoseconds below 10⁹) and a `Duration`, an instant
-- that `checked_add` gives has the sum of the two in nanoseconds, and it is normal exactly if the
-- two numbers of nanoseconds do not add up to 10⁹.
pub checked_add-some :
    (i t : Instant) (d : Duration)
    → IsNormal i
    → IsDuration d
    → checked_add i d ≡ some t
    → (elapsed t ≡ elapsed i + total d)
      × (IsNormal t ↔ (pos_part i.tv_nsec + d.nanos ≢ nanos_in_one_sec))
unfolding sum
checked_add-some i t d hi hd h = ground (arith, checked_add-normal i d hi hd)

-- Where the nanoseconds add up to 10⁹, they are not carried.
pub checked_add-whole :
    (i t : Instant) (d : Duration)
    → IsNormal i
    → IsDuration d
    → pos_part i.tv_nsec + d.nanos ≡ nanos_in_one_sec
    → checked_add i d ≡ some t
    → (pos_part i.tv_sec + d.secs < 2 ^ 63)
      × (t ≡ instant (pos (pos_part i.tv_sec + d.secs)) (pos nanos_in_one_sec))
unfolding sum
checked_add-whole i t d hi hd whole h = ground (arith, checked_add-normal i d hi hd)

-- For a normal instant and a `Duration`, `checked_add` gives none exactly if the seconds, with 1
-- more where the nanoseconds exceed 10⁹, are 2⁶³ or more.
pub checked_add-none :
    (i : Instant) (d : Duration)
    → IsNormal i
    → IsDuration d
    → (checked_add i d ≡ none) ↔ (
        2 ^ 63
        ≤ pos_part i.tv_sec
          + d.secs
          + (if ltb nanos_in_one_sec (pos_part i.tv_nsec + d.nanos) then 1 else 0))
unfolding sum
checked_add-none i d hi hd = ground (arith, checked_add-normal i d hi hd)

-- Normal instants compare as less, greater or equal exactly if their numbers of nanoseconds do.
pub partial_cmp-elapsed :
    (a b : Instant)
    → IsNormal a
    → IsNormal b
    → ((partial_cmp a b ≡ some less) ↔ (elapsed a < elapsed b))
      × ((partial_cmp a b ≡ some greater) ↔ (elapsed b < elapsed a))
      × ((partial_cmp a b ≡ some equal) ↔ (elapsed a ≡ elapsed b))
unfolding partial_cmp
partial_cmp-elapsed a b ha hb = ground arith

pub new_duration-small :
    (s n : ℕ)
    → s < 2 ^ 64
    → n < nanos_in_one_sec
    → new_duration s (n % 2 ^ 32) ≡ done (record { secs = s; nanos = n })
unfolding new_duration
new_duration-small s n hs hn =
    let whole : n % 2 ^ 32 ≡ n = omega arith in
    let carry : n / nanos_in_one_sec ≡ 0 = omega arith in
    let rest : n % nanos_in_one_sec ≡ n = omega arith in
    rw (whole, carry, rest, add-zero, lt→ltb s (2 ^ 64) hs)

pub wrap_sub : (a b : ℕ) → b ≤ a → a < 2 ^ 63 → wrap (pos a -ℤ pos b) ≡ pos (a - b)
unfolding wrap
wrap_sub a b h k = ground arith

module _ (s n t m : ℕ) (hs : s < 2 ^ 63) (hn : n < nanos_in_one_sec) where
  difference-plain :
      t ≤ s
      → m ≤ n
      → difference (instant (pos s) (pos n)) (instant (pos t) (pos m)) ≡ (pos (s - t), pos (n - m))
  unfolding difference
  difference-plain ht hm = ground (arith, wrap_sub s t, wrap_sub n m)

  difference-borrow :
      t < s
      → n < m
      → m < nanos_in_one_sec
      → difference (instant (pos s) (pos n)) (instant (pos t) (pos m))
        ≡ (pos (s - 1 - t), pos (n + nanos_in_one_sec - m))
  unfolding difference
  difference-borrow ht hm below = ground (
    arith,
    wrap_sub s 1,
    wrap_sub (s - 1) t,
    nanos_add n nanos_in_one_sec,
    wrap_sub (n + nanos_in_one_sec) m,
  )

pub lt-elapsed : (a b : Instant) → IsNormal a → IsNormal b → lt a b ≡ ltb (elapsed a) (elapsed b)
unfolding lt
lt-elapsed a b ha hb = ground arith

-- A number of nanoseconds as a `Duration`.
abbrev pub of_nanos : ℕ → Duration
of_nanos k = record { secs = k / nanos_in_one_sec; nanos = k % nanos_in_one_sec }

module _ (a b : Instant) (ha : IsNormal a) (hb : IsNormal b) where
  difference-elapsed :
      elapsed b ≤ elapsed a
      → difference a b ≡ (
        pos ((elapsed a - elapsed b) / nanos_in_one_sec),
        pos ((elapsed a - elapsed b) % nanos_in_one_sec),
      )
  difference-elapsed h =
      ap₂ difference (normal-instant a ha) (normal-instant b hb)
      ∙ elim (Bool-cases (ltb (pos_part a.tv_nsec) (pos_part b.tv_nsec))) [
        | inl borrow ↦
            difference-borrow _ _ _ _ ha.1 ha.3 (ground arith) (ground arith) hb.3 ∙ ground arith
        | inr enough ↦
            difference-plain _ _ _ _ ha.1 ha.3 (ground arith) (ground arith) ∙ ground arith
      ]

  -- For normal instants, `checked_duration_since` does not panic: it gives none if the first is
  -- earlier, and else the difference of their numbers of nanoseconds.
  pub checked_duration_since-elapsed : checked_duration_since a b ≡ (
      if ltb (elapsed a) (elapsed b)
      then done none
      else done (some (of_nanos (elapsed a - elapsed b))))
  unfolding checked_duration_since as_u64
  checked_duration_since-elapsed = elim (Bool-cases (ltb (elapsed a) (elapsed b))) [
    | inl before ↦ rw (lt-elapsed a b ha hb, before)
    | inr after ↦
        let k = elapsed a - elapsed b in
        rw (lt-elapsed a b ha hb, after)
          (rw (difference-elapsed (ground arith), as_u64)
            (ap (λ r. r >>= λ d. done (some d))
              (new_duration-small (k / nanos_in_one_sec) (k % nanos_in_one_sec) (omega arith)
                (omega arith))))
  ]

  -- For normal instants, `saturating_duration_since` does not panic and gives the difference of
  -- their numbers of nanoseconds, 0 if the first is earlier.
  pub saturating_duration_since-elapsed :
      saturating_duration_since a b ≡ done (of_nanos (elapsed a - elapsed b))
  unfolding saturating_duration_since
  saturating_duration_since-elapsed = elim (Bool-cases (ltb (elapsed a) (elapsed b))) [
    | inl before ↦ rw (checked_duration_since-elapsed, before) (ground arith)
    | inr after ↦ rw (checked_duration_since-elapsed, after)
  ]
