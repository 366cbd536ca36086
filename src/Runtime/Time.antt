-- ===== src/Runtime/Time.antt =====
-- src/time.rs: a point in time as a `timespec_t`, its order, and its sums and differences with a
-- `Duration`. Sums of `isize`s wrap, as they do with overflow checks off; `none` is the source's
-- `None`, and `panic` a failed `unwrap` or the overflow of `Duration::new`.
pub mod Elapsed
pub mod Trip
use linux_rtfm.Base.{
  ℕ, ◌+◌, ◌*◌, ◌/◌, ◌%◌, ◌^◌, ◌<◌, Bool, true, false, ◌&&◌, Option, none, some, ltb, leb,
  if◌then◌else◌,
}
use linux_rtfm.Base.Run.{Run, done, panic, ◌>>=◌, unwrap}
use linux_rtfm.Base.Int.{
  ℤ, pos, negsuc, pos_part, ◌+ℤ◌, ◌-ℤ◌, ltb_ℤ, eqb_ℤ, isize_max, wrap, as_u64,
}

-- `timespec_t` of the `nc` crate: two `isize` fields.
pub record Timespec : Type 0 where
  pub tv_sec : ℤ
  pub tv_nsec : ℤ

pub record Instant : Type 0 where
  pub ts : Timespec
  pub open ts use *

-- `core::time::Duration`: a `u64` of seconds and a `u32` below 10⁹.
pub record Duration : Type 0 where
  pub secs : ℕ
  pub nanos : ℕ

pub data Order : Type 0 where
  less equal greater : Order

abbrev pub nanos_in_one_sec : ℕ
nanos_in_one_sec = 1_000_000_000

-- `Duration::new` carries whole seconds over and panics if they overflow.
unfoldable pub new_duration : ℕ → ℕ → Run Duration
new_duration secs nanos =
    let s = secs + nanos / nanos_in_one_sec in
    if ltb s (2 ^ 64) then done (record { secs = s; nanos = nanos % nanos_in_one_sec }) else panic

unfoldable pub eq : Instant → Instant → Bool
eq a b = eqb_ℤ a.tv_sec b.tv_sec && eqb_ℤ a.tv_nsec b.tv_nsec

unfoldable pub partial_cmp : Instant → Instant → Option Order
partial_cmp a b =
    if ltb_ℤ a.tv_sec b.tv_sec
    then some less
    else if ltb_ℤ b.tv_sec a.tv_sec
    then some greater
    else if ltb_ℤ a.tv_nsec b.tv_nsec
    then some less
    else if ltb_ℤ b.tv_nsec a.tv_nsec
    then some greater
    else some equal

unfoldable pub cmp : Instant → Instant → Run Order
unfolding partial_cmp
cmp a b = unwrap (partial_cmp a b)

-- `<`, which the language derives from `partial_cmp`
unfoldable pub lt : Instant → Instant → Bool
unfolding partial_cmp
lt a b = elim (partial_cmp a b) [ none ↦ false | some o ↦ elim o [ less ↦ true | _ ↦ false ] ]

-- `>=`, likewise
unfoldable pub ge : Instant → Instant → Bool
unfolding partial_cmp
ge a b = elim (partial_cmp a b) [ none ↦ false | some o ↦ elim o [ less ↦ false | _ ↦ true ] ]

-- `isize::checked_add`, and `isize::try_from` of a `u64`
unfoldable pub checked_add_isize : ℤ → ℤ → Option ℤ
unfolding ◌+ℤ◌ wrap
checked_add_isize a b = if eqb_ℤ (wrap (a +ℤ b)) (a +ℤ b) then some (a +ℤ b) else none

unfoldable pub try_from_u64 : ℕ → Option ℤ
try_from_u64 n = if ltb n (2 ^ 63) then some (pos n) else none

infixl 5 ◌>>=?◌
abbrev ◌>>=?◌ {ℓ κ} : {A : Type ℓ} {B : Type κ} → Option A → (A → Option B) → Option B
none >>=? f = none
some a >>=? f = f a

abbrev pub instant : ℤ → ℤ → Instant
instant s n = record { ts = record { tv_sec = s; tv_nsec = n } }

unfoldable pub checked_add : Instant → Duration → Option Instant
unfolding try_from_u64
checked_add i dur = try_from_u64 dur.secs >>=? λ add_secs.
    checked_add_isize i.tv_sec add_secs >>=? λ secs.
    let nanos = wrap (i.tv_nsec +ℤ pos dur.nanos) in
    if ltb_ℤ (pos nanos_in_one_sec) nanos
    then (checked_add_isize secs (pos 1) >>=? λ carried.
        some (instant carried (wrap (nanos -ℤ pos nanos_in_one_sec))))
    else some (instant secs nanos)

-- The seconds and nanoseconds of the difference, with a borrow where `self` has fewer nanoseconds.
unfoldable pub difference : Instant → Instant → ℤ × ℤ
unfolding wrap ◌+ℤ◌ ◌-ℤ◌
difference self earlier =
    if ltb_ℤ self.tv_nsec earlier.tv_nsec
    then (
      wrap (wrap (self.tv_sec -ℤ pos 1) -ℤ earlier.tv_sec),
      wrap (wrap (self.tv_nsec +ℤ pos nanos_in_one_sec) -ℤ earlier.tv_nsec),
    )
    else (wrap (self.tv_sec -ℤ earlier.tv_sec), wrap (self.tv_nsec -ℤ earlier.tv_nsec))

unfoldable pub checked_duration_since : Instant → Instant → Run (Option Duration)
unfolding difference
checked_duration_since self earlier = if lt self earlier then done none else do
  let fields = difference self earlier
  d ← new_duration (as_u64 fields.0) (as_u64 fields.1 % 2 ^ 32)
  done (some d)

unfoldable pub saturating_duration_since : Instant → Instant → Run Duration
unfolding checked_duration_since
saturating_duration_since self earlier = checked_duration_since self earlier >>= λ since.
    elim since [ none ↦ done (record { secs = 0; nanos = 0 }) | some d ↦ done d ]

-- `Instant + Duration`
unfoldable pub add : Instant → Duration → Run Instant
unfolding checked_add
add i dur = unwrap (checked_add i dur)
