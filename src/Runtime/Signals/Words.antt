-- ===== src/Runtime/Signals/Words.antt =====
-- Which signals the mask words of src/export.rs name. Bit `n` of a mask stands for signal `n + 1`.
use native.Mathlib.Nat.{mod-eq_of_lt, pow-le-pow_right}
use mathlib.Core.Bool.{xor}
use linux_rtfm.Base.{ℕ, ◌+◌, ◌-◌, ◌*◌, ◌/◌, ◌%◌, ◌^◌, ◌≤◌, ◌<◌, ◌≡◌, ◌&&◌, ltb, leb, arith}
use linux_rtfm.Base.Bits.{
  bit, bit_xor, ones, shl, shift_left, u8_add, u8_sub, bit-shl-ones, bit-xor, bit-mul-pow,
  bit-mod-pow, bit-ones, bit-div-pow,
}
use linux_rtfm.Runtime.Signals.{Range, init_word, mask_word, action_word}

-- The signals of one core fit the kernel's 32 real-time signals, which start at `sigrtmin`.
pub record Fits (sigrtmin : ℕ) (r : Range) : Type 0 where
  pub first : 1 ≤ sigrtmin
  pub last : sigrtmin ≤ 32
  pub ordered : r.start ≤ r.end
  pub bounded : r.end ≤ 32

pow-lt-word : (j : ℕ) → j < 64 → 2 ^ j < 2 ^ 64
pow-lt-word j h = omega (arith, pow-le-pow_right {n = 2} (omega arith) (le_pred j h))
  where
    le_pred : (j : ℕ) → j < 64 → j ≤ 63
    le_pred j h = omega arith

shift_left-one : (j : ℕ) → j < 64 → shift_left 1 j ≡ 2 ^ j
unfolding shl
shift_left-one j h =
    let amount : j % 64 ≡ j = omega arith in
    let whole : 1 * 2 ^ j ≡ 2 ^ j = omega arith in
    rw (amount, whole) (mod-eq_of_lt (pow-lt-word j h))

-- The bits of `(1 << k) - 1`, moved to `s`.
bits-shift_left :
    (k s i : ℕ)
    → k < 64
    → s < 64
    → bit (shift_left (shift_left 1 k - 1) s) i ≡ (ltb i 64 && (leb s i && ltb i (s + k)))
bits-shift_left k s i hk hs =
    let amount : s % 64 ≡ s = omega arith in rw (shift_left-one k hk, amount) (bit-shl-ones k s i)

-- For a first real-time signal from 1 to 32 and a signal below 32, the word of `init_runtime` has
-- exactly the bits of the real-time signals up to that one, it included.
pub init-bits :
    (sigrtmin signo n : ℕ)
    → 1 ≤ sigrtmin
    → sigrtmin ≤ 32
    → signo < 32
    → bit (init_word sigrtmin signo) n ≡ (leb (sigrtmin - 1) n && ltb n (sigrtmin + signo))
unfolding init_word
init-bits sigrtmin signo n h k small =
    let count : u8_add signo 1 ≡ signo + 1 = omega arith in
    rw (count, bits-shift_left (signo + 1) (sigrtmin - 1) n (omega arith) (omega arith))
      (ground arith)

module _ (sigrtmin : ℕ) (r : Range) (f : Fits sigrtmin r) where
  -- For a range that fits the 32 real-time signals, a level and a ceiling that the core has and
  -- that is no lower, the word of `mask` has exactly the bits of the signals `end - ceiling` to
  -- `end - level - 1`.
  pub mask-bits :
      (current ceiling n : ℕ)
      → current ≤ ceiling
      → ceiling ≤ r.end - r.start
      → bit (mask_word sigrtmin r current ceiling) n
        ≡ (leb (sigrtmin - 1 + (r.end - ceiling)) n && ltb n (sigrtmin - 1 + (r.end - current)))
  unfolding mask_word
  mask-bits current ceiling n h k =
      let count : u8_sub ceiling current ≡ ceiling - current = omega arith in
      let place : u8_sub (u8_add r.start (u8_sub r.end r.start)) ceiling ≡ r.end - ceiling =
        omega arith in
      rw
        (
          count,
          place,
          bits-shift_left (ceiling - current) (sigrtmin - 1 + (r.end - ceiling)) n (omega arith)
              (omega arith),
        )
        (ground arith)

  -- For a range that fits the 32 real-time signals and a level that the core has, the word of
  -- `register` has exactly the bits of the signals `end - level + 1` to `end - 1`.
  pub action-bits :
      (priority n : ℕ)
      → 1 ≤ priority
      → priority ≤ r.end - r.start
      → bit (action_word sigrtmin r priority) n
        ≡ (leb (sigrtmin + (r.end - priority)) n && ltb n (sigrtmin - 1 + r.end))
  unfolding action_word shl xor
  action-bits priority n h k =
      let len : u8_sub r.end r.start ≡ r.end - r.start = omega arith in
      let down : u8_sub priority 1 % 64 ≡ priority - 1 = omega arith in
      let place : (r.start + sigrtmin - 1) % 64 ≡ r.start + sigrtmin - 1 = omega arith in
      rw
        (
          len,
          down,
          place,
          shift_left-one (r.end - r.start) (omega arith),
          bit-mod-pow
              (bit_xor (ones (r.end - r.start)) (ones (r.end - r.start) / 2 ^ (priority - 1))
                * 2 ^ (r.start + sigrtmin - 1))
              64 n,
          bit-mul-pow
              (bit_xor (ones (r.end - r.start)) (ones (r.end - r.start) / 2 ^ (priority - 1)))
              (r.start + sigrtmin - 1) n,
          bit-xor (n - (r.start + sigrtmin - 1)) (ones (r.end - r.start))
              (ones (r.end - r.start) / 2 ^ (priority - 1)),
          bit-div-pow (ones (r.end - r.start)) (priority - 1) (n - (r.start + sigrtmin - 1)),
          bit-ones,
          bit-ones,
        )
        (ground arith)
