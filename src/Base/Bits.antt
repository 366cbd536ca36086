-- ===== src/Base/Bits.antt =====
-- The binary digits of a word, for shifts, masks and `^`.
use Prim.Native.Nat.{
  ℕ, zero, suc, ◌+◌, ◌-◌, ◌*◌, ◌/◌, ◌%◌, ◌^◌, ◌≤◌, ◌<◌, digits, differ, bit_xor-bitwise,
}
pub use Prim.Native.Nat.{bit_xor}
use mathlib.Core.Path.{◌≡◌, refl, ap, sym, ◌∙◌}
use mathlib.Core.Bool.{Bool, false, ◌&&◌, xor}
use native.Mathlib.Omega.{arith}
use native.Mathlib.Nat.{
  pow-suc, one-le-pow, div-add-mod, mul-add-mod_self_left, mod-eq_of_lt, mod-lt, mul_comm,
  div-div-eq-div-mul,
}
use linux_rtfm.Base.Tests.{ltb, leb, ◌==◌, if◌then◌else◌}

-- Bit `i` of a word.
unfoldable pub bit : ℕ → ℕ → Bool
bit w zero = w % 2 == 1
bit w (suc i) = bit (w / 2) i

pub bit-zero : (i : ℕ) → bit 0 i ≡ false
unfolding bit
bit-zero zero = refl
bit-zero (suc i) = bit-zero i

-- `w << k` in a word of 64 bits.
unfoldable pub shl : ℕ → ℕ → ℕ
shl w k = w * 2 ^ k % 2 ^ 64

-- `(1 << k) - 1`
abbrev pub ones : ℕ → ℕ
ones k = 2 ^ k - 1

pub bit-ones : (k i : ℕ) → bit (ones k) i ≡ ltb i k
unfolding bit
bit-ones zero i = bit-zero i ∙ ground arith
bit-ones (suc k) zero = ground (arith, pow-suc 2 k, one-le-pow k 2)
bit-ones (suc k) (suc i) =
    let half : ones (suc k) / 2 ≡ ones k = omega (arith, pow-suc 2 k, one-le-pow k 2) in
    rw half (bit-ones k i ∙ ground arith)

mul-pow-suc : (q k : ℕ) → q * 2 ^ suc k ≡ 2 * (q * 2 ^ k)
mul-pow-suc q k = omega (arith, ap (λ (t : ℕ). q * t) (pow-suc 2 k))

pub bit-mul-pow : (w k i : ℕ) → bit (w * 2 ^ k) i ≡ (if ltb i k then false else bit w (i - k))
unfolding bit
bit-mul-pow w zero i =
    let whole : w * 2 ^ 0 ≡ w = omega arith in
    let same : i - 0 ≡ i = omega arith in rw (whole, same) (ground arith)
bit-mul-pow w (suc k) zero = ground (arith, mul-pow-suc w k)
bit-mul-pow w (suc k) (suc i) =
    let half : w * 2 ^ suc k / 2 ≡ w * 2 ^ k = omega (arith, mul-pow-suc w k) in
    let shift : suc i - suc k ≡ i - k = omega arith in
    rw (half, shift) (bit-mul-pow w k i ∙ ground arith)

mod-double : (w m : ℕ) → 0 < m → w % (2 * m) ≡ 2 * (w / 2 % m) + w % 2
mod-double w m h =
    let q = w / 2 / m in
    let c = 2 * (w / 2 % m) + w % 2 in
    let split : w ≡ 2 * m * q + c = omega (arith, div-add-mod (w / 2) m) in
    ap (λ t. t % (2 * m)) split
    ∙ mul-add-mod_self_left (2 * m) q c
    ∙ mod-eq_of_lt (omega (arith, mod-lt (w / 2) h))

mod-pow-suc : (w k : ℕ) → (w % 2 ^ suc k / 2 ≡ w / 2 % 2 ^ k) × (w % 2 ^ suc k % 2 ≡ w % 2)
mod-pow-suc w k =
    let whole : w % 2 ^ suc k ≡ 2 * (w / 2 % 2 ^ k) + w % 2 =
      rw (pow-suc 2 k, mul_comm (2 ^ k) 2) (mod-double w (2 ^ k) (one-le-pow k 2 (omega arith))) in
    (omega arith, omega arith)

pub bit-mod-pow : (w k i : ℕ) → bit (w % 2 ^ k) i ≡ (ltb i k && bit w i)
unfolding bit
bit-mod-pow w zero i =
    let none_left : w % 2 ^ 0 ≡ 0 = omega arith in rw none_left (bit-zero i ∙ ground arith)
bit-mod-pow w (suc k) zero = ground (arith, mod-pow-suc w k)
bit-mod-pow w (suc k) (suc i) = rw ((mod-pow-suc w k).0) (bit-mod-pow (w / 2) k i ∙ ground arith)

-- The native `^` means a recursion on binary digits with fuel; here the fuel is dropped.
xor_digits_fuel :
    (n m a b : ℕ) → a ≤ n → a ≤ m → digits (λ y. y) differ n a b ≡ digits (λ y. y) differ m a b
xor_digits_fuel zero zero a b p q = refl
xor_digits_fuel zero (suc m) zero b p q = refl
xor_digits_fuel zero (suc m) (suc a) b p q = absurd (omega arith)
xor_digits_fuel (suc n) zero zero b p q = refl
xor_digits_fuel (suc n) zero (suc a) b p q = absurd (omega arith)
xor_digits_fuel (suc n) (suc m) zero b p q = refl
xor_digits_fuel (suc n) (suc m) (suc a) b p q =
    rw (xor_digits_fuel n m (suc a / 2) (b / 2) (omega arith) (omega arith))

bit_xor_step : (a b : ℕ) → bit_xor a b ≡ bit_xor (a / 2) (b / 2) * 2 + differ (a % 2) (b % 2)
bit_xor_step zero b = omega (arith, bit_xor-bitwise 0 b, bit_xor-bitwise 0 (b / 2))
bit_xor_step (suc a) b = omega (
  arith,
  bit_xor-bitwise (suc a) b,
  bit_xor-bitwise (suc a / 2) (b / 2),
  xor_digits_fuel a (suc a / 2) (suc a / 2) (b / 2) (omega arith) (omega arith),
)

differ_digits :
    (x y : ℕ) → x < 2 → y < 2 → (differ x y < 2) × ((differ x y == 1) ≡ xor (x == 1) (y == 1))
unfolding xor
differ_digits zero y hx hy = ground arith
differ_digits (suc zero) zero hx hy = ground arith
differ_digits (suc zero) (suc zero) hx hy = ground arith
differ_digits (suc zero) (suc (suc y)) hx hy = absurd (omega arith)
differ_digits (suc (suc x)) y hx hy = absurd (omega arith)

pub bit-xor : (i a b : ℕ) → bit (bit_xor a b) i ≡ xor (bit a i) (bit b i)
unfolding bit
bit-xor zero a b =
    let (small, same) = differ_digits (a % 2) (b % 2) (omega arith) (omega arith) in
    let low : bit_xor a b % 2 ≡ differ (a % 2) (b % 2) = omega (arith, bit_xor_step a b) in
    rw low same
bit-xor (suc i) a b =
    let (small, same) = differ_digits (a % 2) (b % 2) (omega arith) (omega arith) in
    let half : bit_xor a b / 2 ≡ bit_xor (a / 2) (b / 2) = omega (arith, bit_xor_step a b) in
    rw half (bit-xor i (a / 2) (b / 2))

pub bit-div-pow : (w k i : ℕ) → bit (w / 2 ^ k) i ≡ bit w (i + k)
unfolding bit
bit-div-pow w zero i =
    let whole : w / 2 ^ 0 ≡ w = omega arith in
    let same : i + 0 ≡ i = omega arith in rw (whole, same)
bit-div-pow w (suc k) i =
    let split : w / 2 ^ suc k ≡ w / 2 / 2 ^ k =
      rw (pow-suc 2 k, mul_comm (2 ^ k) 2) (sym (div-div-eq-div-mul w 2 (2 ^ k))) in
    let next : i + suc k ≡ suc (i + k) = omega arith in rw (split, next) (bit-div-pow (w / 2) k i)

-- The bits of `((1 << k) - 1) << s`, where the word holds them.
pub bit-shl-ones : (k s i : ℕ) → bit (shl (ones k) s) i ≡ (ltb i 64 && (leb s i && ltb i (s + k)))
unfolding shl
bit-shl-ones k s i =
    rw (bit-mod-pow (ones k * 2 ^ s) 64 i, bit-mul-pow (ones k) s i, bit-ones k (i - s))
      (ground arith)

-- `u8` and 64-bit words with overflow checks off: sums and differences wrap, and a shift's amount is
-- taken modulo 64.
abbrev pub u8_add : ℕ → ℕ → ℕ
u8_add a b = (a + b) % 2 ^ 8

abbrev pub u8_sub : ℕ → ℕ → ℕ
u8_sub a b = (a + 2 ^ 8 - b) % 2 ^ 8

abbrev pub shift_left : ℕ → ℕ → ℕ
shift_left w k = shl w (k % 64)

abbrev pub shift_right : ℕ → ℕ → ℕ
shift_right w k = w / 2 ^ (k % 64)
