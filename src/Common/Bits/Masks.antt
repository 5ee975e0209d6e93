-- ===== src/Common/Bits/Masks.antt =====
-- Masks of any width: the bits below a place, and the bits from a place on.
use Prim.Native.Nat.{ℕ, zero, suc, ◌+◌, ◌-◌, ◌*◌, ◌/◌, ◌%◌, ◌^◌, ◌≤◌, ◌<◌, bit_and, bit_or}
use mathlib.Core.Path.{◌≡◌, sym, ap, ◌∙◌}
use native.Mathlib.Nat.{
  pow-suc, div-add-mod', mod-lt, mod-eq_of_lt, add-mul-mod_self_right, div-div-eq-div-mul, mod-one,
  mul_assoc, mul_comm,
}
use native.Mathlib.Omega.{arith}
use snd_hdspe.Common.Bits.{and-digits, or-digits, bit_and-zero, bit_or-zero, zero-bit_or}

-- A remainder by an even divisor, by its lowest digit.
pub mod-double : (a n : ℕ) → 1 ≤ n → a / 2 % n * 2 + a % 2 ≡ a % (2 * n)
mod-double a n h =
    let r : ℕ = a / 2 % n * 2 + a % 2 in
    let split : a ≡ r + a / 2 / n * (2 * n) = omega (arith, div-add-mod' (a / 2) n) in
    let below : r < 2 * n = omega (arith, mod-lt (a / 2) h) in
    sym (
      ap (λ (t : ℕ). t % (2 * n)) split
      ∙ add-mul-mod_self_right r (a / 2 / n) (2 * n)
      ∙ mod-eq_of_lt below)

pub one-le-pow : (w : ℕ) → 1 ≤ 2 ^ w
one-le-pow zero = omega arith
one-le-pow (suc w) = omega (arith, one-le-pow w, pow-suc 2 w)

pub bit_and_ones : (w a : ℕ) → bit_and a (2 ^ w - 1) ≡ a % 2 ^ w
bit_and_ones zero a = omega (arith, bit_and-zero a, mod-one a)
bit_and_ones (suc w) a =
    let n : ℕ = 2 ^ w in
    let double : 2 ^ suc w ≡ 2 * n = pow-suc 2 w ∙ mul_comm n 2 in
    let positive : 1 ≤ n = one-le-pow w in
    let half : (2 * n - 1) / 2 ≡ n - 1 = omega arith in
    let odd : (2 * n - 1) % 2 ≡ 1 = omega arith in
    rw
      (
        double,
        and-digits a (2 * n - 1),
        half,
        odd,
        bit_and_ones w (a / 2),
        sym (mod-double a n positive),
      )
      (omega arith)

pub bit_and_high : (j w a : ℕ) → bit_and a (2 ^ j * (2 ^ w - 1)) ≡ a / 2 ^ j % 2 ^ w * 2 ^ j
bit_and_high zero w a =
    let mask : 2 ^ 0 * (2 ^ w - 1) ≡ 2 ^ w - 1 = omega arith in
    let whole : a / 2 ^ 0 ≡ a = omega arith in rw (mask, bit_and_ones w a, whole) (omega arith)
bit_and_high (suc j) w a =
    let n : ℕ = 2 ^ j in
    let rest : ℕ = n * (2 ^ w - 1) in
    let double : 2 ^ suc j ≡ 2 * n = pow-suc 2 j ∙ mul_comm n 2 in
    let mask : 2 * n * (2 ^ w - 1) ≡ 2 * rest = mul_assoc 2 n (2 ^ w - 1) in
    let half : 2 * rest / 2 ≡ rest = omega arith in
    let even : 2 * rest % 2 ≡ 0 = omega arith in
    rw
      (
        double,
        mask,
        and-digits a (2 * rest),
        half,
        even,
        bit_and_high j w (a / 2),
        div-div-eq-div-mul a 2 n,
      )
      (omega arith)

or_comm_fuel : (n a b : ℕ) → a ≤ n → bit_or a b ≡ bit_or b a
or_comm_fuel n zero b h = zero-bit_or b ∙ sym (bit_or-zero b)
or_comm_fuel zero (suc a) b h = absurd (omega arith)
or_comm_fuel (suc n) (suc a) b h = omega (
  arith,
  or-digits (suc a) b,
  or-digits b (suc a),
  or_comm_fuel n (suc a / 2) (b / 2) (omega arith),
)

pub bit_or_comm : (a b : ℕ) → bit_or a b ≡ bit_or b a
bit_or_comm a b = or_comm_fuel a a b (omega arith)

-- A mask that is known as the bits from a place on.
pub bit_and_field :
    (j w m a : ℕ) → m ≡ 2 ^ j * (2 ^ w - 1) → bit_and a m ≡ a / 2 ^ j % 2 ^ w * 2 ^ j
bit_and_field j w m a e = ap (bit_and a) e ∙ bit_and_high j w a

-- `|` works on the upper and the lower bits apart.
pub bit_or_split :
    (k x y : ℕ)
    → bit_or x y ≡ bit_or (x / 2 ^ k) (y / 2 ^ k) * 2 ^ k + bit_or (x % 2 ^ k) (y % 2 ^ k)
bit_or_split zero x y =
    let whole : (a : ℕ) → a / 2 ^ 0 ≡ a = λ a. omega arith in
    let nothing : (a : ℕ) → a % 2 ^ 0 ≡ 0 = λ a. omega arith in
    rw (whole x, whole y, nothing x, nothing y, zero-bit_or 0) (omega arith)
bit_or_split (suc k) x y =
    let n : ℕ = 2 ^ k in
    let double : 2 ^ suc k ≡ 2 * n = pow-suc 2 k ∙ mul_comm n 2 in
    let least : 1 ≤ n = one-le-pow k in
    let half : (a : ℕ) → a % (2 * n) / 2 ≡ a / 2 % n = λ a. omega (arith, mod-double a n least) in
    let digit : (a : ℕ) → a % (2 * n) % 2 ≡ a % 2 = λ a. omega (arith, mod-double a n least) in
    rw
      (double, or-digits x y, bit_or_split k (x / 2) (y / 2), or-digits (x % (2 * n)) (y % (2 * n)))
      (rw (half x, half y, digit x, digit y, div-div-eq-div-mul x 2 n, div-div-eq-div-mul y 2 n)
        (omega arith))
