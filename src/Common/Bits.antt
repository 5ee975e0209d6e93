-- ===== src/Common/Bits.antt =====
-- Laws of the bit operations, one binary digit and one hexadecimal digit at a time.
pub mod Masks
pub mod Test
pub mod Fields
use Prim.Native.Nat.{
  ℕ, zero, suc, ◌+◌, ◌*◌, ◌/◌, ◌%◌, ◌^◌, ◌≤◌, ◌<◌, min, max, bit_and, bit_or, digits,
  bit_and-bitwise, bit_or-bitwise,
}
use mathlib.Core.Path.{◌≡◌, refl, ap}
use native.Mathlib.Nat.{pow-suc, div-add-mod}
use native.Mathlib.Omega.{arith}

-- The result does not depend on the fuel, once there is enough of it.
module _ (ends : ℕ → ℕ) (op : ℕ → ℕ → ℕ) where
  digits-fuel : (a b n m : ℕ) → a ≤ n → a ≤ m → digits ends op n a b ≡ digits ends op m a b
  digits-fuel zero b zero zero p q = refl
  digits-fuel zero b zero (suc m) p q = refl
  digits-fuel zero b (suc n) zero p q = refl
  digits-fuel zero b (suc n) (suc m) p q = refl
  digits-fuel (suc a) b zero m p q = absurd (omega arith)
  digits-fuel (suc a) b (suc n) zero p q = absurd (omega arith)
  digits-fuel (suc a) b (suc n) (suc m) p q =
      omega (arith, digits-fuel (suc a / 2) (b / 2) n m (omega arith) (omega arith))

and-digits : (a b : ℕ) → bit_and a b ≡ bit_and (a / 2) (b / 2) * 2 + min (a % 2) (b % 2)
and-digits zero b = omega (arith, bit_and-bitwise 0 b, bit_and-bitwise 0 (b / 2))
and-digits (suc a) b = omega (
  arith,
  bit_and-bitwise (suc a) b,
  bit_and-bitwise (suc a / 2) (b / 2),
  digits-fuel (λ _. 0) min (suc a / 2) (b / 2) a (suc a / 2) (omega arith) (omega arith),
)

or-digits : (a b : ℕ) → bit_or a b ≡ bit_or (a / 2) (b / 2) * 2 + max (a % 2) (b % 2)
or-digits zero b = omega (arith, bit_or-bitwise 0 b, bit_or-bitwise 0 (b / 2))
or-digits (suc a) b = omega (
  arith,
  bit_or-bitwise (suc a) b,
  bit_or-bitwise (suc a / 2) (b / 2),
  digits-fuel (λ y. y) max (suc a / 2) (b / 2) a (suc a / 2) (omega arith) (omega arith),
)

pub zero-bit_or : (b : ℕ) → bit_or 0 b ≡ b
zero-bit_or b = bit_or-bitwise 0 b

and_zero_fuel : (n a : ℕ) → a ≤ n → bit_and a 0 ≡ 0
and_zero_fuel n zero h = refl
and_zero_fuel zero (suc a) h = absurd (omega arith)
and_zero_fuel (suc n) (suc a) h =
    omega (arith, and-digits (suc a) 0, and_zero_fuel n (suc a / 2) (omega arith))

or_zero_fuel : (n a : ℕ) → a ≤ n → bit_or a 0 ≡ a
or_zero_fuel n zero h = refl
or_zero_fuel zero (suc a) h = absurd (omega arith)
or_zero_fuel (suc n) (suc a) h =
    omega (arith, or-digits (suc a) 0, or_zero_fuel n (suc a / 2) (omega arith))

pub bit_and-zero : (a : ℕ) → bit_and a 0 ≡ 0
bit_and-zero a = and_zero_fuel a a (omega arith)

pub bit_or-zero : (a : ℕ) → bit_or a 0 ≡ a
bit_or-zero a = or_zero_fuel a a (omega arith)

-- The low masks.
pub bit_and_one : (a : ℕ) → bit_and a 0x1 ≡ a % 2
bit_and_one a = omega (arith, and-digits a 0x1, bit_and-zero (a / 2))

pub bit_and_three : (a : ℕ) → bit_and a 0x3 ≡ a % 4
bit_and_three a = omega (arith, and-digits a 0x3, bit_and_one (a / 2))

pub bit_and_seven : (a : ℕ) → bit_and a 0x7 ≡ a % 8
bit_and_seven a = omega (arith, and-digits a 0x7, bit_and_three (a / 2))

pub bit_and_fifteen : (a : ℕ) → bit_and a 0xf ≡ a % 16
bit_and_fifteen a = omega (arith, and-digits a 0xf, bit_and_seven (a / 2))

-- The and of the lowest four digits.
abbrev low_four : ℕ → ℕ → ℕ
low_four a b =
    min (a % 2) (b % 2)
    + 2 * min (a / 2 % 2) (b / 2 % 2)
    + 4 * min (a / 4 % 2) (b / 4 % 2)
    + 8 * min (a / 8 % 2) (b / 8 % 2)

and_four : (a b : ℕ) → bit_and a b ≡ bit_and (a / 16) (b / 16) * 16 + low_four a b
and_four a b =
    let e : (n : ℕ) → n / 2 / 2 ≡ n / 4 = λ n. omega arith in
    let f : (n : ℕ) → n / 4 / 2 ≡ n / 8 = λ n. omega arith in
    let g : (n : ℕ) → n / 8 / 2 ≡ n / 16 = λ n. omega arith in
    rw (and-digits a b, and-digits (a / 2) (b / 2), e a, e b, and-digits (a / 4) (b / 4))
      (rw (f a, f b, and-digits (a / 8) (b / 8), g a, g b) (omega arith))

low_four-mod : (a m d : ℕ) → d < 16 → low_four a (m * 16 + d) ≡ low_four (a % 16) d
low_four-mod a m d h =
    let a0 : a % 2 ≡ a % 16 % 2 = omega arith in
    let a1 : a / 2 % 2 ≡ a % 16 / 2 % 2 = omega arith in
    let a2 : a / 4 % 2 ≡ a % 16 / 4 % 2 = omega arith in
    let a3 : a / 8 % 2 ≡ a % 16 / 8 % 2 = omega arith in
    let d0 : (m * 16 + d) % 2 ≡ d % 2 = omega arith in
    let d1 : (m * 16 + d) / 2 % 2 ≡ d / 2 % 2 = omega arith in
    let d2 : (m * 16 + d) / 4 % 2 ≡ d / 4 % 2 = omega arith in
    let d3 : (m * 16 + d) / 8 % 2 ≡ d / 8 % 2 = omega arith in rw (a0, a1, a2, a3, d0, d1, d2, d3)

-- A mask splits at its lowest hexadecimal digit.
pub bit_and_hex :
    (a m d : ℕ) → d < 16 → bit_and a (m * 16 + d) ≡ bit_and (a / 16) m * 16 + bit_and (a % 16) d
bit_and_hex a m d h =
    let upper : (m * 16 + d) / 16 ≡ m = omega arith in
    let none_left : bit_and (a % 16) d ≡ low_four (a % 16) d =
      let z : a % 16 / 16 ≡ 0 = omega arith in
      rw (and_four (a % 16) d, z) (omega (arith, bit_and-bitwise 0 (d / 16))) in
    rw (and_four a (m * 16 + d), upper, low_four-mod a m d h, none_left)

-- The lowest digit of a mask is 0, 3, 7 or 15.
pub bit_and_hex_zero : (a m : ℕ) → bit_and a (m * 16) ≡ bit_and (a / 16) m * 16
bit_and_hex_zero a m =
    let e : m * 16 ≡ m * 16 + 0 = omega arith in
    rw (e, bit_and_hex a m 0 (omega arith)) (omega (arith, bit_and-zero (a % 16)))

pub bit_and_hex_three : (a m : ℕ) → bit_and a (m * 16 + 3) ≡ bit_and (a / 16) m * 16 + a % 4
bit_and_hex_three a m = omega (arith, bit_and_hex a m 3 (omega arith), bit_and_three (a % 16))

pub bit_and_hex_seven : (a m : ℕ) → bit_and a (m * 16 + 7) ≡ bit_and (a / 16) m * 16 + a % 8
bit_and_hex_seven a m = omega (arith, bit_and_hex a m 7 (omega arith), bit_and_seven (a % 16))

pub bit_and_hex_fifteen : (a m : ℕ) → bit_and a (m * 16 + 15) ≡ bit_and (a / 16) m * 16 + a % 16
bit_and_hex_fifteen a m = omega (arith, bit_and_hex a m 15 (omega arith), bit_and_fifteen (a % 16))

mul-two-pow : (q k : ℕ) → q * 2 ^ suc k ≡ 2 * (q * 2 ^ k)
mul-two-pow q k = omega (arith, ap (λ (t : ℕ). q * t) (pow-suc 2 k))

or_field : (k q r : ℕ) → r < 2 ^ k → bit_or (q * 2 ^ k) r ≡ q * 2 ^ k + r
or_field zero q r h = ground (arith, bit_or-zero q)
or_field (suc k) q r h = ground (
  arith,
  mul-two-pow q k,
  or-digits (q * 2 ^ suc k) r,
  or_field k q (r / 2) (omega (arith, pow-suc 2 k)),
)

-- `|` of two words is a sum where the second fits below the lowest bit of the first.
pub bit_or-add : (k a r : ℕ) → a % 2 ^ k ≡ 0 → r < 2 ^ k → bit_or a r ≡ a + r
bit_or-add k a r p h =
    let e : a / 2 ^ k * 2 ^ k ≡ a = omega (arith, div-add-mod a (2 ^ k)) in
    rw e at (or_field k (a / 2 ^ k) r h)

-- The same where the first word is known by an equation.
pub bit_or-add_of_eq : (k : ℕ) {x a r : ℕ} → x ≡ a → a % 2 ^ k ≡ 0 → r < 2 ^ k → bit_or x r ≡ a + r
bit_or-add_of_eq k {x} {a} {r} e p h = rw e (bit_or-add k a r p h)
