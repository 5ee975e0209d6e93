-- ===== src/Common/Bits/Test.antt =====
-- The bits of a number, and the bit operations bit by bit.
use Prim.Native.Nat.{ℕ, zero, suc, ◌-◌, ◌*◌, ◌/◌, ◌%◌, ◌^◌, ◌<◌, bit_and, bit_or}
use mathlib.Core.Path.{◌≡◌, ap, ◌∙◌}
use mathlib.Core.Bool.{Bool, true, not, ◌&&◌, ◌||◌}
use native.Mathlib.Nat.{pow-suc, mul_comm}
use native.Mathlib.Omega.{arith}
use snd_hdspe.Common.Tests.{◌==◌}
use snd_hdspe.Common.Bits.{and-digits, or-digits, bit_or-zero}
use snd_hdspe.Common.Bits.Masks.{one-le-pow}

unfoldable pub bit : ℕ → ℕ → Bool
bit zero a = not (a % 2 == 0)
bit (suc k) a = bit k (a / 2)

pub bit-bit_and : (k a b : ℕ) → bit k (bit_and a b) ≡ (bit k a && bit k b)
unfolding bit
bit-bit_and zero a b = ground (arith, and-digits a b)
bit-bit_and (suc k) a b =
    let half : bit_and a b / 2 ≡ bit_and (a / 2) (b / 2) = omega (arith, and-digits a b) in
    ap (bit k) half ∙ bit-bit_and k (a / 2) (b / 2)

pub bit-bit_or : (k a b : ℕ) → bit k (bit_or a b) ≡ (bit k a || bit k b)
unfolding bit
bit-bit_or zero a b = ground (arith, or-digits a b)
bit-bit_or (suc k) a b =
    let half : bit_or a b / 2 ≡ bit_or (a / 2) (b / 2) = omega (arith, or-digits a b) in
    ap (bit k) half ∙ bit-bit_or k (a / 2) (b / 2)

-- The complement of a word of w bits.
pub bit-complement : (w k x : ℕ) → k < w → x < 2 ^ w → bit k (2 ^ w - 1 - x) ≡ not (bit k x)
unfolding bit
bit-complement zero k x l h = absurd (omega arith)
bit-complement (suc w) zero x l h =
    let double : 2 ^ suc w ≡ 2 * 2 ^ w = pow-suc 2 w ∙ mul_comm (2 ^ w) 2 in
    ground (arith, double, one-le-pow w)
bit-complement (suc w) (suc k) x l h =
    let double : 2 ^ suc w ≡ 2 * 2 ^ w = pow-suc 2 w ∙ mul_comm (2 ^ w) 2 in
    let half : (2 ^ suc w - 1 - x) / 2 ≡ 2 ^ w - 1 - x / 2 = omega (arith, double, one-le-pow w) in
    ap (bit k) half ∙ bit-complement w k (x / 2) (omega arith) (omega (arith, double))

-- Numbers with the same bits are equal.
pub bit_ext : (w a b : ℕ) → a < 2 ^ w → b < 2 ^ w → ((k : ℕ) → bit k a ≡ bit k b) → a ≡ b
unfolding bit
bit_ext zero a b l m h = omega arith
bit_ext (suc w) a b l m h =
    let double : 2 ^ suc w ≡ 2 * 2 ^ w = pow-suc 2 w ∙ mul_comm (2 ^ w) 2 in
    let halves =
      bit_ext w (a / 2) (b / 2) (omega (arith, double)) (omega (arith, double)) (λ k. h (suc k)) in
    let digit : a % 2 ≡ b % 2 = ground (arith, h 0) in omega (arith, halves, digit)

-- Setting a bit that is set.
pub bit_or_set : (k x : ℕ) → bit k x ≡ true → bit_or x (2 ^ k) ≡ x
unfolding bit
bit_or_set zero x set = ground (arith, or-digits x 1, bit_or-zero (x / 2))
bit_or_set (suc k) x set =
    let double : 2 ^ suc k ≡ 2 * 2 ^ k = pow-suc 2 k ∙ mul_comm (2 ^ k) 2 in
    let half : bit_or (x / 2) (2 ^ suc k / 2) ≡ x / 2 =
      ap (bit_or (x / 2)) {y = 2 ^ k} (omega (arith, double)) ∙ bit_or_set k (x / 2) set in
    omega (arith, or-digits x (2 ^ suc k), half, double)
