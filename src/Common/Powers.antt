-- ===== src/Common/Powers.antt =====
-- Powers of two.
use Prim.Native.Nat.{ℕ, zero, suc, ◌+◌, ◌-◌, ◌*◌, ◌^◌, ◌≤◌}
use mathlib.Core.Path.{◌≡◌, ap, ◌∙◌}
use native.Mathlib.Nat.{pow-suc, pow-le-pow_right}
use native.Mathlib.Omega.{arith}

pow_sum : (j k : ℕ) → 2 ^ j * 2 ^ k ≡ 2 ^ (j + k)
pow_sum j zero = let e : j + 0 ≡ j = omega arith in rw e (omega arith)
pow_sum j (suc k) =
    let e : j + suc k ≡ suc (j + k) = omega arith in
    rw (e, pow-suc 2 k, pow-suc 2 (j + k)) (omega (arith, pow_sum j k))

pub pow_mono : (i j : ℕ) → i ≤ j → 2 ^ i ≤ 2 ^ j
pow_mono i j h = pow-le-pow_right (omega arith) h

-- Two powers of two of a word make up the word.
pub power_split : (j w : ℕ) → j ≤ w → 2 ^ j * 2 ^ (w - j) ≡ 2 ^ w
power_split j w h =
    let e : j + (w - j) ≡ w = omega arith in pow_sum j (w - j) ∙ ap (λ (t : ℕ). 2 ^ t) e
