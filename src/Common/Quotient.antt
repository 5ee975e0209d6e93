-- ===== src/Common/Quotient.antt =====
-- Division by a quotient: a period computed from a rate gives the rate back.
use Prim.Native.Nat.{ℕ, ◌+◌, ◌*◌, ◌/◌, ◌%◌, ◌≤◌, ◌<◌}
use mathlib.Core.Path.{◌≡◌, sym, ap, ◌∙◌}
use native.Mathlib.Nat.{
  div-add-mod', mod-lt, mul-lt-mul_of_pos_right, div-eq_of_lt-le, mul_comm, mul_assoc, add-mul,
  mul-one, le-div_iff_mul-le, le_trans, mul-le-mul_left, div-mul-le_self,
}
use native.Mathlib.Omega.{arith}

-- The remainder of the first division, taken k times, is less than the quotient.
pub mul-div_quotient : (c k s : ℕ) → 1 ≤ s → 1 ≤ k → s * k ≤ c / s → c * k / (c / s) ≡ s * k
mul-div_quotient c k s hs hk h =
    let scaled : c * k ≡ s * k * (c / s) + c % s * k =
      ap (λ (t : ℕ). t * k) (sym (div-add-mod' c s))
      ∙ add-mul (c / s * s) (c % s) k
      ∙ ap (λ (t : ℕ). t + c % s * k) (mul_assoc (c / s) s k ∙ mul_comm (c / s) (s * k)) in
    let small : c % s * k < s * k = mul-lt-mul_of_pos_right (mod-lt c hs) hk in
    div-eq_of_lt-le (c / s) (omega arith) (omega arith)

-- The quotient by a greater divisor is smaller.
pub div-le_of_le : (c s t : ℕ) → 1 ≤ s → s ≤ t → c / t ≤ c / s
div-le_of_le c s t hs h =
    (le-div_iff_mul-le hs).1 (le_trans (mul-le-mul_left (c / t) h) (div-mul-le_self c t))

pub div_quotient : (n p : ℕ) → 1 ≤ p → p ≤ n / p → n / (n / p) ≡ p
div_quotient n p hp h =
    let scaled : n * 1 / (n / p) ≡ p * 1 = mul-div_quotient n 1 p hp (omega arith) (omega arith) in
    ap (λ (t : ℕ). t / (n / p)) (sym (mul-one n)) ∙ scaled ∙ mul-one p
