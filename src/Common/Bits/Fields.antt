-- ===== src/Common/Bits/Fields.antt =====
-- Bit fields of a register: reading a field, and putting a value into it.
use Prim.Native.Nat.{ℕ, zero, suc, ◌+◌, ◌*◌, ◌/◌, ◌%◌, ◌^◌, ◌≤◌, ◌<◌}
use mathlib.Core.Path.{◌≡◌, refl, sym, ap, ◌∙◌}
use mathlib.Core.Logic.{◌⊎◌, inl, inr}
use native.Mathlib.Nat.{pow-suc, mul_comm, mod-one, div-div-eq-div-mul}
use native.Mathlib.Omega.{arith}
use snd_hdspe.Common.Bits.Masks.{mod-double, one-le-pow}

-- The field of w bits from bit s on.
unfoldable pub get_field : ℕ → ℕ → ℕ → ℕ
get_field zero w r = r % 2 ^ w
get_field (suc s) w r = get_field s w (r / 2)

-- The register r with the lowest w bits of v in its field of w bits from bit s on.
unfoldable pub put_field : ℕ → ℕ → ℕ → ℕ → ℕ
put_field zero zero v r = r
put_field zero (suc w) v r = 2 * put_field zero w (v / 2) (r / 2) + v % 2
put_field (suc s) w v r = 2 * put_field s w v (r / 2) + r % 2

half : (x b : ℕ) → (2 * x + b % 2) / 2 ≡ x
half x b = omega arith

digit : (x b : ℕ) → (2 * x + b % 2) % 2 ≡ b % 2
digit x b = omega arith

mod-pow_suc : (w r : ℕ) → r % 2 ^ suc w ≡ 2 * (r / 2 % 2 ^ w) + r % 2
mod-pow_suc w r =
    let double : 2 ^ suc w ≡ 2 * 2 ^ w = pow-suc 2 w ∙ mul_comm (2 ^ w) 2 in
    rw double (omega (arith, mod-double r (2 ^ w) (one-le-pow w)))

pub get_field-eq : (s w r : ℕ) → get_field s w r ≡ r / 2 ^ s % 2 ^ w
unfolding get_field
get_field-eq zero w r = ap (λ x. x % 2 ^ w) (omega arith)
get_field-eq (suc s) w r =
    let double : 2 ^ suc s ≡ 2 * 2 ^ s = pow-suc 2 s ∙ mul_comm (2 ^ s) 2 in
    get_field-eq s w (r / 2)
    ∙ ap (λ x. x % 2 ^ w) (div-div-eq-div-mul r 2 (2 ^ s) ∙ ap (λ x. r / x) (sym double))

pub get_field-put_field : (s w v r : ℕ) → get_field s w (put_field s w v r) ≡ v % 2 ^ w
unfolding get_field put_field
get_field-put_field zero zero v r = mod-one r ∙ sym (mod-one v)
get_field-put_field zero (suc w) v r =
    mod-pow_suc w _
    ∙ (rw
          (
            half (put_field zero w (v / 2) (r / 2)) v,
            digit (put_field zero w (v / 2) (r / 2)) v,
            get_field-put_field zero w (v / 2) (r / 2),
          )
          refl
        ∙ sym (mod-pow_suc w v))
get_field-put_field (suc s) w v r =
    ap (get_field s w) (half (put_field s w v (r / 2)) r) ∙ get_field-put_field s w v (r / 2)

below : (s w t u v r : ℕ) → t + u ≤ s → get_field t u (put_field s w v r) ≡ get_field t u r
unfolding get_field put_field
below zero w zero zero v r h = mod-one _ ∙ sym (mod-one r)
below zero w zero (suc u) v r h = absurd (omega arith)
below zero w (suc t) u v r h = absurd (omega arith)
below (suc s) w zero zero v r h = mod-one _ ∙ sym (mod-one r)
below (suc s) w zero (suc u) v r h =
    mod-pow_suc u _
    ∙ (rw
          (
            half (put_field s w v (r / 2)) r,
            digit (put_field s w v (r / 2)) r,
            below s w zero u v (r / 2) (omega arith),
          )
          refl
        ∙ sym (mod-pow_suc u r))
below (suc s) w (suc t) u v r h =
    ap (get_field t u) (half (put_field s w v (r / 2)) r) ∙ below s w t u v (r / 2) (omega arith)

above : (s w t u v r : ℕ) → s + w ≤ t → get_field t u (put_field s w v r) ≡ get_field t u r
unfolding get_field put_field
above zero zero t u v r h = refl
above zero (suc w) zero u v r h = absurd (omega arith)
above zero (suc w) (suc t) u v r h =
    ap (get_field t u) (half (put_field zero w (v / 2) (r / 2)) v)
    ∙ above zero w t u (v / 2) (r / 2) (omega arith)
above (suc s) w zero u v r h = absurd (omega arith)
above (suc s) w (suc t) u v r h =
    ap (get_field t u) (half (put_field s w v (r / 2)) r) ∙ above s w t u v (r / 2) (omega arith)

-- Fields that do not overlap.
pub get_field-put_field_other :
    (s w t u v r : ℕ)
    → (s + w ≤ t) ⊎ (t + u ≤ s)
    → get_field t u (put_field s w v r) ≡ get_field t u r
get_field-put_field_other s w t u v r (inl h) = above s w t u v r h
get_field-put_field_other s w t u v r (inr h) = below s w t u v r h

-- Putting the value that the field has.
pub put_field_same : (s w r : ℕ) → put_field s w (get_field s w r) r ≡ r
unfolding get_field put_field
put_field_same zero zero r = refl
put_field_same zero (suc w) r =
    let low : r % 2 ^ suc w / 2 ≡ r / 2 % 2 ^ w = omega (arith, mod-pow_suc w r) in
    let last : r % 2 ^ suc w % 2 ≡ r % 2 = omega (arith, mod-pow_suc w r) in
    rw (low, last, put_field_same zero w (r / 2)) (omega arith)
put_field_same (suc s) w r = rw (put_field_same s w (r / 2)) (omega arith)

pub put_field_bound : (n s w v r : ℕ) → r < 2 ^ n → s + w ≤ n → put_field s w v r < 2 ^ n
unfolding put_field
put_field_bound n zero zero v r h l = h
put_field_bound zero zero (suc w) v r h l = absurd (omega arith)
put_field_bound zero (suc s) w v r h l = absurd (omega arith)
put_field_bound (suc n) zero (suc w) v r h l =
    let double : 2 ^ suc n ≡ 2 * 2 ^ n = pow-suc 2 n ∙ mul_comm (2 ^ n) 2 in
    omega (
      arith,
      double,
      put_field_bound n zero w (v / 2) (r / 2) (omega (arith, double)) (omega arith),
    )
put_field_bound (suc n) (suc s) w v r h l =
    let double : 2 ^ suc n ≡ 2 * 2 ^ n = pow-suc 2 n ∙ mul_comm (2 ^ n) 2 in
    omega (arith, double, put_field_bound n s w v (r / 2) (omega (arith, double)) (omega arith))
