-- ===== src/Ltc/Order.antt =====
-- `hdspe_ltc32_cmp` and `hdspe_ltc32_running` of hdspe_ltc_math.c against frame numbers.
use native.Mathlib.Decide.{dec_lt}
use snd_hdspe.Common.{
  ℕ, ◌<◌, ◌≡◌, ◌↔◌, arith, Bool, ap, sym, ◌∙◌, bit_and, ltb, lt→ltb, le→ltb_false,
}
use snd_hdspe.Common.Int.{pos, ◌-ℤ◌, is_negative}
use snd_hdspe.Ltc.{time_mask, cmp, to_frames}
use snd_hdspe.Ltc.Fields.{mask_time}
use snd_hdspe.Ltc.Time.{IsFormat, IsCode, time_of, code-time_of}
use snd_hdspe.Ltc.Frames.{frame_number, to_frames-eq-frame_number, frame_number_mono}

-- Masked codes of a format are ordered as their frame numbers are.
masked_mono :
    (fps : ℕ) (df : Bool) (x y : ℕ)
    → IsFormat fps df
    → IsCode fps df x
    → IsCode fps df y
    → bit_and x time_mask < bit_and y time_mask
    → to_frames x fps df < to_frames y fps df
masked_mono fps df x y r c d h =
    rw (to_frames-eq-frame_number x fps df r c, to_frames-eq-frame_number y fps df r d)
      (frame_number_mono fps df (time_of x) (time_of y) r c.time d.time
        (rw (code-time_of fps df x c, code-time_of fps df y d) h))

-- Codes that agree in the bits of the time have one time.
pub time_of_masked : (x y : ℕ) → bit_and x time_mask ≡ bit_and y time_mask → time_of x ≡ time_of y
time_of_masked x y e = let s = mask_time x in let t = mask_time y in ground arith

same_frames :
    (fps : ℕ) (df : Bool) (x y : ℕ)
    → IsFormat fps df
    → IsCode fps df x
    → IsCode fps df y
    → bit_and x time_mask ≡ bit_and y time_mask
    → to_frames x fps df ≡ to_frames y fps df
same_frames fps df x y r c d e =
    to_frames-eq-frame_number x fps df r c
    ∙ ap (frame_number fps df) (time_of_masked x y e)
    ∙ sym (to_frames-eq-frame_number y fps df r d)

sign_of_difference : (a b : ℕ) → is_negative (pos a -ℤ pos b) ≡ ltb a b
unfolding is_negative ◌-ℤ◌
sign_of_difference a b = ground arith

-- Two pairs of numbers in the same order give the same test.
same_test :
    (a b p q : ℕ)
    → (a < b → p < q)
    → (b < a → q < p)
    → (a ≡ b → p ≡ q)
    → (ltb a b ≡ ltb p q) × ((a ≡ b) ↔ (p ≡ q))
same_test a b p q below above same = elim (dec_lt a b) [
  | yes h ↦
      (lt→ltb a b h ∙ sym (lt→ltb p q (below h)), (same, λ e. absurd (omega (arith, below h))))
  | no h ↦ elim (dec_lt b a) [
    | yes k ↦ (
      le→ltb_false a b (omega arith) ∙ sym (le→ltb_false p q (omega (arith, above k))),
      (same, λ e. absurd (omega (arith, above k))),
    )
    | no k ↦
        let e : a ≡ b = omega arith in
        (
          le→ltb_false a b (omega arith) ∙ sym (le→ltb_false p q (omega (arith, same e))),
          (same, λ _. e),
        )
  ]
]

difference_zero : (a b : ℕ) → (pos a -ℤ pos b ≡ pos 0) ↔ (a ≡ b)
unfolding ◌-ℤ◌
difference_zero a b = (λ h. ground arith, λ h. ground arith)

-- `cmp` is negative exactly where the first code has the smaller frame number, and 0 exactly
-- where the frame numbers are equal.
pub cmp-to_frames :
    (fps : ℕ) (df : Bool) (x y : ℕ)
    → IsFormat fps df
    → IsCode fps df x
    → IsCode fps df y
    → (is_negative (cmp x y) ≡ ltb (to_frames x fps df) (to_frames y fps df))
      × ((cmp x y ≡ pos 0) ↔ (to_frames x fps df ≡ to_frames y fps df))
unfolding cmp
cmp-to_frames fps df x y r c d =
    let a : ℕ = bit_and x time_mask in
    let b : ℕ = bit_and y time_mask in
    let order : (ltb a b ≡ ltb (to_frames x fps df) (to_frames y fps df))
        × ((a ≡ b) ↔ (to_frames x fps df ≡ to_frames y fps df)) =
      same_test a b _ _ (masked_mono fps df x y r c d) (masked_mono fps df y x r d c)
        (same_frames fps df x y r c d) in
    (
      sign_of_difference a b ∙ order.0,
      (λ h. order.1.0 ((difference_zero a b).0 h), λ h. (difference_zero a b).1 (order.1.1 h)),
    )
