-- ===== src/Ltc/Step/DropRule.antt =====
-- The drop-frame rule of `hdspe_ltc32_decr` of hdspe_ltc_math.c.
use snd_hdspe.Common.{
  ℕ, ◌*◌, ◌+◌, ◌/◌, ◌%◌, ◌≡◌, arith, true, false, ◌==◌, not, ◌&&◌, Bool, Bool-cases, inl, inr, refl,
  sym, ◌∙◌, ltb, ne_zero, ◌≢◌,
}
use mathlib.Core.Bool.{false≢true}
use snd_hdspe.Common.Bits.{bit_and_fifteen}
use snd_hdspe.Common.Int.{pos, ◌-ℤ◌, ltb_ℤ, is_negative}
use snd_hdspe.Ltc.{Hmsf}
use snd_hdspe.Ltc.Fields.{
  frames_units, frames_tens, minutes_units, seconds_tens, mask_7ff0, mask_f0000,
}
use snd_hdspe.Ltc.Time.{IsCode, time_of}
use snd_hdspe.Ltc.Step.{decr_frame_digit}

-- The bits of a code between the frames and the seconds.
abbrev pub spare_bits : ℕ → ℕ
spare_bits x = x / 0x40 % 4

pub decr_frame_digit_ndf : (x : ℕ) → decr_frame_digit x false ≡ pos (frames_units x) -ℤ pos 1
unfolding decr_frame_digit
decr_frame_digit_ndf x = rw (bit_and_fifteen x)

-- A counted-down digit below 2.
below_two : (n : ℕ) → ltb_ℤ (pos n -ℤ pos 1) (pos 2) ≡ ltb n 3
unfolding ◌-ℤ◌
below_two n = ground arith

-- The time at which the rule applies.
abbrev pub after_drop : Hmsf → Bool
after_drop t = (t.s == 0) && not (t.m % 10 == 0) && (t.f == 2)

module _ (x : ℕ) (spare : spare_bits x ≡ 0) (c : IsCode 30 true x) where
  abbrev rule : Bool
  rule =
      ltb (frames_units x) 3
      && (x / 0x10 % 0x800 * 0x10 == 0)
      && not (minutes_units x * 0x10000 == 0)

  low_part : x / 0x10 % 0x800 ≡ frames_tens x + 16 * (time_of x).s + 96 * seconds_tens x
  low_part = omega arith

  rule-true : rule ≡ true → (after_drop (time_of x) ≡ true) × (frames_units x ≡ 2)
  rule-true h = ground (arith, low_part, c.time.not_dropped)

  rule-after_drop : after_drop (time_of x) ≡ true → rule ≡ true
  rule-after_drop h = ground (arith, low_part)

  -- Right after a dropped pair the frame digit goes below 0.
  pub decr_frame_digit-after_drop :
      after_drop (time_of x) ≡ true → is_negative (decr_frame_digit x true) ≡ true
  unfolding decr_frame_digit
  decr_frame_digit-after_drop h =
      let b : rule ≡ true = rule-after_drop h in
      rw
        (
          bit_and_fifteen x,
          below_two (frames_units x),
          mask_7ff0 x,
          mask_f0000 x,
          b,
          (rule-true b).1,
        )
        (unfold ◌-ℤ◌ is_negative in refl)

  -- Anywhere else it is counted down by one.
  pub decr_frame_digit-eq :
      after_drop (time_of x) ≡ false → decr_frame_digit x true ≡ pos (frames_units x) -ℤ pos 1
  unfolding decr_frame_digit
  decr_frame_digit-eq h = elim (Bool-cases rule) [
    | inl b ↦ absurd (false≢true (sym h ∙ (rule-true b).0))
    | inr b ↦ rw (bit_and_fifteen x, below_two (frames_units x), mask_7ff0 x, mask_f0000 x, b)
  ]

-- With a spare bit set the rule never applies.
pub decr_frame_digit_spare :
    (x : ℕ) → spare_bits x ≢ 0 → decr_frame_digit x true ≡ pos (frames_units x) -ℤ pos 1
unfolding decr_frame_digit
decr_frame_digit_spare x h =
    let low : (x / 0x10 % 0x800 * 0x10 == 0) ≡ false = ne_zero _ (omega arith) in
    rw (bit_and_fifteen x, below_two (frames_units x), mask_7ff0 x, low)
      (elim (Bool-cases (ltb (frames_units x) 3)) [ inl b ↦ rw b | inr b ↦ rw b ])
