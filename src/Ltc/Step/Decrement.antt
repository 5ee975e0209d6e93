-- ===== src/Ltc/Step/Decrement.antt =====
-- `hdspe_ltc32_decr` of hdspe_ltc_math.c on the codes of a format: the blocks one by one, from
-- the hours down, and the whole.
use snd_hdspe.Common.{
  ℕ, ◌+◌, ◌-◌, ◌*◌, ◌/◌, ◌%◌, ◌^◌, ◌≤◌, ◌≡◌, arith, Bool, true, sym, ◌∙◌, if◌then◌else◌, ◌==◌,
  if_zero, ne_zero,
}
use snd_hdspe.Common.Bits.{
  bit_and_three, bit_and_seven, bit_and_fifteen, bit_or-add, bit_or-add_of_eq,
}
use snd_hdspe.Common.Int.{pos, ◌-ℤ◌, is_negative, is_negative-pred, pos_part-pred}
use snd_hdspe.Ltc.{Hmsf}
use snd_hdspe.Ltc.Fields.{
  mask_30000000, mask_3f000000, mask_3f700000, mask_3f7f0000, mask_3f7f7000, mask_3f7f7f00,
  mask_3f7f7f30, hours_bits, minutes_bits, hours_tens, hours_units, minutes_tens, minutes_units,
  seconds_tens, seconds_units, frames_tens, frames_units,
}
use snd_hdspe.Ltc.Time.{IsCode, time_of, hours_part, minutes_part, seconds_part, frames_part}
use snd_hdspe.Ltc.Step.{
  decr_hours, decr_tens_of_minutes, decr_minutes, decr_tens_of_seconds, decr_seconds,
  decr_frame_digit, decr,
}

-- The hours and minutes one minute before t, and the hours, minutes and seconds one second before
-- t, as the upper parts of a code.
abbrev pub minute_before : Hmsf → ℕ
minute_before t =
    if t.m == 0
    then hours_part ((t.h + 23) % 24) + minutes_part 59
    else hours_part t.h + minutes_part (t.m - 1)

abbrev pub second_before : Hmsf → ℕ
second_before t =
    if t.s == 0
    then minute_before t + seconds_part 59
    else hours_part t.h + minutes_part t.m + seconds_part (t.s - 1)

ruleset digit_laws =
    (is_negative-pred, pos_part-pred, bit_and_three, bit_and_seven, bit_and_fifteen)

module _ (fps : ℕ) (df : Bool) (x : ℕ) (c : IsCode fps df x) where
  decr_hours-eq : decr_hours x ≡ hours_part (((time_of x).h + 23) % 24)
  unfolding decr_hours
  decr_hours-eq =
      simp (digit_laws, mask_30000000)
        (if_zero (hours_units x)
          (λ hu.
            if_zero (hours_tens x) (λ ht. rw (hu, ht))
              (λ ht.
                bit_or-add 28 ((hours_tens x - 1) * 2 ^ 28) (9 * 2 ^ 24) (omega arith) (omega arith)
                ∙ omega arith))
          (λ hu.
            bit_or-add 28 (hours_tens x * 2 ^ 28) ((hours_units x - 1) * 2 ^ 24) (omega arith)
              (omega arith)
            ∙ omega arith))

  decr_tens_of_minutes-zero :
      minutes_tens x ≡ 0
      → decr_tens_of_minutes x ≡ hours_part (((time_of x).h + 23) % 24) + 5 * 0x100000
  unfolding decr_tens_of_minutes
  decr_tens_of_minutes-zero z =
      simp (digit_laws, z)
        (bit_or-add_of_eq 24 {r = 5 * 2 ^ 20} decr_hours-eq (omega arith) (omega arith))

  decr_tens_of_minutes_pos :
      1 ≤ minutes_tens x
      → decr_tens_of_minutes x ≡ hours_part (time_of x).h + (minutes_tens x - 1) * 0x100000
  unfolding decr_tens_of_minutes
  decr_tens_of_minutes_pos p =
      simp (digit_laws, ne_zero _ p)
        (bit_or-add_of_eq 24 (mask_3f000000 x) (omega arith) (omega arith) ∙ omega arith)

  decr_minutes-eq : decr_minutes x ≡ minute_before (time_of x)
  unfolding decr_minutes
  decr_minutes-eq = simp digit_laws (
      if_zero (minutes_units x)
        (λ mu. sym (
          if_zero (time_of x).m
            (λ z. sym (
              bit_or-add_of_eq 20 {r = 9 * 2 ^ 16} (decr_tens_of_minutes-zero (omega arith))
                (omega arith) (omega arith)
              ∙ omega arith))
            (λ p. sym (
              bit_or-add_of_eq 20 {r = 9 * 2 ^ 16} (decr_tens_of_minutes_pos (omega arith))
                (omega arith) (omega arith)
              ∙ omega arith))))
        (λ mu. rw (ne_zero (time_of x).m (omega arith)) (
          bit_or-add_of_eq 20 {r = (minutes_units x - 1) * 2 ^ 16} (mask_3f700000 x) (omega arith)
            (omega arith)
          ∙ omega arith)))

  minute_before_low : minute_before (time_of x) % 2 ^ 16 ≡ 0
  minute_before_low = ground arith

  decr_tens_of_seconds-zero :
      seconds_tens x ≡ 0 → decr_tens_of_seconds x ≡ minute_before (time_of x) + 5 * 0x1000
  unfolding decr_tens_of_seconds
  decr_tens_of_seconds-zero z =
      simp (digit_laws, z)
        (bit_or-add_of_eq 16 {r = 5 * 2 ^ 12} decr_minutes-eq minute_before_low (omega arith))

  decr_tens_of_seconds_pos :
      1 ≤ seconds_tens x
      → decr_tens_of_seconds x ≡ hours_bits x + minutes_bits x + (seconds_tens x - 1) * 0x1000
  unfolding decr_tens_of_seconds
  decr_tens_of_seconds_pos p =
      simp (digit_laws, ne_zero _ p)
        (bit_or-add_of_eq 16 (mask_3f7f0000 x) (omega arith) (omega arith))

  decr_seconds-eq : decr_seconds x ≡ second_before (time_of x)
  unfolding decr_seconds
  decr_seconds-eq = simp digit_laws (
      if_zero (seconds_units x)
        (λ su. sym (
          if_zero (time_of x).s
            (λ z. sym (
              bit_or-add_of_eq 12 {r = 9 * 2 ^ 8} (decr_tens_of_seconds-zero (omega arith))
                (omega (arith, minute_before_low)) (omega arith)
              ∙ omega arith))
            (λ p. sym (
              bit_or-add_of_eq 12 {r = 9 * 2 ^ 8} (decr_tens_of_seconds_pos (omega arith))
                (omega arith) (omega arith)
              ∙ omega arith))))
        (λ su. rw (ne_zero (time_of x).s (omega arith)) (
          bit_or-add_of_eq 12 {r = (seconds_units x - 1) * 2 ^ 8} (mask_3f7f7000 x) (omega arith)
            (omega arith)
          ∙ omega arith)))

  second_before_low : second_before (time_of x) % 2 ^ 8 ≡ 0
  second_before_low = ground (arith, minute_before_low)

  -- The last frame of the second before.
  pub decr-second :
      1 ≤ fps
      → fps ≤ 40
      → frames_tens x ≡ 0
      → is_negative (decr_frame_digit x df) ≡ true
      → decr x fps df ≡ second_before (time_of x) + frames_part (fps - 1)
  unfolding decr
  decr-second p r z n =
      simp (digit_laws, z, n)
        (bit_or-add_of_eq 4 {r = fps - 1 - (fps - 1) / 10 * 10}
            (bit_or-add_of_eq 8 {r = (fps - 1) / 10 * 2 ^ 4} decr_seconds-eq second_before_low
              (omega arith))
            (omega (arith, second_before_low)) (omega arith)
          ∙ omega arith)

  -- The frame before, in the same second.
  pub decr-frame :
      1 ≤ (time_of x).f
      → decr_frame_digit x df ≡ pos (frames_units x) -ℤ pos 1
      → decr x fps df
        ≡ hours_part (time_of x).h
          + minutes_part (time_of x).m
          + seconds_part (time_of x).s
          + frames_part ((time_of x).f - 1)
  unfolding decr
  decr-frame p n = rw n (
      simp digit_laws (
        if_zero (frames_units x)
          (λ z. rw (ne_zero (frames_tens x) (omega arith)) (
            bit_or-add_of_eq 4 {r = 9}
              (bit_or-add_of_eq 8 {r = (frames_tens x - 1) * 2 ^ 4} (mask_3f7f7f00 x) (omega arith)
                (omega arith))
              (omega arith) (omega arith)
            ∙ omega arith))
          (λ q.
            bit_or-add_of_eq 4 {r = frames_units x - 1} (mask_3f7f7f30 x) (omega arith)
              (omega arith)
            ∙ omega arith)))
