-- ===== src/Ltc/Step/Increment.antt =====
-- `hdspe_ltc32_incr` of hdspe_ltc_math.c on the codes of a format: the blocks one by one, from
-- the hours down, and the whole.
use snd_hdspe.Common.{
  ℕ, ◌+◌, ◌*◌, ◌%◌, ◌^◌, ◌≤◌, ◌<◌, ◌≡◌, arith, Bool, ◌∙◌, bit_or, if◌then◌else◌, leb, ◌==◌, not,
  ◌&&◌, shr,
}
use snd_hdspe.Common.Bits.{bit_and_three, bit_and_seven, bit_and_fifteen, bit_or-add, zero-bit_or}
use snd_hdspe.Ltc.{Hmsf}
use snd_hdspe.Ltc.Fields.{
  mask_3f000000, mask_3f700000, mask_3f7f0000, mask_3f7f7000, mask_3f7f7f00, hours_bits,
  minutes_bits, seconds_bits, hours_tens, hours_units, minutes_tens, minutes_units, seconds_tens,
  seconds_units, frames_tens, frames_units,
}
use snd_hdspe.Ltc.Time.{IsCode, time_of, hours_part, minutes_part, seconds_part, frames_part}
use snd_hdspe.Ltc.Step.{
  incr_hours, incr_tens_of_minutes, incr_minutes_carries, incr_minutes, incr_tens_of_seconds,
  incr_seconds, incr_first_frame, incr,
}

-- The hours and minutes one minute after t, and the hours, minutes and seconds one second after t,
-- as the upper parts of a code.
abbrev pub minute_after : Hmsf → ℕ
minute_after t =
    if leb 59 t.m then hours_part ((t.h + 1) % 24) else hours_part t.h + minutes_part (t.m + 1)

abbrev pub second_after : Hmsf → ℕ
second_after t =
    if leb 59 t.s
    then minute_after t
    else hours_part t.h + minutes_part t.m + seconds_part (t.s + 1)

-- The first frame of the second after t: 2 where frames 0 and 1 are dropped.
abbrev pub first_frame : Bool → Hmsf → ℕ
first_frame df t =
    if df && leb 59 t.s && not (leb 59 t.m) && not ((t.m + 1) % 10 == 0) then 2 else 0

module _ (fps : ℕ) (df : Bool) (x : ℕ) (c : IsCode fps df x) where
  incr_hours-eq : incr_hours x ≡ hours_part (((time_of x).h + 1) % 24)
  unfolding incr_hours
  incr_hours-eq =
      let ht : ℕ = hours_tens x in
      let hu : ℕ = hours_units x in
      rw (bit_and_fifteen (shr x 24), bit_and_three (shr x 28))
        (ground (
          arith,
          c.hours_digit,
          c.time.hours,
          bit_or-add 28 ((ht + 1) * 2 ^ 28) (0 * 2 ^ 24) (omega arith) (omega arith),
          bit_or-add 28 (ht * 2 ^ 28) ((hu + 1) * 2 ^ 24) (omega arith) (omega arith),
        ))

  incr_tens_of_minutes-eq : incr_tens_of_minutes x ≡ (
      if leb 5 (minutes_tens x)
      then hours_part (((time_of x).h + 1) % 24)
      else hours_part (time_of x).h + (minutes_tens x + 1) * 0x100000)
  unfolding incr_tens_of_minutes
  incr_tens_of_minutes-eq =
      rw (bit_and_seven (shr x 20), incr_hours-eq, mask_3f000000 x)
        (ground (
          arith,
          bit_or-add 24 (hours_part (((time_of x).h + 1) % 24)) (0 * 2 ^ 20) (omega arith)
              (omega arith),
          bit_or-add 24 (hours_bits x) ((minutes_tens x + 1) * 2 ^ 20) (omega arith),
        ))

  incr_minutes-eq : incr_minutes x ≡ minute_after (time_of x)
  unfolding incr_minutes incr_minutes_carries
  incr_minutes-eq =
      rw (bit_and_fifteen (shr x 16), incr_tens_of_minutes-eq, mask_3f700000 x)
        (ground (
          arith,
          bit_or-add 20 (hours_part (((time_of x).h + 1) % 24)) (0 * 2 ^ 16) (omega arith)
              (omega arith),
          bit_or-add 20 (hours_part (time_of x).h + (minutes_tens x + 1) * 0x100000) (0 * 2 ^ 16)
              (omega arith) (omega arith),
          bit_or-add 20 (hours_bits x + minutes_tens x * 0x100000) ((minutes_units x + 1) * 2 ^ 16)
              (omega arith),
        ))

  minute_after_low : minute_after (time_of x) % 2 ^ 16 ≡ 0
  minute_after_low = ground arith

  incr_tens_of_seconds-eq : incr_tens_of_seconds x ≡ (
      if leb 5 (seconds_tens x)
      then minute_after (time_of x)
      else hours_bits x + minutes_bits x + (seconds_tens x + 1) * 0x1000)
  unfolding incr_tens_of_seconds
  incr_tens_of_seconds-eq =
      rw (bit_and_seven (shr x 12), incr_minutes-eq, mask_3f7f0000 x)
        (ground (
          arith,
          bit_or-add 16 (minute_after (time_of x)) (0 * 2 ^ 12) minute_after_low (omega arith),
          bit_or-add 16 (hours_bits x + minutes_bits x) ((seconds_tens x + 1) * 2 ^ 12)
              (omega arith),
        ))

  incr_seconds-eq : incr_seconds x ≡ second_after (time_of x)
  unfolding incr_seconds
  incr_seconds-eq =
      rw (bit_and_fifteen (shr x 8), incr_tens_of_seconds-eq, mask_3f7f7000 x)
        (ground (
          arith,
          bit_or-add 12 (minute_after (time_of x)) (0 * 2 ^ 8) (omega (arith, minute_after_low))
              (omega arith),
          bit_or-add 12 (hours_bits x + minutes_bits x + (seconds_tens x + 1) * 0x1000) (0 * 2 ^ 8)
              (omega arith) (omega arith),
          bit_or-add 12 (hours_bits x + minutes_bits x + seconds_tens x * 0x1000)
              ((seconds_units x + 1) * 2 ^ 8) (omega arith),
        ))

  incr_first_frame-eq : incr_first_frame x df ≡ first_frame df (time_of x)
  unfolding incr_first_frame incr_minutes_carries
  incr_first_frame-eq =
      rw (bit_and_fifteen (shr x 8), bit_and_seven (shr x 12), bit_and_fifteen (shr x 16))
        (ground arith)

  second_after_low : second_after (time_of x) % 2 ^ 8 ≡ 0
  second_after_low = ground (arith, minute_after_low)

  first_frame-le : first_frame df (time_of x) ≤ 2
  first_frame-le = ground arith

  pub incr-second :
      fps ≤ (time_of x).f + 1
      → incr x fps df ≡ second_after (time_of x) + first_frame df (time_of x)
  unfolding incr
  incr-second h =
      let first : ℕ = first_frame df (time_of x) in
      let e : bit_or 0 (first * 2 ^ 0) ≡ first = zero-bit_or (first * 2 ^ 0) ∙ omega arith in
      rw
        (
          bit_and_fifteen (shr x 0),
          bit_and_three (shr x 4),
          incr_seconds-eq,
          incr_first_frame-eq,
          e,
        )
        (ground (
          arith,
          bit_or-add 8 (second_after (time_of x)) first second_after_low
              (omega (arith, first_frame-le)),
        ))

  pub incr-frame :
      (time_of x).f + 1 < fps
      → fps ≤ 40
      → incr x fps df
        ≡ hours_part (time_of x).h
          + minutes_part (time_of x).m
          + seconds_part (time_of x).s
          + frames_part ((time_of x).f + 1)
  unfolding incr
  incr-frame h r =
      rw (bit_and_fifteen (shr x 0), bit_and_three (shr x 4), mask_3f7f7f00 x)
        (ground (
          arith,
          bit_or-add 4 ((frames_tens x + 1) * 2 ^ 4) (0 * 2 ^ 0) (omega arith) (omega arith),
          bit_or-add 4 (frames_tens x * 2 ^ 4) ((frames_units x + 1) * 2 ^ 0) (omega arith),
          bit_or-add 8 (hours_bits x + minutes_bits x + seconds_bits x)
              ((frames_tens x + 1) * 2 ^ 4) (omega arith),
          bit_or-add 8 (hours_bits x + minutes_bits x + seconds_bits x)
              (frames_tens x * 2 ^ 4 + frames_units x + 1) (omega arith),
        ))
