-- ===== src/Ltc/Fields.antt =====
-- The decimal digits of a time code, and the masks of hdspe_ltc_math.c in terms of them.
use snd_hdspe.Common.{ℕ, ◌+◌, ◌*◌, ◌/◌, ◌%◌, ◌≡◌, arith, bit_and}
use snd_hdspe.Common.Bits.{
  bit_and_three, bit_and_seven, bit_and_fifteen, bit_and_hex_zero, bit_and_hex_three,
  bit_and_hex_seven, bit_and_hex_fifteen,
}
use snd_hdspe.Ltc.{time_mask}

-- Tens and units of the hours, minutes, seconds and frames, as they stand in a code.
abbrev pub hours_tens : ℕ → ℕ
hours_tens x = x / 0x10000000 % 4

abbrev pub hours_units : ℕ → ℕ
hours_units x = x / 0x1000000 % 16

abbrev pub minutes_tens : ℕ → ℕ
minutes_tens x = x / 0x100000 % 8

abbrev pub minutes_units : ℕ → ℕ
minutes_units x = x / 0x10000 % 16

abbrev pub seconds_tens : ℕ → ℕ
seconds_tens x = x / 0x1000 % 8

abbrev pub seconds_units : ℕ → ℕ
seconds_units x = x / 0x100 % 16

abbrev pub frames_tens : ℕ → ℕ
frames_tens x = x / 0x10 % 4

abbrev pub frames_units : ℕ → ℕ
frames_units x = x % 16

-- The parts of a code.
abbrev pub hours_bits : ℕ → ℕ
hours_bits x = hours_tens x * 0x10000000 + hours_units x * 0x1000000

abbrev pub minutes_bits : ℕ → ℕ
minutes_bits x = minutes_tens x * 0x100000 + minutes_units x * 0x10000

abbrev pub seconds_bits : ℕ → ℕ
seconds_bits x = seconds_tens x * 0x1000 + seconds_units x * 0x100

abbrev pub frames_bits : ℕ → ℕ
frames_bits x = frames_tens x * 0x10 + frames_units x

-- The mask of a code from its upper end, one hexadecimal digit after the other.
mask_3f : (x : ℕ) → bit_and x 0x3f ≡ x % 64
mask_3f x = omega (arith, bit_and_hex_fifteen x 3, bit_and_three (x / 16))

mask_3f7 : (x : ℕ) → bit_and x 0x3f7 ≡ x / 16 % 64 * 16 + x % 8
mask_3f7 x = omega (arith, bit_and_hex_seven x 0x3f, mask_3f (x / 16))

mask_3f7f : (x : ℕ) → bit_and x 0x3f7f ≡ x / 256 % 64 * 256 + x % 128
mask_3f7f x = omega (arith, bit_and_hex_fifteen x 0x3f7, mask_3f7 (x / 16))

mask_3f7f7 : (x : ℕ) → bit_and x 0x3f7f7 ≡ bit_and (x / 16) 0x3f7f * 16 + x % 8
mask_3f7f7 x = omega (arith, bit_and_hex_seven x 0x3f7f)

mask_3f7f7f : (x : ℕ) → bit_and x 0x3f7f7f ≡ bit_and (x / 256) 0x3f7f * 256 + x % 128
mask_3f7f7f x =
    let e : x / 256 ≡ x / 16 / 16 = omega arith in
    rw e (omega (arith, bit_and_hex_fifteen x 0x3f7f7, mask_3f7f7 (x / 16)))

-- Zeros at the lower end.
mask_two_zeros : (x m : ℕ) → bit_and x (m * 256) ≡ bit_and (x / 256) m * 256
mask_two_zeros x m =
    let e : m * 256 ≡ m * 16 * 16 = omega arith in
    let f : x / 16 / 16 ≡ x / 256 = omega arith in
    rw (e, bit_and_hex_zero x (m * 16), bit_and_hex_zero (x / 16) m, f) (omega arith)

mask_four_zeros : (x m : ℕ) → bit_and x (m * 65536) ≡ bit_and (x / 65536) m * 65536
mask_four_zeros x m =
    let e : m * 65536 ≡ m * 256 * 256 = omega arith in
    let f : x / 256 / 256 ≡ x / 65536 = omega arith in
    rw (e, mask_two_zeros x (m * 256), mask_two_zeros (x / 256) m, f) (omega arith)

-- The masks of the source.
pub mask_30000000 : (x : ℕ) → bit_and x 0x30000000 ≡ hours_tens x * 0x10000000
mask_30000000 x = omega (
  arith,
  mask_four_zeros x 0x3000,
  mask_two_zeros (x / 65536) 0x30,
  bit_and_hex_zero (x / 65536 / 256) 0x3,
  bit_and_three (x / 65536 / 256 / 16),
)

pub mask_3f000000 : (x : ℕ) → bit_and x 0x3f000000 ≡ hours_bits x
mask_3f000000 x =
    omega
      (arith, mask_four_zeros x 0x3f00, mask_two_zeros (x / 65536) 0x3f, mask_3f (x / 65536 / 256))

pub mask_3f700000 : (x : ℕ) → bit_and x 0x3f700000 ≡ hours_bits x + minutes_tens x * 0x100000
mask_3f700000 x =
    omega (
      arith,
      mask_four_zeros x 0x3f70,
      bit_and_hex_zero (x / 65536) 0x3f7,
      mask_3f7 (x / 65536 / 16),
    )

pub mask_3f7f0000 : (x : ℕ) → bit_and x 0x3f7f0000 ≡ hours_bits x + minutes_bits x
mask_3f7f0000 x = omega (arith, mask_four_zeros x 0x3f7f, mask_3f7f (x / 65536))

pub mask_3f7f7000 :
    (x : ℕ) → bit_and x 0x3f7f7000 ≡ hours_bits x + minutes_bits x + seconds_tens x * 0x1000
mask_3f7f7000 x = omega (
  arith,
  mask_two_zeros x 0x3f7f70,
  bit_and_hex_zero (x / 256) 0x3f7f7,
  mask_3f7f7 (x / 256 / 16),
  mask_3f7f (x / 256 / 16 / 16),
)

pub mask_3f7f7f00 : (x : ℕ) → bit_and x 0x3f7f7f00 ≡ hours_bits x + minutes_bits x + seconds_bits x
mask_3f7f7f00 x =
    omega (arith, mask_two_zeros x 0x3f7f7f, mask_3f7f7f (x / 256), mask_3f7f (x / 256 / 256))

pub mask_3f7f7f30 :
    (x : ℕ)
    → bit_and x 0x3f7f7f30 ≡ hours_bits x + minutes_bits x + seconds_bits x + frames_tens x * 0x10
mask_3f7f7f30 x = omega (
  arith,
  bit_and_hex_zero x 0x3f7f7f3,
  bit_and_hex_three (x / 16) 0x3f7f7f,
  mask_3f7f7f (x / 16 / 16),
  mask_3f7f (x / 16 / 16 / 256),
)

pub mask_time :
    (x : ℕ) → bit_and x time_mask ≡ hours_bits x + minutes_bits x + seconds_bits x + frames_bits x
mask_time x = omega (
  arith,
  bit_and_hex_fifteen x 0x3f7f7f3,
  bit_and_hex_three (x / 16) 0x3f7f7f,
  mask_3f7f7f (x / 16 / 16),
  mask_3f7f (x / 16 / 16 / 256),
)

-- The seconds and the tens of frames.
pub mask_7ff0 : (x : ℕ) → bit_and x 0x7ff0 ≡ x / 0x10 % 0x800 * 0x10
mask_7ff0 x = omega (
  arith,
  bit_and_hex_zero x 0x7ff,
  bit_and_hex_fifteen (x / 16) 0x7f,
  bit_and_hex_fifteen (x / 16 / 16) 0x7,
  bit_and_seven (x / 16 / 16 / 16),
)

pub mask_f0000 : (x : ℕ) → bit_and x 0xf0000 ≡ minutes_units x * 0x10000
mask_f0000 x = omega (arith, mask_four_zeros x 0xf, bit_and_fifteen (x / 65536))
