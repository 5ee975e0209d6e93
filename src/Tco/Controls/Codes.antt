-- ===== src/Tco/Controls/Codes.antt =====
-- The digits of a time code in the controls of hdspe_tco.c.
use snd_hdspe.Common.{
  ℕ, ◌+◌, ◌*◌, ◌/◌, ◌%◌, ◌^◌, ◌<◌, ◌≡◌, arith, refl, bit_and, bit_or, shr, shl, ap, ◌∙◌,
}
use snd_hdspe.Common.Bits.{bit_or-add_of_eq}
use snd_hdspe.Common.Bits.Masks.{bit_and_field}
use snd_hdspe.Tco.{Tco}
use snd_hdspe.Tco.Controls.{get_ltc_in, ltc_out_of, put_ltc_out}

join : (k : ℕ) {x y a r : ℕ} → x ≡ a → y ≡ r → a % 2 ^ k ≡ 0 → r < 2 ^ k → bit_or x y ≡ a + r
join k {x} p q divides small = rw q (bit_or-add_of_eq k p divides small)

get_ltc_in-eq :
    (x : ℕ)
    → get_ltc_in x
      ≡ x / 0x10000000 % 16 * 2 ^ 56
        + x / 0x1000000 % 16 * 2 ^ 48
        + x / 0x100000 % 16 * 2 ^ 40
        + x / 0x10000 % 16 * 2 ^ 32
        + x / 0x1000 % 16 * 2 ^ 24
        + x / 0x100 % 16 * 2 ^ 16
        + x / 0x10 % 16 * 2 ^ 8
        + x % 16
unfolding get_ltc_in
get_ltc_in-eq x =
    let f7 : shl (bit_and x 0xf0000000) 28 ≡ x / 0x10000000 % 16 * 2 ^ 56 =
      omega (arith, bit_and_field 28 4 0xf0000000 x refl) in
    let f6 : shl (bit_and x 0xf000000) 24 ≡ x / 0x1000000 % 16 * 2 ^ 48 =
      omega (arith, bit_and_field 24 4 0xf000000 x refl) in
    let f5 : shl (bit_and x 0xf00000) 20 ≡ x / 0x100000 % 16 * 2 ^ 40 =
      omega (arith, bit_and_field 20 4 0xf00000 x refl) in
    let f4 : shl (bit_and x 0xf0000) 16 ≡ x / 0x10000 % 16 * 2 ^ 32 =
      omega (arith, bit_and_field 16 4 0xf0000 x refl) in
    let f3 : shl (bit_and x 0xf000) 12 ≡ x / 0x1000 % 16 * 2 ^ 24 =
      omega (arith, bit_and_field 12 4 0xf000 x refl) in
    let f2 : shl (bit_and x 0xf00) 8 ≡ x / 0x100 % 16 * 2 ^ 16 =
      omega (arith, bit_and_field 8 4 0xf00 x refl) in
    let f1 : shl (bit_and x 0xf0) 4 ≡ x / 0x10 % 16 * 2 ^ 8 =
      omega (arith, bit_and_field 4 4 0xf0 x refl) in
    let f0 : shl (bit_and x 0xf) 0 ≡ x % 16 = omega (arith, bit_and_field 0 4 0xf x refl) in
    let s6 = join 56 f7 f6 (omega arith) (omega arith) in
    let s5 = join 48 s6 f5 (omega arith) (omega arith) in
    let s4 = join 40 s5 f4 (omega arith) (omega arith) in
    let s3 = join 32 s4 f3 (omega arith) (omega arith) in
    let s2 = join 24 s3 f2 (omega arith) (omega arith) in
    let s1 = join 16 s2 f1 (omega arith) (omega arith) in
    let s0 = join 8 s1 f0 (omega arith) (omega arith) in s0

ltc_out_of-eq :
    (x : ℕ)
    → ltc_out_of x
      ≡ x / 2 ^ 56 % 16 * 0x10000000
        + x / 2 ^ 48 % 16 * 0x1000000
        + x / 2 ^ 40 % 16 * 0x100000
        + x / 2 ^ 32 % 16 * 0x10000
        + x / 2 ^ 24 % 16 * 0x1000
        + x / 2 ^ 16 % 16 * 0x100
        + x / 2 ^ 8 % 16 * 0x10
        + x % 16
unfolding ltc_out_of
ltc_out_of-eq x =
    let f7 : bit_and (shr x 28) 0xf0000000 ≡ x / 2 ^ 56 % 16 * 0x10000000 =
      omega (arith, bit_and_field 28 4 0xf0000000 (shr x 28) refl) in
    let f6 : bit_and (shr x 24) 0xf000000 ≡ x / 2 ^ 48 % 16 * 0x1000000 =
      omega (arith, bit_and_field 24 4 0xf000000 (shr x 24) refl) in
    let f5 : bit_and (shr x 20) 0xf00000 ≡ x / 2 ^ 40 % 16 * 0x100000 =
      omega (arith, bit_and_field 20 4 0xf00000 (shr x 20) refl) in
    let f4 : bit_and (shr x 16) 0xf0000 ≡ x / 2 ^ 32 % 16 * 0x10000 =
      omega (arith, bit_and_field 16 4 0xf0000 (shr x 16) refl) in
    let f3 : bit_and (shr x 12) 0xf000 ≡ x / 2 ^ 24 % 16 * 0x1000 =
      omega (arith, bit_and_field 12 4 0xf000 (shr x 12) refl) in
    let f2 : bit_and (shr x 8) 0xf00 ≡ x / 2 ^ 16 % 16 * 0x100 =
      omega (arith, bit_and_field 8 4 0xf00 (shr x 8) refl) in
    let f1 : bit_and (shr x 4) 0xf0 ≡ x / 2 ^ 8 % 16 * 0x10 =
      omega (arith, bit_and_field 4 4 0xf0 (shr x 4) refl) in
    let f0 : bit_and (shr x 0) 0xf ≡ x % 16 = omega (arith, bit_and_field 0 4 0xf (shr x 0) refl) in
    let s6 = join 28 f7 f6 (omega arith) (omega arith) in
    let s5 = join 24 s6 f5 (omega arith) (omega arith) in
    let s4 = join 20 s5 f4 (omega arith) (omega arith) in
    let s3 = join 16 s4 f3 (omega arith) (omega arith) in
    let s2 = join 12 s3 f2 (omega arith) (omega arith) in
    let s1 = join 8 s2 f1 (omega arith) (omega arith) in
    let s0 = join 4 s1 f0 (omega arith) (omega arith) in s0

-- A time code that is read as incoming and requested as outgoing is the same again, and keeps the
-- frame count that is requested.
pub put_ltc_out-get_ltc_in :
    (t : Tco) (ltc frame_count : ℕ)
    → ltc < 2 ^ 32
    → put_ltc_out t (get_ltc_in ltc) frame_count
      ≡ record t { ltc_out = ltc; ltc_out_frame_count = frame_count }
unfolding put_ltc_out
put_ltc_out-get_ltc_in t ltc frame_count h =
    let same : ltc_out_of (get_ltc_in ltc) ≡ ltc =
      ltc_out_of-eq (get_ltc_in ltc) ∙ rw (get_ltc_in-eq ltc) (omega (arith, h)) in
    ap (λ (x : ℕ). record t { ltc_out = x; ltc_out_frame_count = frame_count }) same
