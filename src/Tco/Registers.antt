-- ===== src/Tco/Registers.antt =====
-- The registers of hdspe_tco.c: what is written into a field is what the field has.
use snd_hdspe.Common.{
  ℕ, ◌+◌, ◌*◌, ◌/◌, ◌%◌, ◌^◌, ◌<◌, ◌≡◌, arith, bit_and, bit_or, shr, shl, u32, ap, sym, ◌∙◌, refl,
  true, ◌∷◌,
}
use snd_hdspe.Common.Bits.{bit_and_hex_fifteen, bit_and_hex_seven, bit_or-add, bit_or-add_of_eq}
use snd_hdspe.Common.Bits.Masks.{
  bit_or_split, one-le-pow, bit_or_comm, bit_and_field, bit_and_high, bit_and_ones,
}
use native.Mathlib.Nat.{mul-div_cancel, mod-eq_of_lt}
use snd_hdspe.Device.{wr_tco}
use snd_hdspe.Tco.{Tco, field_prep, field_get, write_tco, read_offset, split_offset, set_timecode}

sync_byte : (x m : ℕ) → bit_and x (m * 256 + 0x7f) ≡ bit_and (x / 256) m * 256 + x % 128
sync_byte x m =
    let twice : m * 256 + 0x7f ≡ (m * 16 + 7) * 16 + 15 = omega arith in
    let upper : x / 16 / 16 ≡ x / 256 = omega arith in
    rw (twice, bit_and_hex_fifteen x (m * 16 + 7), bit_and_hex_seven (x / 16) m, upper)
      (omega arith)

-- The bits that `hdspe_write_tco` keeps: 7 of each byte.
pub bit_and_sync :
    (x : ℕ)
    → bit_and x 0x7f7f7f7f
      ≡ x % 0x80
        + x / 0x100 % 0x80 * 0x100
        + x / 0x10000 % 0x80 * 0x10000
        + x / 0x1000000 % 0x80 * 0x1000000
bit_and_sync x =
    let two : x / 256 / 256 ≡ x / 0x10000 = omega arith in
    let three : x / 0x10000 / 256 ≡ x / 0x1000000 = omega arith in
    rw (sync_byte x 0x7f7f7f, sync_byte (x / 256) 0x7f7f, two, sync_byte (x / 0x10000) 0x7f, three)
      (omega (arith, bit_and_ones 7 (x / 0x1000000)))

pub read_offset-eq : (x : ℕ) → read_offset x ≡ x / 0x10000 % 0x80 + x / 0x1000000 % 0x80 * 0x80
unfolding read_offset
read_offset-eq x =
    let low : bit_and (shr x 16) 0x7f ≡ x / 0x10000 % 0x80 = bit_and_ones 7 (shr x 16) in
    let high : bit_and (shr x 17) 0x3f80 ≡ x / 0x1000000 % 0x80 * 0x80 =
      omega (arith, bit_and_field 7 7 0x3f80 (shr x 17) refl) in
    rw (bit_or_comm (bit_and (shr x 16) 0x7f) (bit_and (shr x 17) 0x3f80), low)
      (bit_or-add_of_eq 7 high (omega arith) (omega arith) ∙ omega arith)

pub split_offset-eq : (n : ℕ) → split_offset n ≡ n / 0x80 % 0x80 * 0x100 + n % 0x80
unfolding split_offset
split_offset-eq n =
    let high : shl (bit_and n 0x3f80) 1 ≡ n / 0x80 % 0x80 * 0x100 =
      omega (arith, bit_and_field 7 7 0x3f80 n refl) in
    let low : bit_and n 0x7f ≡ n % 0x80 = bit_and_ones 7 n in
    rw low (bit_or-add_of_eq 8 high (omega arith) (omega arith))

pub field_get-eq : (k w x : ℕ) → field_get k w x ≡ x / 2 ^ k % 2 ^ w
field_get-eq k w x =
    ap (λ (t : ℕ). t / 2 ^ k) (bit_and_high k w x)
    ∙ mul-div_cancel (x / 2 ^ k % 2 ^ w) (one-le-pow k)

pub field_prep-eq : (k w v : ℕ) → v < 2 ^ w → field_prep k w v ≡ v * 2 ^ k
field_prep-eq k w v h =
    bit_and_high k w (v * 2 ^ k)
    ∙ ap (λ (t : ℕ). t % 2 ^ w * 2 ^ k) (mul-div_cancel v (one-le-pow k))
    ∙ ap (λ (t : ℕ). t * 2 ^ k) (mod-eq_of_lt h)

-- The settings leave bit 8 of register 1, which starts the time code, at 0.
pub record IsIdle (r : ℕ) : Type 0 where
  pub no_set : r / 0x100 % 2 ≡ 0

-- The value of register 1 that `hdspe_tco_set_timecode` writes.
pub timecode_reg1 :
    (r offset : ℕ)
    → IsIdle r
    → bit_or (bit_or (u32 (shl (split_offset offset) 16)) 0x100) (bit_and r 0xffff)
      ≡ split_offset offset * 0x10000 + 0x100 + r % 0x10000
timecode_reg1 r offset h =
    let o : ℕ = split_offset offset in
    let small : o < 0x8000 = omega (arith, split_offset-eq offset) in
    let shifted : u32 (shl o 16) ≡ o * 0x10000 = omega (arith, small) in
    let x : ℕ = o * 0x10000 + 0x100 in
    let y : ℕ = r % 0x10000 in
    let start : bit_or (u32 (shl o 16)) 0x100 ≡ x =
      bit_or-add_of_eq 9 shifted (omega arith) (omega arith) in
    let upper : x / 2 ^ 9 ≡ o * 0x80 = omega arith in
    let lower : x % 2 ^ 9 ≡ 0x100 = omega arith in
    let idle : y % 2 ^ 9 ≡ y % 0x100 = omega (arith, h.no_set) in
    rw (start, bit_and_ones 16 r, bit_or_split 9 x y, upper, lower, idle)
      (rw
        (
          bit_or-add 7 (o * 0x80) (y / 2 ^ 9) (omega arith) (omega arith),
          bit_or-add 8 0x100 (y % 0x100) (omega arith) (omega arith),
        )
        (omega (arith, h.no_set)))

-- The offset, the bit that starts the time code, and the settings' fields of register 1.
pub record StartsAt (v offset r : ℕ) : Type 0 where
  pub offset_field : read_offset v ≡ offset
  pub starts : field_get 8 1 v ≡ 1
  pub speed_field : field_get 1 2 v ≡ field_get 1 2 r
  pub fps_field : field_get 10 2 v ≡ field_get 10 2 r
  pub drop_field : field_get 9 1 v ≡ field_get 9 1 r

-- Setting a time code writes register 0, then register 1 with the offset modulo 2 ^ 14, the start
-- bit and the settings' fields.
pub set_timecode_lem :
    (t : Tco) (timecode offset : ℕ)
    → IsIdle t.reg1
    → (v : ℕ) × StartsAt v (offset % 0x4000) t.reg1
      × ((set_timecode t timecode offset).writes
          ≡ wr_tco 1 v ∷ wr_tco 0 (bit_and timecode 0x7f7f7f7f) ∷ t.writes)
      × ((set_timecode t timecode offset).ltc_set ≡ true)
unfolding set_timecode write_tco
set_timecode_lem t timecode offset h =
    let x : ℕ = split_offset offset * 0x10000 + 0x100 + t.reg1 % 0x10000 in
    let v : ℕ = bit_and x 0x7f7f7f7f in
    let o = split_offset-eq offset in
    let kept : (k w : ℕ)
        → v / 2 ^ k % 2 ^ w ≡ t.reg1 / 2 ^ k % 2 ^ w
        → field_get k w v ≡ field_get k w t.reg1 =
      λ k w e. field_get-eq k w v ∙ e ∙ sym (field_get-eq k w t.reg1) in
    (
      v,
      record {
        offset_field = read_offset-eq v ∙ omega (arith, bit_and_sync x, o);
        starts = field_get-eq 8 1 v ∙ omega (arith, bit_and_sync x, o);
        speed_field = kept 1 2 (omega (arith, bit_and_sync x, o));
        fps_field = kept 10 2 (omega (arith, bit_and_sync x, o));
        drop_field = kept 9 1 (omega (arith, bit_and_sync x, o));
      },
      rw (timecode_reg1 t.reg1 offset h) refl,
      refl,
    )
