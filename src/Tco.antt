-- ===== src/Tco.antt =====
-- The Time Code Option of hdspe_tco.c: its state, the control registers, and the status that is
-- decoded from the card's registers. The locks and the notifications to ALSA are left out.
pub mod Status
pub mod Registers
pub mod Fields
pub mod Mtc
pub mod Period
pub mod Controls
mod Tests
use snd_hdspe.Common.{
  ℕ, ◌+◌, ◌-◌, ◌*◌, ◌/◌, ◌%◌, ◌^◌, bit_and, bit_or, Bool, true, false, not, ◌&&◌, ◌||◌, ltb, leb,
  ◌==◌, if◌then◌else◌, shr, shl, u32, List, [], ◌∷◌,
}
use snd_hdspe.Common.Int.{ℤ, pos, negsuc, pos_part, is_negative}
use snd_hdspe.Device.{Write, wr_tco}

-- The user's settings. An enum is its number; a flag is an hdspe_bool, 0 or 1.
pub record Settings : Type 0 where
  pub input : ℕ
  pub ltc_fps : ℕ
  pub ltc_drop : ℕ
  pub sample_rate : ℕ
  pub pull : ℕ
  pub wck_conversion : ℕ
  pub term : ℕ
  pub wck_out_speed : ℕ
  pub ltc_flywheel : ℕ

-- The cached control registers 1 and 2 (0 and 3 stay 0), time code output, and the writes to the
-- card so far, the latest first.
pub record Tco : Type 0 where
  pub settings : Settings
  pub reg1 : ℕ
  pub reg2 : ℕ
  pub ltc_out : ℕ
  pub ltc_out_frame_count : ℕ
  pub ltc_set : Bool
  pub ltc_run : Bool
  pub writes : List Write

-- FIELD_PREP and FIELD_GET of a field of w bits from bit k on.
abbrev pub field_prep : ℕ → ℕ → ℕ → ℕ
field_prep k w v = bit_and (v * 2 ^ k) (2 ^ k * (2 ^ w - 1))

abbrev pub field_get : ℕ → ℕ → ℕ → ℕ
field_get k w x = bit_and x (2 ^ k * (2 ^ w - 1)) / 2 ^ k

abbrev pub flag : Bool → ℕ
flag b = if b then 1 else 0

pub write_tco : ℕ → ℕ → Tco → Tco
write_tco n value t = record t { writes = wr_tco n (bit_and value 0x7f7f7f7f) ∷ t.writes }

-- What `hdspe_tco_read_status1` decodes from register 1.
pub record Status1 : Type 0 where
  pub tco_lock : ℕ
  pub ltc_valid : ℕ
  pub ltc_in_fps : ℕ
  pub ltc_in_drop : ℕ
  pub video : ℕ
  pub wck_valid : ℕ
  pub wck_speed : ℕ
  pub ltc_in_offset : ℕ

-- The offset comes in two groups of 7 bits.
pub read_offset : ℕ → ℕ
read_offset tco1 = bit_or (bit_and (shr tco1 16) 0x7f) (bit_and (shr tco1 17) 0x3f80)

pub read_status1 : ℕ → Status1
read_status1 tco1 = record {
  tco_lock = field_get 0 1 tco1;
  ltc_valid = field_get 3 1 tco1;
  ltc_in_fps = field_get 10 2 tco1;
  ltc_in_drop = field_get 9 1 tco1;
  video = field_get 5 2 tco1;
  wck_valid = field_get 4 1 tco1;
  wck_speed = field_get 1 2 tco1;
  ltc_in_offset = read_offset tco1;
}

-- The period counter and the video frame rate in register 2.
pub read_status2 : ℕ → ℕ × ℕ
read_status2 tco2 =
    (bit_or (bit_and tco2 0x7f) (shr (bit_and tco2 0x7f00) 1), bit_and (shr tco2 27) 0xf)

pub pullbits : ℕ → ℕ
pullbits n =
    if n == 1
    then 0x04000000
    else if n == 2
    then 0x02000000
    else if n == 3
    then 0x05000000
    else if n == 4
    then 0x03000000
    else 0

-- Registers 1 and 2 of the settings; sys_48khz: the card's class at single speed is 48 kHz.
settings_reg1 : Settings → ℕ
settings_reg1 c =
    bit_or (bit_or (field_prep 1 2 c.wck_out_speed) (field_prep 10 2 c.ltc_fps))
      (field_prep 9 1 c.ltc_drop)

settings_reg2 : Settings → Bool → Bool → ℕ
settings_reg2 c sys_48khz ltc_run =
    let r1 = bit_or (field_prep 29 2 c.input) (field_prep 17 2 c.wck_conversion) in
    let r2 =
      bit_or r1
        (field_prep 27 1 (flag ((c.sample_rate == 1) || ((c.sample_rate == 2) && sys_48khz)))) in
    let r3 = bit_or r2 (field_prep 31 1 (flag (c.sample_rate == 2))) in
    let r4 = bit_or r3 (field_prep 28 1 c.term) in
    let r5 = bit_or r4 (pullbits (c.pull % 5)) in
    let r6 = bit_or r5 (field_prep 16 1 (flag ltc_run)) in
    bit_or r6 (field_prep 22 1 c.ltc_flywheel)

-- Control registers 0 to 3 are written in this order.
pub write_settings : Tco → Bool → Tco
write_settings t sys_48khz =
    let reg1 = settings_reg1 t.settings in
    let reg2 = settings_reg2 t.settings sys_48khz t.ltc_run in
    write_tco 3 0
      (write_tco 2 reg2 (write_tco 1 reg1 (write_tco 0 0 (record t { reg1 = reg1; reg2 = reg2 }))))

pub tco_get_sample_rate : Tco → ℕ
tco_get_sample_rate t = if not (field_get 27 1 t.reg2 == 0) then 48000 else 44100

-- The offset of type u16 is stored as two groups of 7 bits.
pub split_offset : ℕ → ℕ
split_offset offset = bit_or (shl (bit_and offset 0x3f80) 1) (bit_and offset 0x7f)

-- HDSPE_TCO1_set_TC is bit 8; bits shifted out of the 32 are lost.
pub set_timecode : Tco → ℕ → ℕ → Tco
set_timecode t timecode offset =
    let reg1 = bit_or (bit_or (u32 (shl (split_offset offset) 16)) 0x100) (bit_and t.reg1 0xffff) in
    record (write_tco 1 reg1 (write_tco 0 timecode t)) { ltc_set = true }

pub reset_timecode : Tco → Tco
reset_timecode t =
    let reg1 = bit_and (bit_and t.reg1 0xffff) (2 ^ 32 - 1 - 0x100) in
    record (write_tco 1 reg1 t) { ltc_set = false }

-- HDSPE_TCO2_TC_run is bit 16.
pub stop_timecode : Tco → Tco
stop_timecode t =
    let reg2 = bit_and t.reg2 (2 ^ 32 - 1 - 0x10000) in
    record (write_tco 2 reg2 (record t { reg2 = reg2 })) { ltc_run = false }
