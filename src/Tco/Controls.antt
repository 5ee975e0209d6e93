-- ===== src/Tco/Controls.antt =====
-- The controls of hdspe_tco.c that change the module's settings, and those that carry a time code.
-- The kernel's control elements, the names of the values and the locks are left out.
pub mod Codes
pub mod FrameRate
use snd_hdspe.Common.{
  ℕ, ◌+◌, ◌*◌, ◌/◌, ◌%◌, ◌^◌, bit_and, bit_or, Bool, true, false, not, ◌&&◌, ◌||◌, ltb, ◌==◌,
  if◌then◌else◌, shr, shl, u32,
}
use snd_hdspe.Common.Int.{ℤ, pos, negsuc}
use snd_hdspe.Tco.{Settings, Tco, flag, write_settings}

-- The settings that have a control of their own; the frame rate and `run` stand below.
pub data Setting : Type 0 where
  input sample_rate pull wck_conversion term wck_out_speed : Setting

pub get_setting : Setting → Settings → ℕ
get_setting input c = c.input
get_setting sample_rate c = c.sample_rate
get_setting pull c = c.pull
get_setting wck_conversion c = c.wck_conversion
get_setting term c = c.term
get_setting wck_out_speed c = c.wck_out_speed

pub set_setting : Setting → Settings → ℕ → Settings
set_setting input c val = record c { input = val }
set_setting sample_rate c val = record c { sample_rate = val }
set_setting pull c val = record c { pull = val }
set_setting wck_conversion c val = record c { wck_conversion = val }
set_setting term c val = record c { term = val }
set_setting wck_out_speed c val = record c { wck_out_speed = val }

-- The range of a setting: HDSPE_TCO_SOURCE_COUNT and so on.
pub max_range : Setting → ℕ
max_range input = 3
max_range sample_rate = 3
max_range pull = 5
max_range wck_conversion = 3
max_range term = 2
max_range wck_out_speed = 3

-- A putter of the macro HDSPE_TCO_CONTROL_PUT; it tells whether the value is a new one.
pub put_setting : Setting → Settings → ℕ → Settings × Bool
put_setting s c val = (set_setting s c val, not (val == get_setting s c))

-- The tables fr, fps and df.
frame_rate_of : ℕ → ℕ
frame_rate_of i =
    if i == 0
    then 0
    else if i == 1
    then 1
    else if i == 2
    then 2
    else if i == 3
    then 4
    else if i == 4
    then 0
    else if i == 5
    then 1
    else if i == 6
    then 3
    else 5

fps_of : ℕ → ℕ
fps_of val =
    if val == 0 then 0 else if val == 1 then 1 else if (val == 2) || (val == 3) then 2 else 3

df_of : ℕ → ℕ
df_of val = if (val == 3) || (val == 5) then 1 else 0

pub get_frame_rate : Settings → ℕ
get_frame_rate c = frame_rate_of (flag (not (c.ltc_drop == 0)) * 4 + c.ltc_fps % 4)

-- A value is below 6.
pub put_frame_rate : Settings → ℕ → Settings × Bool
put_frame_rate c val = (
  record c { ltc_fps = fps_of val; ltc_drop = df_of val },
  not (c.ltc_fps == fps_of val) || not (c.ltc_drop == df_of val),
)

written_if : Bool → Tco → Bool → Tco × ℤ
written_if true t sys_48khz = (write_settings t sys_48khz, pos 1)
written_if false t sys_48khz = (t, pos 0)

-- -EINVAL is -22; else the result is whether the setting has changed.
pub put_control : (Settings → ℕ → Settings × Bool) → ℕ → Tco → Bool → ℤ → Tco × ℤ
put_control putter range t sys_48khz (negsuc n) = (t, negsuc 21)
put_control putter range t sys_48khz (pos val) =
    let (settings, changed) = putter t.settings val in
    if not (ltb val range)
    then (t, negsuc 21)
    else written_if changed (record t { settings = settings }) sys_48khz

-- The eight digits of a time code, each in the lower half of a byte; the upper halves are for user
-- bits.
pub get_ltc_in : ℕ → ℕ
get_ltc_in ltc =
    bit_or
      (bit_or
        (bit_or
          (bit_or
            (bit_or
              (bit_or (bit_or (shl (bit_and ltc 0xf0000000) 28) (shl (bit_and ltc 0x0f000000) 24))
                (shl (bit_and ltc 0x00f00000) 20))
              (shl (bit_and ltc 0x000f0000) 16))
            (shl (bit_and ltc 0x0000f000) 12))
          (shl (bit_and ltc 0x00000f00) 8))
        (shl (bit_and ltc 0x000000f0) 4))
      (shl (bit_and ltc 0x0000000f) 0)

ltc_out_of : ℕ → ℕ
ltc_out_of tc =
    bit_or
      (bit_or
        (bit_or
          (bit_or
            (bit_or
              (bit_or (bit_or (bit_and (shr tc 28) 0xf0000000) (bit_and (shr tc 24) 0x0f000000))
                (bit_and (shr tc 20) 0x00f00000))
              (bit_and (shr tc 16) 0x000f0000))
            (bit_and (shr tc 12) 0x0000f000))
          (bit_and (shr tc 8) 0x00000f00))
        (bit_and (shr tc 4) 0x000000f0))
      (bit_and (shr tc 0) 0x0000000f)

pub put_ltc_out : Tco → ℕ → ℕ → Tco
put_ltc_out t tc frame_count = record t {
  ltc_out = ltc_out_of tc;
  ltc_out_frame_count = frame_count;
}
