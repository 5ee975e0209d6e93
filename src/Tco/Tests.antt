-- ===== src/Tco/Tests.antt =====
-- Runs of the Time Code Option.
use snd_hdspe.Common.{ℕ, ◌+◌, ◌*◌, ◌≡◌, arith, refl, true, false, [], ◌∷◌}
use snd_hdspe.Common.Int.{negsuc}
use snd_hdspe.Device.{wr_tco}
use snd_hdspe.Tco.{Settings, Tco, write_settings}
use snd_hdspe.Tco.Fields.{IsSettings, Register1, Register2, write_settings_lem}
use snd_hdspe.Tco.Mtc.{is_new_tc}
use snd_hdspe.Tco.Mtc.Duration.{Message, IsRunning, after, ltc_duration_sum-mtc}
use snd_hdspe.Tco.Controls.{
  pull, max_range, put_setting, put_frame_rate, put_control, get_ltc_in, put_ltc_out,
}
use snd_hdspe.Tco.Controls.Codes.{put_ltc_out-get_ltc_in}
use snd_hdspe.Tco.Controls.FrameRate.{put_controls-IsSettings}

abbrev settings : Settings
settings = record {
  input = 2;
  ltc_fps = 2;
  ltc_drop = 1;
  sample_rate = 2;
  pull = 3;
  wck_conversion = 1;
  term = 1;
  wck_out_speed = 2;
  ltc_flywheel = 1;
}

abbrev module_state : Tco
module_state = record {
  settings = settings;
  reg1 = 0xa04;
  reg2 = 0;
  ltc_out = 0xffffffff;
  ltc_out_frame_count = 0;
  ltc_set = false;
  ltc_run = true;
  writes = [];
}

settings-IsSettings : IsSettings settings
settings-IsSettings = record {
  input = omega arith;
  ltc_fps = omega arith;
  ltc_drop = omega arith;
  sample_rate = omega arith;
  pull = omega arith;
  wck_conversion = omega arith;
  term = omega arith;
  wck_out_speed = omega arith;
  ltc_flywheel = omega arith;
}

write_settings_lem_example :
    (r1 r2 : ℕ) × Register1 settings r1
    × Register2 settings true true r2
    × ((write_settings module_state true).writes
        ≡ wr_tco 3 0 ∷ wr_tco 2 r2 ∷ wr_tco 1 r1 ∷ wr_tco 0 0 ∷ [])
write_settings_lem_example = write_settings_lem module_state true settings-IsSettings

-- A quarter frame message every 40 ms.
abbrev messages : ℕ → Message
messages n = record { time = n * 40000000 + 1; bytes = 0xf1 ∷ 0x00 ∷ [] }

quarter_frame : is_new_tc (0xf1 ∷ 0x00 ∷ []) ≡ true
unfolding is_new_tc
quarter_frame = refl

messages-IsRunning : IsRunning messages 100
messages-IsRunning = record {
  is_new = λ n le. quarter_frame;
  starts = omega arith;
  runs = λ n l. omega arith;
  short = λ n l. omega arith;
  small = λ n le. omega arith;
}

ltc_duration_sum-mtc_example :
    ((after messages 100).ltc_duration_sum ≡ 2400000000)
    × ((after messages 100).ltc_count ≡ 101)
    × ((after messages 100).prev_ltc_time ≡ 4000000001)
ltc_duration_sum-mtc_example = ltc_duration_sum-mtc messages 100 messages-IsRunning (omega arith)

put_ltc_out-get_ltc_in_example :
    put_ltc_out module_state (get_ltc_in 0x12345678) 9
    ≡ record module_state { ltc_out = 0x12345678; ltc_out_frame_count = 9 }
put_ltc_out-get_ltc_in_example = put_ltc_out-get_ltc_in module_state 0x12345678 9 (omega arith)

put_controls-IsSettings_example :
    IsSettings
      (put_control (put_setting pull) (max_range pull) module_state true (negsuc 0)).0.settings
    × IsSettings (put_control put_frame_rate 6 module_state true (negsuc 0)).0.settings
put_controls-IsSettings_example =
    put_controls-IsSettings pull module_state true (negsuc 0) settings-IsSettings
