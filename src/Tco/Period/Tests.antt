-- ===== src/Tco/Period/Tests.antt =====
-- Runs of the period interrupt.
use snd_hdspe.Common.{ℕ, ◌/◌, ◌%◌, ◌≡◌, arith, refl, true, false, [], ◌∷◌, some, inr}
use snd_hdspe.Device.{wr_tco}
use snd_hdspe.Tco.{Settings, Tco, field_get, tco_get_sample_rate}
use snd_hdspe.Tco.Mtc.{LtcIn}
use snd_hdspe.Tco.Period.{
  Environment, is_real_time, frame_samples, fps_tab, scale_tab, compensation, start_timecode,
  period_ltc_out, period_elapsed,
}
use snd_hdspe.Tco.Period.Start.{IsReady, Started, start_timecode_lem}
use snd_hdspe.Tco.Period.Elapsed.{period_elapsed_lem, period_ltc_out_resets}

-- 25 frames per second at 48 kHz, a start of 01:00:00:00 requested at frame count 100.
abbrev settings : Settings
settings = record {
  input = 0;
  ltc_fps = 1;
  ltc_drop = 0;
  sample_rate = 1;
  pull = 0;
  wck_conversion = 0;
  term = 0;
  wck_out_speed = 0;
  ltc_flywheel = 0;
}

abbrev requested : Tco
requested = record {
  settings = settings;
  reg1 = 0x400;
  reg2 = 0x08000000;
  ltc_out = 0x01000000;
  ltc_out_frame_count = 100;
  ltc_set = false;
  ltc_run = false;
  writes = [];
}

-- 60 frames of 40 ms.
abbrev received : LtcIn
received = record {
  ltc_changed = true;
  ltc_in = 0;
  ltc_time = 0;
  ltc_in_frame_count = 0;
  prev_ltc_time = 5000000000;
  ltc_duration_sum = 2400000000;
  ltc_duration = λ i. 40000000;
  ltc_count = 61;
  ltc_in_pullfac = 0;
  last_ltc_in_pullfac = 0;
}

abbrev at_start : Environment
at_start = record {
  frame_count = 4096;
  period_size = 1024;
  speed_factor = 1;
  tc_first = 0;
  tco1_first = 0;
  tc_second = 0;
  tco1_second = 0;
  tv_sec = 0;
  tv_nsec = 0;
  time64_to_tm = λ s. (s / 3600 % 24, s / 60 % 60, s % 60);
}

samples : frame_samples requested ≡ 1920
unfolding frame_samples tco_get_sample_rate fps_tab scale_tab
samples = refl

-- 6144 samples to the second next period are 3 frames and a part.
steps : compensation 100 6144 1920 ≡ 4
unfolding compensation
steps = refl

-- Ten frames too far ahead, the negation of the u64 gives no small negative number of frames.
far_steps : compensation 25344 6144 1920 ≡ 9607679205057048
unfolding compensation
far_steps = refl

requested-IsReady : IsReady requested at_start
unfolding is_real_time
requested-IsReady = record {
  requested = refl;
  idle = record { no_set = omega arith };
  fps = omega arith;
  speed = omega arith;
  period = omega arith;
  period_max = omega arith;
  frames = omega arith;
  near = omega arith;
  recent = omega arith;
}

start_timecode_lem_example :
    (n offset v : ℕ) × Started requested at_start n offset v (start_timecode requested at_start)
start_timecode_lem_example = start_timecode_lem requested at_start requested-IsReady

period_elapsed_lem_example :
    (t' : Tco) × (c' : LtcIn) × (period_elapsed requested received at_start ≡ some (t', c'))
    × (t'.ltc_out ≡ 0xffffffff)
    × (t'.ltc_set ≡ true)
    × (c'.ltc_changed ≡ false)
    × (c'.ltc_time ≡ 4096)
period_elapsed_lem_example =
    period_elapsed_lem requested received at_start (inr (omega arith, omega arith))

period_ltc_out_resets_example :
    (v : ℕ) × ((period_ltc_out (period_ltc_out requested at_start) at_start).writes
      ≡ wr_tco 1 v ∷ (period_ltc_out requested at_start).writes)
    × (field_get 8 1 v ≡ 0)
    × ((period_ltc_out (period_ltc_out requested at_start) at_start).ltc_set ≡ false)
period_ltc_out_resets_example = period_ltc_out_resets requested at_start at_start refl
