-- ===== src/Pcm/Tests.antt =====
-- The stream timing of hdspe_pcm.c at concrete inputs.
use snd_hdspe.Common.{◌%◌, ◌-◌, ◌≡◌, arith, false, true, none, [], refl}
use snd_hdspe.Device.{IoType, madi, aio, is_raydat_or_aio}
use snd_hdspe.Pcm.{Stream, latency, latency_loop, update_frame_count}
use snd_hdspe.Pcm.FrameCount.{
  IsPeriod, Tracks, Follows, Run, start, interrupt, at_position, Run-frame_count,
}

abbrev stopped : IoType → Stream
stopped t = record {
  device = record {
    io_type = t;
    control = record { lat = 3; freq = 3; ds = false; qs = false };
    pll_freq = 2293110696;
    tco = none;
    writes = [];
  };
  buf_ptr = 0;
  frame_count = 0;
  hw_pointer_wrap_count = 0;
  last_hw_pointer = 0;
  hw_buffer_size = 1024;
  period_size = 512;
}

madi_old : is_raydat_or_aio madi ≡ false
unfolding is_raydat_or_aio
madi_old = refl

aio_new : is_raydat_or_aio aio ≡ true
unfolding is_raydat_or_aio
aio_new = refl

periods :
    (latency 64 ≡ 0)
    × (latency 127 ≡ 0)
    × (latency 128 ≡ 1)
    × (latency 4096 ≡ 6)
    × (latency 32 ≡ 7)
    × (latency 8192 ≡ 7)
unfolding latency latency_loop
periods = (refl, refl, refl, refl, refl, refl)

IsPeriod-512 : IsPeriod 512
IsPeriod-512 = record { exponent = 9; most = omega arith; is_power = refl }

first_interrupt : Follows 0 544
first_interrupt = record {
  grain = refl;
  forward = omega arith;
  within_buffer = omega arith;
  fits = omega arith;
}

late_interrupt : Follows 544 16896
late_interrupt = record {
  grain = refl;
  forward = omega arith;
  within_buffer = omega arith;
  fits = omega arith;
}

start-Tracks : Tracks (stopped madi) 0
start-Tracks = record { wraps = refl; last = refl }

abbrev after_first : Stream
after_first = update_frame_count (at_position (stopped madi) 544)

abbrev after_late : Stream
after_late = update_frame_count (at_position after_first 16896)

run : Run 512 after_late 16896
run =
    interrupt (interrupt (start {s = stopped madi} refl refl refl refl) first_interrupt)
      late_interrupt

Run-frame_count_example :
    (after_late.frame_count ≡ 16896 - 16896 % 512)
    × Tracks after_late 16896
    × (after_late.period_size ≡ 512)
Run-frame_count_example = Run-frame_count 512 after_late 16896 IsPeriod-512 run
