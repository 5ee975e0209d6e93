-- ===== src/Pcm/Streams/Tests.antt =====
-- Runs of the trigger.
use mathlib.Core.Option
use snd_hdspe.Common.{◌≡◌, refl, Bool, true, false, arith, some}
use snd_hdspe.Common.Int.{pos}
use snd_hdspe.Device.{playback}
use snd_hdspe.Pcm.Streams.{
  stop, pause_push, pause_release, Streams, bit_of, other_of, is_start, without_bit, own_bit,
  next_running, is_open, triggered, trigger,
}
use snd_hdspe.Pcm.Streams.Silence.{silent}
use snd_hdspe.Pcm.Streams.Trigger.{IsRunnable, moves, trigger_silences}

-- Both streams are open and run.
abbrev full_duplex : Bool → Streams
full_duplex linked = record {
  running = 3;
  playback_open = true;
  capture_open = true;
  playback_pid = pos 100;
  capture_pid = pos 100;
  linked = linked;
  period_size = 64;
  playback_buffer = some (λ i. i);
}

full_duplex-IsRunnable : (linked : Bool) → IsRunnable (full_duplex linked)
unfolding IsRunnable
full_duplex-IsRunnable linked = refl

opened : is_open (full_duplex true) playback ≡ true
unfolding is_open
opened = refl

capture_left : (trigger (full_duplex false) playback stop).0.running ≡ 2
unfolding trigger triggered next_running own_bit without_bit bit_of other_of is_open is_start
capture_left = refl

trigger_silences_example :
    (trigger (full_duplex false) playback stop).0.playback_buffer
    ≡ Option.map (silent 64 256) (some (λ i. i))
unfolding moves
trigger_silences_example =
    trigger_silences (full_duplex false) playback stop (full_duplex-IsRunnable false) refl
      (omega arith) capture_left (λ e. absurd (omega (arith, e)))

-- A pause of playback stops the linked capture, and leaves the bit of playback itself.
paused : (trigger (full_duplex true) playback pause_push).0.running ≡ 1
unfolding trigger triggered next_running own_bit without_bit bit_of other_of is_open is_start
paused = refl

-- The release of the pause then does not set the bit of capture again.
released :
    (trigger (trigger (full_duplex true) playback pause_push).0 playback pause_release).0.running
    ≡ 1
unfolding trigger triggered next_running own_bit without_bit bit_of other_of is_open is_start
released = refl
