-- ===== src/Mixer/Tests.antt =====
-- The mixer of hdspe_mixer.c at concrete gains.
use snd_hdspe.Common.{ℕ, ltb, ◌≡◌, ◌&&◌, ◌==◌, if◌then◌else◌, arith, true, refl}
use snd_hdspe.Common.Int.{ℤ, pos, negsuc, is_negative}
use snd_hdspe.Common.FloorMod.{floor_mod}
use snd_hdspe.Mixer.{Mixer, read_gain, get_mixer, put_mixer, use_is_exclusive, gain_differs}
use snd_hdspe.Mixer.Channels.{used_channels, update_channel_map}
use snd_hdspe.Mixer.Channels.Update.{output_gain, input_gain, update_channel_map-read_gain}
use snd_hdspe.Mixer.Gains.{Cached, put_mixer_lem}

abbrev muted : Mixer
muted = record {
  in_gain = λ _ _. 0;
  pb_gain = λ _ _. 0;
  card = λ _. 0;
  playback_pid = pos 4711;
  capture_pid = negsuc 0;
}

muted-use_is_exclusive : use_is_exclusive muted ≡ true
unfolding use_is_exclusive is_negative
muted-use_is_exclusive = refl

muted-Cached : Cached muted
muted-Cached = record { inputs = λ c s p q. refl; playbacks = λ c s p q. refl }

put_mixer_lem_example :
    let (m', changed) = put_mixer muted (pos 70) (pos 3) (negsuc 0) in
    (get_mixer m' (pos 70) (pos 3) ≡ (
      if (3 == 3) && (70 == 70)
      then floor_mod (negsuc 0) 65536
      else get_mixer muted (pos 70) (pos 3)))
    × (changed ≡ pos (if gain_differs (negsuc 0) (get_mixer muted (pos 70) (pos 3)) then 1 else 0))
put_mixer_lem_example =
    put_mixer_lem muted 70 3 70 3 (negsuc 0) muted-use_is_exclusive (omega arith) (omega arith)
      (omega arith) (omega arith)

-- Two channels in use.
abbrev stereo : ℕ → ℤ
stereo i = if ltb i 2 then pos i else negsuc 0

update_channel_map-read_gain_example :
    let output = output_gain (used_channels 64 stereo) 1 65 (read_gain muted 1 65) in
    read_gain (update_channel_map muted stereo stereo) 1 65
    ≡ (if ltb 65 64 then input_gain (used_channels 64 stereo) 65 output else output)
update_channel_map-read_gain_example =
    update_channel_map-read_gain muted stereo stereo 1 65 (omega arith) (omega arith)
