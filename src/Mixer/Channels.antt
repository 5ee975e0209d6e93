-- ===== src/Mixer/Channels.antt =====
-- The loops of hdspe_mixer.c over all channels: clearing the mixer, and muting the channels that
-- the channel maps do not use.
pub mod Loops
pub mod Update
pub mod Cache
use snd_hdspe.Common.{ℕ, zero, suc, ◌+◌, ◌-◌, Bool, true, false, ltb, leb, ◌==◌, if◌then◌else◌}
use snd_hdspe.Common.Int.{ℤ, pos, negsuc}
use snd_hdspe.Mixer.{Mixer, write_in_gain, write_pb_gain}

-- f 0, then f 1, up to f (n - 1).
pub for_channels : ℕ → (ℕ → Mixer → Mixer) → Mixer → Mixer
for_channels zero f m = m
for_channels (suc n) f m = f n (for_channels n f m)

-- Both writes of an inner loop's body.
pub write_both : ℕ → ℕ → ℕ → Mixer → Mixer
write_both chan src gain m = (write_pb_gain (write_in_gain m chan src gain).0 chan src gain).0

-- The gain of type u16 is never negative.
pub clear_mixer : Mixer → ℕ → Mixer
clear_mixer m sgain =
    let gain = if ltb 32768 sgain then 32768 else sgain in
    for_channels 64 (λ i. for_channels 64 (λ j. write_both i j gain)) m

unfoldable pub mark : ℤ → (ℕ → Bool) → ℕ → Bool
mark (pos c) used x = if x == c then true else used x
mark (negsuc n) used x = used x

-- The channels that the first n entries of a channel map name; an entry is below 64.
unfoldable pub used_channels : ℕ → (ℕ → ℤ) → ℕ → Bool
used_channels zero channel_map x = false
used_channels (suc n) channel_map x = mark (channel_map n) (used_channels n channel_map) x

-- One output: muted where it is not used, and else at unity gain for its own playback, as
-- DAW_MODE is defined.
pub update_output : (ℕ → Bool) → ℕ → Mixer → Mixer
update_output used i m =
    if used i then (write_pb_gain m i i 32768).0 else for_channels 64 (λ j. write_both i j 0) m

-- One input: muted where it is not used; PASSTHROUGH_MODE is not defined.
pub update_input : (ℕ → Bool) → ℕ → Mixer → Mixer
update_input used i m = if used i then m else for_channels 64 (λ j m. (write_in_gain m j i 0).0) m

pub update_channel_map : Mixer → (ℕ → ℤ) → (ℕ → ℤ) → Mixer
update_channel_map m map_out map_in =
    let outputs = for_channels 64 (update_output (used_channels 64 map_out)) m in
    for_channels 64 (update_input (used_channels 64 map_in)) outputs
