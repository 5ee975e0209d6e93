-- ===== src/Mixer/Channels/Cache.antt =====
-- The loops of hdspe_mixer.c keep the cache and the card's registers in step.
use snd_hdspe.Common.{ℕ, Bool, ltb, if◌then◌else◌, Bool-cases, inl, inr}
use snd_hdspe.Common.Int.{ℤ}
use snd_hdspe.Mixer.{Mixer, write_in_gain}
use snd_hdspe.Mixer.Gains.{Cached, write_in_gain-Cached, write_pb_gain-Cached}
use snd_hdspe.Mixer.Channels.{
  for_channels, write_both, clear_mixer, used_channels, update_output, update_input,
  update_channel_map,
}
use snd_hdspe.Mixer.Channels.Loops.{for_channels-keeps}

write_both-Cached : (i j gain : ℕ) (m : Mixer) → Cached m → Cached (write_both i j gain m)
unfolding write_both
write_both-Cached i j gain m k =
    write_pb_gain-Cached (write_in_gain m i j gain).0 i j gain (write_in_gain-Cached m i j gain k)

row-Cached :
    (i gain : ℕ) (m : Mixer) → Cached m → Cached (for_channels 64 (λ j. write_both i j gain) m)
row-Cached i gain m k =
    for_channels-keeps Cached (λ j. write_both i j gain)
      (λ j m' k'. write_both-Cached i j gain m' k') 64 m k

update_output-Cached :
    (used : ℕ → Bool) (i : ℕ) (m : Mixer) → Cached m → Cached (update_output used i m)
unfolding update_output
update_output-Cached used i m k = elim (Bool-cases (used i)) [
  | inl u ↦ rw u (write_pb_gain-Cached m i i 32768 k)
  | inr u ↦ rw u (row-Cached i 0 m k)
]

update_input-Cached :
    (used : ℕ → Bool) (i : ℕ) (m : Mixer) → Cached m → Cached (update_input used i m)
unfolding update_input
update_input-Cached used i m k = elim (Bool-cases (used i)) [
  | inl u ↦ rw u k
  | inr u ↦ rw u (
      for_channels-keeps Cached (λ j m'. (write_in_gain m' j i 0).0)
        (λ j m' k'. write_in_gain-Cached m' j i 0 k') 64 m k)
]

-- Clearing the mixer keeps the cache and the card in step.
pub clear_mixer-Cached : (m : Mixer) (sgain : ℕ) → Cached m → Cached (clear_mixer m sgain)
unfolding clear_mixer
clear_mixer-Cached m sgain k =
    let gain : ℕ = if ltb 32768 sgain then 32768 else sgain in
    for_channels-keeps Cached (λ i. for_channels 64 (λ j. write_both i j gain))
      (λ i m' k'. row-Cached i gain m' k') 64 m k

-- An update of the channel maps keeps the card's registers equal to the cached gains.
pub update_channel_map-Cached :
    (m : Mixer) (map_out map_in : ℕ → ℤ) → Cached m → Cached (update_channel_map m map_out map_in)
unfolding update_channel_map
update_channel_map-Cached m map_out map_in k =
    let outs : ℕ → Bool = used_channels 64 map_out in
    let ins : ℕ → Bool = used_channels 64 map_in in
    let outputs =
      for_channels-keeps Cached (update_output outs) (update_output-Cached outs) 64 m k in
    for_channels-keeps Cached (update_input ins) (update_input-Cached ins) 64
      (for_channels 64 (update_output outs) m) outputs
